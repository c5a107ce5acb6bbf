-- ===== src/Api/Listing.antt =====
-- What the audit route lists.
use mathlib.Core.List.{Perm}
use ktayl_underwriting.Prelude.{
  ℕ, ◌≡◌, refl, Bool, true, false, some, List, ltb, ◌==◌, select, arith,
}
use ktayl_underwriting.Store.Rows.{Submission, AuditEntry, Db}
use ktayl_underwriting.Store.Order.{InOrder, order_by-perm, order_by-InOrder}
use ktayl_underwriting.Store.Queries.{find_submission, get_submission, list_for_submission}
use ktayl_underwriting.Api.Routes.{reply}
use ktayl_underwriting.Api.Reads

abbrev earlier : AuditEntry → AuditEntry → Bool
earlier x y = ltb x.at y.at

earlier-asym : (x y : AuditEntry) → earlier x y ≡ true → earlier y x ≡ false
earlier-asym x y h = ground (arith, h)

earlier-chain :
    (x y z : AuditEntry) → earlier y x ≡ false → earlier z y ≡ false → earlier z x ≡ false
earlier-chain x y z h k = ground (arith, h, k)

-- The audit route of a stored submission answers 200 with that submission's entries, each once and no other, and none
-- before one with an earlier time.
pub get_submission_audit_lem :
    (db : Db) (id : ℕ) (s : Submission)
    → find_submission db id ≡ some s
    → (entries : List AuditEntry) × (Reads.get_submission_audit db id ≡ reply 200 entries)
      × Perm entries (select (λ (e : AuditEntry). e.submission_id == id) db.audit)
      × InOrder (λ (x y : AuditEntry). ltb x.at y.at) entries
unfolding Reads.get_submission_audit get_submission list_for_submission
get_submission_audit_lem db id s found =
    let own = select (λ (e : AuditEntry). e.submission_id == id) db.audit in
    (
      list_for_submission db id,
      rw found refl,
      order_by-perm earlier own,
      order_by-InOrder earlier earlier-asym earlier-chain own,
    )

-- ===== src/System/Overlap.antt =====
-- Binds whose two halves have other requests between them, as the threads of the service may serve them.
pub mod Held
pub mod Orderly
use ktayl_underwriting.Prelude.{
  ℕ, zero, suc, String, ◌≡◌, refl, sym, ap, ◌∙◌, subst, Option, none, some, List, [], ◌∷◌, ◌++◌,
  All, All-map, All-append, All-Mem, select, select-All, select-passes, Mem, first, later,
  Mem-append, Extends, Extends-refl, Extends-append, find-append_some, find-append_none, ◌==◌,
  ==_iff, find, Bool, ◌⊎◌, inl, inr, Option-cases,
}
use ktayl_underwriting.Enums.{accept}
use ktayl_underwriting.Store.Rows.{
  Submission, Decision, Quote, Binding, AuditEntry, Db, Env, Fault, Result, ok, raised, or_raise,
  no_quote,
}
use ktayl_underwriting.Store.Newest.{newest, newest-All}
use ktayl_underwriting.Store.Queries.{
  get_submission, latest_decision, latest_quote, by_submission, quote_after, add_binding,
}
use ktayl_underwriting.Store.Results.{or_raise-eq-ok, ok-injective, get_submission-eq-ok}
use ktayl_underwriting.Bind.Interfaces.{PolicyClient, Publisher, continue-eq-ok, lift}
use ktayl_underwriting.Bind.Service.{
  policy_number_for, counterparty_name, create_request, event_for, accepted, publish_best_effort,
  record_binding,
}
use ktayl_underwriting.Bind.Overlap.{
  Pending, Begun, existing, pending, prepare, begin_bind, finish_bind,
}
use ktayl_underwriting.System.Run.{Request, handle, committed}
use ktayl_underwriting.System.Steps.{
  Step, same, seeded, created, assessed, quoted, bound, MayBind, with_binding,
}
use ktayl_underwriting.System.Runs.{handle-Step}
use ktayl_underwriting.System.Growth.{Grows, Step-Grows}
use ktayl_underwriting.System.RefinesBind.{accepted-eq-ok, record_binding-eq-ok}

-- A request served at once, a bind that begins, and the end of a bind: the one at that place among those that began.
pub data Event : Type 0 where
  at_once : Request → Event
  begins : ℕ → String → Event
  ends : ℕ → Event

-- The tables and the world, and the binds that have begun and not ended.
abbrev pub Overlapped : Type 0 → Type 0
Overlapped W = (Db × W) × List Begun

-- What stands at a place, and the rest.
abbrev pub take_out : {A : Type 0} → ℕ → List A → Option A × List A
take_out n [] = (none, [])
take_out zero (x ∷ xs) = (some x, xs)
take_out (suc n) (x ∷ xs) = let (found, rest) = take_out n xs in (found, x ∷ rest)

abbrev pub begun : Result Begun → List Begun → List Begun
begun (raised e) bs = bs
begun (ok b) bs = bs ++ b ∷ []

abbrev pub ended : Env → Option Begun → Db → Db
ended env none db = db
ended env (some b) db = committed db (finish_bind env b db)

module _ {W : Type 0} (env : Env) (client : PolicyClient W) (publisher : Publisher W) where
  unfoldable pub advance : Event → Overlapped W → Overlapped W
  unfolding finish_bind
  advance (at_once r) (s, bs) = (handle env client publisher r s, bs)
  advance (begins id actor) ((db, w), bs) =
      let (r, w') = begin_bind env client publisher id actor db w in ((db, w'), begun r bs)
  advance (ends n) ((db, w), bs) =
      let (found, rest) = take_out n bs in ((ended env found db, w), rest)

  unfoldable pub overlap : List Event → Overlapped W → Overlapped W
  overlap [] o = o
  overlap (e ∷ es) o = overlap es (advance e o)

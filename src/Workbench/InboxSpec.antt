-- ===== src/Workbench/InboxSpec.antt =====
-- What the inbox promises: one item for each submission, with its latest decision's outcome and whether it is bound. No join.
pub mod Refines
use Prim.{Dec, yes, no}
use mathlib.Core.Option
use mathlib.Core.Path.{fun_ext}
use ktayl_underwriting.Prelude.{
  ℕ, ◌≡◌, refl, sym, ap, ◌∙◌, Bool, true, false, Option, none, some, List, [], ◌∷◌, map, select,
  take, drop, arith, ltb, ◌==◌, ==_iff, find, subst, inl, inr, Bool-cases, select-map, take-map,
  drop-map, All, Mem, first, later, All-take, All-drop, select-All,
}
use ktayl_underwriting.Enums.{Outcome, accept, refer, decline}
use ktayl_underwriting.Store.Rows.{Submission, Decision, Binding, Db, Result, ok, ◌>>=◌}
use ktayl_underwriting.Store.Order.{order_by, order_by-map, All-order_by}
use ktayl_underwriting.Store.Queries.{latest_decision, by_submission}
use ktayl_underwriting.Workbench.Schemas.{SubmissionRead, SubmissionListItem, model_validate}
use ktayl_underwriting.Workbench.Latest.{HasOwnTimes, join_all_lem}
use ktayl_underwriting.Workbench.Inbox.{
  Row, is_outcome, passes, newer, statement, among, bound_ids, outcome_of, items_of,
  list_submissions,
}

abbrev is_there : {A : Type 0} → Option A → Bool
is_there none = false
is_there (some a) = true

-- The outcome of a submission's latest decision, if it has one.
abbrev pub latest_outcome : Db → Submission → Option Outcome
latest_outcome db s = Option.map (λ (d : Decision). d.outcome) (latest_decision db s.id)

abbrev same_outcome : (x y : Outcome) → Dec (x ≡ y)
same_outcome accept accept = yes refl
same_outcome accept refer = no λ h. cc
same_outcome accept decline = no λ h. cc
same_outcome refer accept = no λ h. cc
same_outcome refer refer = yes refl
same_outcome refer decline = no λ h. cc
same_outcome decline accept = no λ h. cc
same_outcome decline refer = no λ h. cc
same_outcome decline decline = yes refl

-- Where an outcome is asked for, it is the one there is.
abbrev pub Asks : Option Outcome → Option Outcome → Type 0
Asks none there = Unit
Asks (some asked) there = there ≡ some asked

abbrev pub asks : (asked there : Option Outcome) → Dec (Asks asked there)
asks none there = yes tt
asks (some asked) none = no λ h. cc
asks (some asked) (some o) = elim (same_outcome o asked) [
  | yes e ↦ yes (ap some e)
  | no ne ↦ no λ h. ne (cc)
]

abbrev pub holds : {A : Type 0} → Dec A → Bool
holds (yes a) = true
holds (no na) = false

-- The item of one submission.
unfoldable pub inbox_item : Db → Submission → Result SubmissionListItem
inbox_item db s = do
  read ← model_validate s
  ok (record {
    submission = read;
    latest_outcome = latest_outcome db s;
    bound = is_there (by_submission db s.id);
  })

abbrev pub inbox_items : Db → List Submission → Result (List SubmissionListItem)
inbox_items db [] = ok []
inbox_items db (s ∷ ss) = do item ← inbox_item db s; items ← inbox_items db ss; ok (item ∷ items)

abbrev pub with_latest : Db → Submission → Row
with_latest db s = (s, latest_decision db s.id)

abbrev asked_of : Db → Option Outcome → List Submission
asked_of db outcome = select (λ s. holds (asks outcome (latest_outcome db s))) db.submissions

-- The submissions whose latest decision has the outcome, newest first, and of them the asked page.
abbrev pub page : Db → Option Outcome → ℕ → ℕ → List Submission
page db outcome limit offset =
    take limit (drop offset (order_by (λ x y. ltb y.created_at x.created_at) (asked_of db outcome)))

unfoldable pub inbox : Db → Option Outcome → ℕ → ℕ → Result (List SubmissionListItem)
inbox db outcome limit offset = inbox_items db (page db outcome limit offset)

-- Where every submission can be shown, the inbox answers.
inbox_items_shown :
    (db : Db) (ss : List Submission)
    → All (λ s. (r : SubmissionRead) × (model_validate s ≡ ok r)) ss
    → (items : List SubmissionListItem) × (inbox_items db ss ≡ ok items)
unfolding inbox_item
inbox_items_shown db [] h = ([], refl)
inbox_items_shown db (s ∷ ss) ((read, e), rest) =
    let (items, f) = inbox_items_shown db ss rest in
    let item : SubmissionListItem = record {
      submission = read;
      latest_outcome = latest_outcome db s;
      bound = is_there (by_submission db s.id);
    } in
    (item ∷ items, rw (e, f) refl)

pub inbox_shown :
    (db : Db) (outcome : Option Outcome) (limit offset : ℕ)
    → All (λ s. (r : SubmissionRead) × (model_validate s ≡ ok r)) db.submissions
    → (items : List SubmissionListItem) × (inbox db outcome limit offset ≡ ok items)
unfolding inbox
inbox_shown db outcome limit offset h =
    let Shown : Submission → Type 0 = λ s. (r : SubmissionRead) × (model_validate s ≡ ok r) in
    let before : Submission → Submission → Bool = λ x y. ltb y.created_at x.created_at in
    let hit : Submission → Bool = λ s. holds (asks outcome (latest_outcome db s)) in
    let selected = select hit db.submissions in
    inbox_items_shown db (page db outcome limit offset) (
      All-take Shown limit (drop offset (order_by before selected)) (
        All-drop Shown offset (order_by before selected)
          (All-order_by Shown before selected (select-All Shown hit db.submissions h))))

-- ===== src/Workbench/InboxSpec/Refines.antt =====
-- The inbox of the code against the inbox without a join.

use mathlib.Core.Option
use mathlib.Core.Path.{fun_ext}
use ktayl_underwriting.Prelude.{
  ℕ, ◌≡◌, refl, sym, ap, ◌∙◌, Bool, true, Option, none, some, List, [], ◌∷◌, map, select, take,
  drop, arith, ltb, ◌==◌, ==_iff, find, subst, inl, inr, Bool-cases, select-map, take-map, drop-map,
  Mem, first, later,
}
use ktayl_underwriting.Enums.{Outcome, accept, refer, decline}
use ktayl_underwriting.Store.Rows.{Submission, Decision, Binding, Db}
use ktayl_underwriting.Store.Order.{order_by, order_by-map}
use ktayl_underwriting.Store.Queries.{latest_decision, by_submission}
use ktayl_underwriting.Workbench.Latest.{HasOwnTimes, join_all_lem}
use ktayl_underwriting.Workbench.Inbox.{
  Row, is_outcome, passes, newer, statement, among, bound_ids, outcome_of, items_of,
  list_submissions,
}
use ktayl_underwriting.Workbench.InboxSpec.{
  is_there, asks, holds, asked_of, inbox_item, inbox_items, with_latest, page, inbox,
}

-- The test of the statement, and the outcome of an item.
same_test : (x y : Outcome) → is_outcome x y ≡ holds (asks (some y) (some x))
same_test accept accept = refl
same_test accept refer = refl
same_test accept decline = refl
same_test refer accept = refl
same_test refer refer = refl
same_test refer decline = refl
same_test decline accept = refl
same_test decline refer = refl
same_test decline decline = refl

passes-asks :
    (asked : Option Outcome) (s : Submission) (d : Option Decision)
    → passes asked (s, d) ≡ holds (asks asked (Option.map (λ (d : Decision). d.outcome) d))
passes-asks none s d = refl
passes-asks (some asked) s none = refl
passes-asks (some asked) s (some d) = same_test d.outcome asked

outcome_of_lem : (d : Option Decision) → outcome_of d ≡ Option.map (λ (d : Decision). d.outcome) d
outcome_of_lem none = refl
outcome_of_lem (some d) = refl

statement-inbox :
    (db : Db) (outcome : Option Outcome)
    → HasOwnTimes db.decisions
    → statement db outcome
      ≡ map (with_latest db) (order_by (λ x y. ltb y.created_at x.created_at) (asked_of db outcome))
unfolding statement
statement-inbox db outcome h =
    ap (λ rows. order_by newer (select (passes outcome) rows)) (join_all_lem db db.submissions h)
    ∙ ap (order_by newer) (select-map (with_latest db) (passes outcome) db.submissions)
    ∙ order_by-map (with_latest db) newer
        (select (λ s. passes outcome (with_latest db s)) db.submissions)
    ∙ ap
        (λ (test : Submission → Bool).
          map (with_latest db)
            (order_by (λ x y. ltb y.created_at x.created_at) (select test db.submissions)))
        (fun_ext λ s. passes-asks outcome s (latest_decision db s.id))

-- A submission of the page is among `bound_ids` exactly when it has a binding.
among-bound_ids :
    (bindings : List Binding) (ids : List ℕ) (id : ℕ)
    → among id ids ≡ true
    → among id
        (map (λ (b : Binding). b.submission_id) (select (λ b. among b.submission_id ids) bindings))
      ≡ is_there (find (λ b. b.submission_id == id) bindings)
among-bound_ids [] ids id h = refl
among-bound_ids (b ∷ bs) ids id h =
    let ih = among-bound_ids bs ids id h in
    elim (Bool-cases (b.submission_id == id)) [
      | inl own ↦
          let same : id ≡ b.submission_id = sym ((==_iff b.submission_id id).0 own) in
          let kept : among b.submission_id ids ≡ true = subst (λ i. among i ids ≡ true) same h in
          let hit : id == b.submission_id ≡ true = (==_iff id b.submission_id).1 same in
          rw (own, kept, hit) refl
      | inr other ↦ ground (arith, ih, other)
    ]

items_of-inbox_items :
    (db : Db) (ids : List ℕ) (ss : List Submission)
    → ((s : Submission) → Mem s ss → among s.id ids ≡ true)
    → items_of
        (map
          (λ (b : Binding). b.submission_id)
          (select (λ b. among b.submission_id ids) db.bindings))
        (map (with_latest db) ss)
      ≡ inbox_items db ss
unfolding inbox_item by_submission
items_of-inbox_items db ids [] h = refl
items_of-inbox_items db ids (s ∷ ss) h =
    rw
      (
        among-bound_ids db.bindings ids s.id (h s first),
        items_of-inbox_items db ids ss (λ x m. h x (later m)),
        outcome_of_lem (latest_decision db s.id),
      )
      refl

among_ids :
    (db : Db) (ss : List Submission) (s : Submission)
    → Mem s ss
    → among s.id (map (λ (r : Row). r.0.id) (map (with_latest db) ss)) ≡ true
among_ids db [] s m = elim m [ ]
among_ids db (x ∷ ss) _ first = rw ((==_iff x.id x.id).1 refl) refl
among_ids db (x ∷ ss) s (later m) = ground (arith, among_ids db ss s m)

pub list_submissions-inbox :
    (db : Db) (outcome : Option Outcome) (limit offset : ℕ)
    → HasOwnTimes db.decisions
    → list_submissions db outcome limit offset ≡ inbox db outcome limit offset
unfolding list_submissions inbox
list_submissions-inbox db outcome limit offset h =
    let found =
      order_by (λ (x y : Submission). ltb y.created_at x.created_at) (asked_of db outcome) in
    let shown = page db outcome limit offset in
    let rows_lem : take limit (drop offset (statement db outcome)) ≡ map (with_latest db) shown =
      ap (λ rows. take limit (drop offset rows)) (statement-inbox db outcome h)
      ∙ ap (take limit) (drop-map (with_latest db) offset found)
      ∙ take-map (with_latest db) limit (drop offset found) in
    ap (λ rows. items_of (bound_ids db rows) rows) rows_lem
    ∙ items_of-inbox_items db (map (λ (r : Row). r.0.id) (map (with_latest db) shown)) shown
        (among_ids db shown)

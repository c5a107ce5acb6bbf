-- ===== src/Workbench/Inbox.antt =====
-- `list_submissions` of app/submission/service.py: the inbox.
use ktayl_underwriting.Prelude.{
  ℕ, max, Bool, true, false, Option, none, some, List, [], ◌∷◌, ◌++◌, map, ltb, ◌==◌, select, take,
  drop, if◌then◌else◌,
}
use ktayl_underwriting.Enums.{Outcome, accept, refer, decline}
use ktayl_underwriting.Store.Rows.{Submission, Decision, Binding, Db, Result, ok, ◌>>=◌}
use ktayl_underwriting.Store.Order.{order_by}
use ktayl_underwriting.Workbench.Schemas.{SubmissionListItem, model_validate}

abbrev pub is_outcome : Outcome → Outcome → Bool
is_outcome accept accept = true
is_outcome refer refer = true
is_outcome decline decline = true
is_outcome _ _ = false

-- `func.max(Decision.decided_at)` of one group; `none` where there is no group.
abbrev pub max_decided_at : List Decision → Option ℕ
max_decided_at [] = none
max_decided_at (d ∷ ds) = elim (max_decided_at ds) [
  | none ↦ some d.decided_at
  | some m ↦ some (max d.decided_at m)
]

abbrev pub Row : Type 0
Row = Submission × Option Decision

-- The two outer joins at one submission: a row for each decision of the greatest time, or one row without.
unfoldable pub join_latest : Db → Submission → List Row
join_latest db s =
    let own = select (λ d. d.submission_id == s.id) db.decisions in
    elim (max_decided_at own) [
      | none ↦ (s, none) ∷ []
      | some m ↦ map (λ d. (s, some d)) (select (λ d. d.decided_at == m) own)
    ]

abbrev pub join_all : Db → List Submission → List Row
join_all db [] = []
join_all db (s ∷ ss) = join_latest db s ++ join_all db ss

-- `Decision.outcome == outcome`, which a missing decision does not meet
abbrev pub passes : Option Outcome → Row → Bool
passes none row = true
passes (some o) (s, none) = false
passes (some o) (s, some d) = is_outcome d.outcome o

abbrev pub newer : Row → Row → Bool
newer x y = ltb y.0.created_at x.0.created_at

-- The statement without its LIMIT and OFFSET.
unfoldable pub statement : Db → Option Outcome → List Row
statement db outcome = order_by newer (select (passes outcome) (join_all db db.submissions))

-- Whether an id is among some ids.
abbrev pub among : ℕ → List ℕ → Bool
among id [] = false
among id (x ∷ xs) = if id == x then true else among id xs

-- `bound_ids`: the submissions of the bindings of these rows
abbrev pub bound_ids : Db → List Row → List ℕ
bound_ids db rows =
    map (λ (b : Binding). b.submission_id)
      (select (λ b. among b.submission_id (map (λ (r : Row). r.0.id) rows)) db.bindings)

abbrev pub outcome_of : Option Decision → Option Outcome
outcome_of none = none
outcome_of (some d) = some d.outcome

abbrev pub item_of : List ℕ → Row → Result SubmissionListItem
item_of bound (s, decision) = do
  submission ← model_validate s
  ok (record {
    submission = submission;
    latest_outcome = outcome_of decision;
    bound = among s.id bound;
  })

-- The loop over the rows.
abbrev pub items_of : List ℕ → List Row → Result (List SubmissionListItem)
items_of bound [] = ok []
items_of bound (r ∷ rs) = do item ← item_of bound r; items ← items_of bound rs; ok (item ∷ items)

unfoldable pub list_submissions : Db → Option Outcome → ℕ → ℕ → Result (List SubmissionListItem)
list_submissions db outcome limit offset =
    let rows = take limit (drop offset (statement db outcome)) in items_of (bound_ids db rows) rows

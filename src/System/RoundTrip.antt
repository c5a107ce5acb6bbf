-- ===== src/System/RoundTrip.antt =====
-- A submission that is created and then read, by the routes of app/api/routes.py.
use ktayl_underwriting.Prelude.{
  ℕ, suc, ◌≡◌, ◌≢◌, refl, sym, ap, ◌∙◌, subst, none, some, List, [], ◌∷◌, ◌++◌, String, inl, inr,
  Bool-cases, All, All-map, find, select, find-append_none, find_holds, find-All, ◌==◌, ==_iff,
  arith,
}
use ktayl_underwriting.Prelude.Text.{upper}
use ktayl_underwriting.Enums.Parse.{lob_of-lob_value, occupancy_of-occupancy_value}
use ktayl_underwriting.Store.Rows.{Submission, Decision, Db, Env, Fault, Result, empty, ok, raised}
use ktayl_underwriting.Store.Queries.{
  get_submission, find_submission, latest_decision, add_counterparty, append_audit,
}
use ktayl_underwriting.Store.Results.{>>=-eq-ok, ok-injective}
use ktayl_underwriting.Workbench.Schemas.{SubmissionRead, model_validate}
use ktayl_underwriting.Workbench.Submissions
use ktayl_underwriting.Workbench.Submissions.{SubmissionCreate, add_submission}
use ktayl_underwriting.Bind.Interfaces.{PolicyClient, Publisher}
use ktayl_underwriting.Api.Routes
use ktayl_underwriting.Api.Routes.{reply, failed, answer}
use ktayl_underwriting.Api.Reads
use ktayl_underwriting.System.Run.{Request, run}
use ktayl_underwriting.System.Runs.{run-Reach}
use ktayl_underwriting.System.Draws.{IsFresh-other}
use ktayl_underwriting.System.Keys.{IsFair, IsKeyed, Reach-IsKeyed, empty-IsKeyed}
use ktayl_underwriting.System.References.{IsReferenced, run-IsReferenced}

-- No row passes, so none is found and none is left.
pub find-none :
    {A : Type 0} (key : A → ℕ) (id : ℕ) (xs : List A)
    → All (λ x. key x ≢ id) xs
    → find (λ x. key x == id) xs ≡ none
find-none key id [] h = refl
find-none key id (x ∷ xs) h = elim (Bool-cases (key x == id)) [
  | inl hit ↦ absurd (h.0 ((==_iff (key x) id).0 hit))
  | inr miss ↦ rw miss (find-none key id xs h.1)
]

pub select_none :
    {A : Type 0} (key : A → ℕ) (id : ℕ) (xs : List A)
    → All (λ x. key x ≢ id) xs
    → select (λ x. key x == id) xs ≡ []
select_none key id [] h = refl
select_none key id (x ∷ xs) h = elim (Bool-cases (key x == id)) [
  | inl hit ↦ absurd (h.0 ((==_iff (key x) id).0 hit))
  | inr miss ↦ rw miss (select_none key id xs h.1)
]

-- What a client is shown of a submission that was created from a payload.
abbrev pub shown_of : SubmissionCreate → (id counterparty_id created_at : ℕ) → SubmissionRead
shown_of payload id counterparty_id created_at = record {
  id = id;
  counterparty_id = counterparty_id;
  line_of_business = payload.line_of_business;
  tiv_eur = payload.tiv_eur;
  occupancy = payload.occupancy;
  country = upper payload.country;
  postcode = payload.postcode;
  requested_cover = payload.requested_cover;
  broker_ref = payload.broker_ref;
  created_at = created_at;
}

add_submission_shown :
    (env : Env) (payload : SubmissionCreate) (c : ℕ) (db db' : Db) (s : Submission)
    → add_submission env payload c db ≡ ok (s, db')
    → (s.id ≡ env.uuid db.drawn)
      × (model_validate s ≡ ok (shown_of payload s.id s.counterparty_id s.created_at))
      × (db'.submissions ≡ db.submissions ++ s ∷ [])
      × (db'.decisions ≡ db.decisions)
unfolding add_submission model_validate
add_submission_shown env payload c db db' s e = ground (
  arith,
  lob_of-lob_value payload.line_of_business,
  occupancy_of-occupancy_value payload.occupancy,
)

create_submission_shown :
    (env : Env) (payload : SubmissionCreate) (actor : String) (db db' : Db) (s : Submission)
    → Submissions.create_submission env payload actor db ≡ ok (s, db')
    → (s.id ≡ env.uuid (suc db.drawn))
      × (model_validate s ≡ ok (shown_of payload s.id s.counterparty_id s.created_at))
      × (db'.submissions ≡ db.submissions ++ s ∷ [])
      × (db'.decisions ≡ db.decisions)
unfolding Submissions.create_submission add_counterparty append_audit
create_submission_shown env payload actor db db' s e =
    let ((row, db2), p, q) = >>=-eq-ok (add_submission env payload _ _) _ e in
    let (key, shown, submissions, decisions) = add_submission_shown env payload _ _ db2 row p in
    let same_row : row ≡ s = ap (λ x. x.0) (ok-injective q) in
    let after = ap (λ x. x.1) (ok-injective q) in
    let validates : Submission → Type 0 =
      λ r. (model_validate r ≡ ok (shown_of payload r.id r.counterparty_id r.created_at)) in
    (
      ap (λ (r : Submission). r.id) (sym same_row) ∙ key,
      subst validates same_row shown,
      sym (ap (λ (d : Db). d.submissions) after)
          ∙ submissions
          ∙ ap (λ r. db.submissions ++ r ∷ []) same_row,
      sym (ap (λ (d : Db). d.decisions) after) ∙ decisions,
    )

answer-eq-reply :
    {A : Type 0} (code code' : ℕ) (status : Fault → ℕ) (db : Db) (r : Result (A × Db)) {a : A}
    {db' : Db}
    → answer code status db r ≡ (reply code' a, db')
    → r ≡ ok (a, db')
answer-eq-reply code code' status db (ok (x, y)) {a} {db'} h =
    let same_db : y ≡ db' = ap (λ z. z.1) h in
    let same_row : x ≡ a = cc (ap (λ z. z.0) h) in cc (same_db, same_row)
answer-eq-reply code code' status db (raised e) h = absurd (cc (ap (λ z. z.0) h))

module _ (env : Env) (fair : IsFair env) (db db' : Db) (keyed : IsKeyed env db)
    (referenced : IsReferenced db) (s : Submission) (key : s.id ≡ env.uuid (suc db.drawn)) where
  -- A new id is that of no stored submission.
  pub new_id : All (λ (x : Submission). x.id ≢ s.id) db.submissions
  new_id =
      All-map (λ x other same. other (same ∙ key)) db.submissions
        (IsFresh-other env.uuid (λ (x : Submission). x.id) db.drawn (suc db.drawn) db.submissions
          fair.new_id (omega arith) keyed.submissions)

  pub found_new : db'.submissions ≡ db.submissions ++ s ∷ [] → find_submission db' s.id ≡ some s
  unfolding find_submission
  found_new grown =
      ap (find (λ x. x.id == s.id)) grown
      ∙ find-append_none (λ x. x.id == s.id) db.submissions (s ∷ [])
          (find-none (λ (x : Submission). x.id) s.id db.submissions new_id)
      ∙ rw ((==_iff s.id s.id).1 refl) refl

  -- Nor is it that of a submission that was decided on.
  undecided : db'.decisions ≡ db.decisions → latest_decision db' s.id ≡ none
  unfolding latest_decision
  undecided kept =
      let others : All (λ (d : Decision). d.submission_id ≢ s.id) db.decisions =
        All-map
          (λ d (x, e) same.
            find-All (λ (x : Submission). x.id ≢ s.id) (λ x. x.id == d.submission_id) db.submissions
              new_id e
              ((==_iff x.id d.submission_id).0
                  (find_holds (λ (x : Submission). x.id == d.submission_id) db.submissions e)
                ∙ same))
          db.decisions referenced.decisions in
      rw (kept, select_none (λ (d : Decision). d.submission_id) s.id db.decisions others) refl

-- Where no id and no time is given twice: whatever requests were served, starting from empty tables, a payload that is
-- answered with a created submission is what a client is shown of that submission next, its country in upper case, and
-- there is no decision on it yet.
pub create_then_get :
    {W : Type 0} (env : Env) (client : PolicyClient W) (publisher : Publisher W) (rs : List Request)
    (w : W) (payload : SubmissionCreate) (actor : String) (db' : Db) (s : Submission)
    → IsFair env
    → Routes.create_submission env payload actor (run env client publisher rs (empty, w)).0
      ≡ (reply 201 s, db')
    → Reads.get_submission_route db' s.id
      ≡ reply 200 (record {
        submission = shown_of payload s.id s.counterparty_id s.created_at;
        latest_decision = none;
      })
unfolding Routes.create_submission Reads.get_submission_route Reads.submission_detail get_submission
create_then_get env client publisher rs w payload actor db' s fair e =
    let db = (run env client publisher rs (empty, w)).0 in
    let keyed =
      Reach-IsKeyed fair (run-Reach env client publisher rs (empty, w)) (empty-IsKeyed env) in
    let referenced = run-IsReferenced env client publisher rs w in
    let created : Submissions.create_submission env payload actor db ≡ ok (s, db') =
      answer-eq-reply 201 201 Routes.create_status db
        (Submissions.create_submission env payload actor db) e in
    let (key, shown, submissions, decisions) =
      create_submission_shown env payload actor db db' s created in
    rw
      (
        found_new env fair db db' keyed referenced s key submissions,
        shown,
        undecided env fair db db' keyed referenced s key decisions,
      )
      refl

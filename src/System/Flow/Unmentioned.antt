-- ===== src/System/Flow/Unmentioned.antt =====
-- A submission that was just created is mentioned by no other row.
use ktayl_underwriting.Prelude.{
  ℕ, suc, ◌≡◌, ◌≢◌, refl, ap, ◌∙◌, some, none, List, [], ◌∷◌, ◌++◌, All, All-map, find, find_holds,
  find-All, select-append, ◌==◌, ==_iff, Bool,
}
use ktayl_underwriting.Store.Rows.{Submission, Decision, Quote, Binding, Db, Env}
use ktayl_underwriting.Store.Queries.{latest_decision, latest_quote, by_submission}
use ktayl_underwriting.System.Keys.{IsFair, IsKeyed}
use ktayl_underwriting.System.References.{IsReferenced}
use ktayl_underwriting.System.RoundTrip.{find-none, select_none, new_id}

module _ (env : Env) (fair : IsFair env) (db : Db) (keyed : IsKeyed env db)
    (referenced : IsReferenced db) (s : Submission) (key : s.id ≡ env.uuid (suc db.drawn)) where
  elsewhere :
      {A : Type 0} (ref : A → ℕ) (rows : List A)
      → All
          (λ r.
            (x : Submission) × (find (λ (y : Submission). y.id == ref r) db.submissions ≡ some x))
          rows
      → All (λ r. ref r ≢ s.id) rows
  elsewhere ref rows h =
      All-map
        (λ r (x, e) same.
          find-All (λ (y : Submission). y.id ≢ s.id) (λ y. y.id == ref r) db.submissions
            (new_id env fair db db keyed referenced s key) e
            ((==_iff x.id (ref r)).0
                (find_holds (λ (y : Submission). y.id == ref r) db.submissions e)
              ∙ same))
        rows h

  pub unbound_new : (later : Db) → later.bindings ≡ db.bindings → by_submission later s.id ≡ none
  unfolding by_submission
  unbound_new later kept =
      ap (find (λ (b : Binding). b.submission_id == s.id)) kept
      ∙ find-none (λ (b : Binding). b.submission_id) s.id db.bindings
          (elsewhere (λ (b : Binding). b.submission_id) db.bindings referenced.bindings)

  -- Its first decision is its latest, and so is its first quote.
  pub first_decision :
      (later : Db) (d : Decision)
      → d.submission_id ≡ s.id
      → later.decisions ≡ db.decisions ++ d ∷ []
      → latest_decision later s.id ≡ some d
  unfolding latest_decision
  first_decision later d own grown =
      let p : Decision → Bool = λ d. d.submission_id == s.id in
      let others =
        select_none (λ (d : Decision). d.submission_id) s.id db.decisions
          (elsewhere (λ (d : Decision). d.submission_id) db.decisions referenced.decisions) in
      rw (grown, select-append p db.decisions (d ∷ []), others, (==_iff d.submission_id s.id).1 own)
        refl

  pub first_quote :
      (later : Db) (q : Quote)
      → q.submission_id ≡ s.id
      → later.quotes ≡ db.quotes ++ q ∷ []
      → latest_quote later s.id ≡ some q
  unfolding latest_quote
  first_quote later q own grown =
      let p : Quote → Bool = λ q. q.submission_id == s.id in
      let others =
        select_none (λ (q : Quote). q.submission_id) s.id db.quotes
          (elsewhere (λ (q : Quote). q.submission_id) db.quotes referenced.quotes) in
      rw (grown, select-append p db.quotes (q ∷ []), others, (==_iff q.submission_id s.id).1 own)
        refl

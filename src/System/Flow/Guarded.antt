-- ===== src/System/Flow/Guarded.antt =====
-- The flow from intake to binding as it comes in, behind the checks of app/api/auth.py.
use ktayl_underwriting.Prelude.{ℕ, suc, String, Option, ◌≡◌, ap, ◌∙◌, false, [], ◌∷◌, str_eq}
use ktayl_underwriting.Store.Rows.{Db, Env}
use ktayl_underwriting.Workbench.Submissions.{SubmissionCreate}
use ktayl_underwriting.Bind.Interfaces.{PolicyClient, Publisher}
use ktayl_underwriting.Api.Auth.{Decoder}
use ktayl_underwriting.Api.Guard.{IsAuthorised, writing-IsAuthorised}
use ktayl_underwriting.Api.Routes
use ktayl_underwriting.System.Keys.{IsFair}
use ktayl_underwriting.System.Secured.{
  post_submission, post_assess, post_quote, post_bind, serve, serve_all,
}
use ktayl_underwriting.System.Flow.Terms.{IsWithinAppetite, IsWilling, IsOpen}
use ktayl_underwriting.System.Flow.Served.{IsServed, flow-IsServed}

module _ {W : Type 0} (env : Env) (client : PolicyClient W) (publisher : Publisher W)
    (jwks_url : String) (decode : Decoder) (header : Option String) (actor : String)
    (on : str_eq jwks_url "" ≡ false)
    (authorised : (n : ℕ) → IsAuthorised decode n header "underwriting:write" actor) where
  create_served :
      (n : ℕ) (payload : SubmissionCreate) (db : Db) (w : W)
      → serve env client publisher jwks_url decode n (post_submission header payload) (db, w)
        ≡ ((Routes.create_submission env payload actor db).1, w)
  unfolding serve
  create_served n payload db w =
      ap (λ x. (x.1, w))
        (writing-IsAuthorised jwks_url decode n header
          (λ a. Routes.create_submission env payload a db) db actor on (authorised n))

  assess_served :
      (n id : ℕ) (db : Db) (w : W)
      → serve env client publisher jwks_url decode n (post_assess header id) (db, w)
        ≡ ((Routes.assess_submission env id actor db).1, w)
  unfolding serve
  assess_served n id db w =
      ap (λ x. (x.1, w))
        (writing-IsAuthorised jwks_url decode n header (λ a. Routes.assess_submission env id a db)
          db actor on (authorised n))

  quote_served :
      (n id : ℕ) (db : Db) (w : W)
      → serve env client publisher jwks_url decode n (post_quote header id) (db, w)
        ≡ ((Routes.quote_submission env id actor db).1, w)
  unfolding serve
  quote_served n id db w =
      ap (λ x. (x.1, w))
        (writing-IsAuthorised jwks_url decode n header (λ a. Routes.quote_submission env id a db) db
          actor on (authorised n))

  bind_served :
      (n id : ℕ) (db : Db) (w : W)
      → serve env client publisher jwks_url decode n (post_bind header id) (db, w) ≡ (
          let ((_, db'), w') = Routes.bind_submission env client publisher id actor db w in
          (db', w'))
  unfolding serve
  bind_served n id db w =
      ap (λ x. x.1)
        (writing-IsAuthorised jwks_url decode n header
          (λ a.
            let ((r, db'), w') = Routes.bind_submission env client publisher id a db w in
            (r, (db', w')))
          (db, w) actor on (authorised n))

  -- What the four requests leave when they come in with the header, one after another.
  serve_all-served :
      (n : ℕ) (payload : SubmissionCreate) (db : Db) (w : W)
      (f : IsServed env client publisher payload actor db w)
      → serve_all env client publisher jwks_url decode n
          (post_submission header payload
            ∷ post_assess header f.submission.id
            ∷ post_quote header f.submission.id
            ∷ post_bind header f.submission.id
            ∷ [])
          (db, w)
        ≡ (f.db4, f.world)
  unfolding serve_all
  serve_all-served n payload db w f =
      let id = f.submission.id in
      let n2 = suc (suc n) in
      let n4 = suc (suc n2) in
      let n6 = suc (suc n4) in
      let assess_it : Db × W → Db × W =
        serve env client publisher jwks_url decode n2 (post_assess header id) in
      let quote_it : Db × W → Db × W =
        serve env client publisher jwks_url decode n4 (post_quote header id) in
      let bind_it : Db × W → Db × W =
        serve env client publisher jwks_url decode n6 (post_bind header id) in
      let created = create_served n payload db w ∙ ap (λ x. (x.1, w)) f.created in
      let assessed = assess_served n2 id f.db1 w ∙ ap (λ x. (x.1, w)) f.assessed in
      let quoted = quote_served n4 id f.db2 w ∙ ap (λ x. (x.1, w)) f.quoted in
      let bound = bind_served n6 id f.db3 w ∙ ap (λ x. (x.0.1, x.1)) f.bound in
      ap (λ x. bind_it (quote_it (assess_it x))) created
      ∙ ap (λ x. bind_it (quote_it x)) assessed
      ∙ ap bind_it quoted
      ∙ bound

  -- Behind the checks of a caller's token, where a key URL is set: a caller whose token has the scope `underwriting:write`
  -- and stays valid, so that each validation names the same actor, takes a risk all the way. Where no id and no time is given
  -- twice, the risk is within the appetite of ruleset version 1, that version and rate table version 2 are current, keys are
  -- distinct and met, no binding has the policy number of an id yet to be drawn, and the policy service creates, submits
  -- and activates what it is asked to: the four endpoints, called by that actor, create, accept, quote and bind the risk,
  -- and the four requests as they come in with the token's header leave the tables and the policy service as these calls do.
  pub serve_all-IsServed :
      (n : ℕ) (payload : SubmissionCreate) (db : Db) (w : W)
      → IsFair env
      → IsWithinAppetite payload
      → IsOpen env db
      → IsWilling client
      → (f : IsServed env client publisher payload actor db w) × (serve_all env client publisher
            jwks_url decode n
            (post_submission header payload
              ∷ post_assess header f.submission.id
              ∷ post_quote header f.submission.id
              ∷ post_bind header f.submission.id
              ∷ [])
            (db, w)
          ≡ (f.db4, f.world))
  serve_all-IsServed n payload db w fair within opened willing =
      let f = flow-IsServed env client publisher payload actor db w fair within opened willing in
      (f, serve_all-served n payload db w f)

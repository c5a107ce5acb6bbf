-- ===== src/System/Secured.antt =====
-- The requests as they come in, behind the checks of app/api/auth.py.
use ktayl_underwriting.Prelude.{
  ℕ, suc, String, Option, ◌≡◌, refl, sym, ap, ◌∙◌, subst, ◌⊎◌, inl, inr, false, List, [], ◌∷◌, All,
  All-append, str_eq,
}
use ktayl_underwriting.Store.Rows.{AuditEntry, Db, Env, empty}
use ktayl_underwriting.Workbench.Submissions.{SubmissionCreate}
use ktayl_underwriting.Bind.Interfaces.{PolicyClient, Publisher}
use ktayl_underwriting.Api.Auth.{Decoder}
use ktayl_underwriting.Api.Guard.{writing, IsAuthorised, writing_cases}
use ktayl_underwriting.Api.Routes
use ktayl_underwriting.Api.Routes.{Response}
use ktayl_underwriting.System.Run.{Request, start, create, assess, quote, bind, seed, handle, run}
use ktayl_underwriting.System.RefinesSeed.{seed_audit}
use ktayl_underwriting.System.Signed.{
  IsSigned, create_route-IsSigned, assess_route-IsSigned, quote_route-IsSigned, bind_route-IsSigned,
}

-- A start of the service, or a request to an endpoint that writes, with its `Authorization` header if it has one.
pub data Incoming : Type 0 where
  start_up : Incoming
  post_submission : Option String → SubmissionCreate → Incoming
  post_assess post_quote post_bind : Option String → ℕ → Incoming

abbrev regroup : {A W : Type 0} → (Response A × Db) × W → Response A × (Db × W)
regroup ((r, db), w) = (r, (db, w))

-- The request that an incoming one asks for, by an actor.
abbrev pub as_request : Incoming → String → Request
as_request start_up actor = start
as_request (post_submission header payload) actor = create payload actor
as_request (post_assess header id) actor = assess id actor
as_request (post_quote header id) actor = quote id actor
as_request (post_bind header id) actor = bind id actor

-- The header of an incoming request is one of those sent.
abbrev pub WasSent : (Option String → Type 0) → Incoming → Type 0
WasSent Sent start_up = Unit
WasSent Sent (post_submission header payload) = Sent header
WasSent Sent (post_assess header id) = Sent header
WasSent Sent (post_quote header id) = Sent header
WasSent Sent (post_bind header id) = Sent header

-- A header was sent whose token was valid, had the scope to write, and named the actor.
abbrev pub IsVouched : Decoder → (Option String → Type 0) → String → Type 0
IsVouched decode Sent actor =
    (n : ℕ) × (header : Option String) × Sent header
    × IsAuthorised decode n header "underwriting:write" actor

-- A start of the service, or a request by such an actor.
abbrev pub IsVouchedRequest : Decoder → (Option String → Type 0) → Request → Type 0
IsVouchedRequest decode Sent start = Unit
IsVouchedRequest decode Sent (create payload actor) = IsVouched decode Sent actor
IsVouchedRequest decode Sent (assess id actor) = IsVouched decode Sent actor
IsVouchedRequest decode Sent (quote id actor) = IsVouched decode Sent actor
IsVouchedRequest decode Sent (bind id actor) = IsVouched decode Sent actor

module _ {W : Type 0} (env : Env) (client : PolicyClient W) (publisher : Publisher W)
    (jwks_url : String) (decode : Decoder) where
  unfoldable pub serve : ℕ → Incoming → Db × W → Db × W
  serve n start_up (db, w) = (seed env db, w)
  serve n (post_submission header payload) (db, w) = (
    (writing jwks_url decode n header (λ actor. Routes.create_submission env payload actor db)
        db).1,
    w,
  )
  serve n (post_assess header id) (db, w) = (
    (writing jwks_url decode n header (λ actor. Routes.assess_submission env id actor db) db).1,
    w,
  )
  serve n (post_quote header id) (db, w) = (
    (writing jwks_url decode n header (λ actor. Routes.quote_submission env id actor db) db).1,
    w,
  )
  serve n (post_bind header id) (db, w) =
      (writing jwks_url decode n header
        (λ actor. regroup (Routes.bind_submission env client publisher id actor db w)) (db, w)).1

  -- Each request has two validations of its token.
  unfoldable pub serve_all : ℕ → List Incoming → Db × W → Db × W
  serve_all n [] s = s
  serve_all n (i ∷ is) s = serve_all (suc (suc n)) is (serve n i s)

  module _ (Sent : Option String → Type 0) where
    -- Refused, with nothing changed, or handled for an actor with a token.
    serve_cases :
        (n : ℕ) (i : Incoming) (s : Db × W)
        → str_eq jwks_url "" ≡ false
        → WasSent Sent i
        → (serve n i s ≡ s)
          ⊎ ((r : Request) × IsVouchedRequest decode Sent r
              × (serve n i s ≡ handle env client publisher r s))
    unfolding serve handle
    serve_cases n start_up (db, w) on sent = inr (start, tt, refl)
    serve_cases n (post_submission header payload) (db, w) on sent =
        elim (writing_cases jwks_url decode n header
          (λ actor. Routes.create_submission env payload actor db) db on) [
            | inl (status, e) ↦ inl (ap (λ x. (x.1, w)) e)
            | inr (actor, known, e) ↦
                inr (create payload actor, (n, header, sent, known), ap (λ x. (x.1, w)) e)
          ]
    serve_cases n (post_assess header id) (db, w) on sent =
        elim (writing_cases jwks_url decode n header
          (λ actor. Routes.assess_submission env id actor db) db on) [
            | inl (status, e) ↦ inl (ap (λ x. (x.1, w)) e)
            | inr (actor, known, e) ↦
                inr (assess id actor, (n, header, sent, known), ap (λ x. (x.1, w)) e)
          ]
    serve_cases n (post_quote header id) (db, w) on sent =
        elim (writing_cases jwks_url decode n header
          (λ actor. Routes.quote_submission env id actor db) db on) [
            | inl (status, e) ↦ inl (ap (λ x. (x.1, w)) e)
            | inr (actor, known, e) ↦
                inr (quote id actor, (n, header, sent, known), ap (λ x. (x.1, w)) e)
          ]
    serve_cases n (post_bind header id) (db, w) on sent =
        elim (writing_cases jwks_url decode n header
          (λ actor. regroup (Routes.bind_submission env client publisher id actor db w)) (db, w)
          on) [
            | inl (status, e) ↦ inl (ap (λ x. x.1) e)
            | inr (actor, known, e) ↦ inr (bind id actor, (n, header, sent, known), ap (λ x. x.1) e)
          ]

    -- Where a key URL is set: whatever comes in, the tables and the policy service end as after some requests each of
    -- which is a start of the service or by an actor for whom a header was sent whose token was valid, had the scope
    -- `underwriting:write`, and named the actor.
    pub serve_all-run :
        (n : ℕ) (is : List Incoming) (s : Db × W)
        → str_eq jwks_url "" ≡ false
        → All (WasSent Sent) is
        → (rs : List Request) × All (IsVouchedRequest decode Sent) rs
          × (serve_all n is s ≡ run env client publisher rs s)
    unfolding serve_all run
    serve_all-run n [] s on sent = ([], tt, refl)
    serve_all-run n (i ∷ is) s on sent =
        let (rs, vouched, e) = serve_all-run (suc (suc n)) is (serve n i s) on sent.1 in
        elim (serve_cases n i s on sent.0) [
          | inl unchanged ↦ (rs, vouched, e ∙ ap (run env client publisher rs) unchanged)
          | inr (r, known, handled) ↦
              (r ∷ rs, (known, vouched), e ∙ ap (run env client publisher rs) handled)
        ]

    AllVouched-IsSigned :
        (actor : String) (db db' : Db)
        → IsVouched decode Sent actor
        → IsSigned actor db db'
        → All (λ (e : AuditEntry). IsVouched decode Sent e.actor) db.audit
        → All (λ (e : AuditEntry). IsVouched decode Sent e.actor) db'.audit
    AllVouched-IsSigned actor db db' known (inl kept) h =
        subst (All (λ (e : AuditEntry). IsVouched decode Sent e.actor)) (sym kept) h
    AllVouched-IsSigned actor db db' known (inr (e, by_actor, grown)) h =
        subst (All (λ (e : AuditEntry). IsVouched decode Sent e.actor)) (sym grown) (
          All-append (λ (e : AuditEntry). IsVouched decode Sent e.actor) db.audit (e ∷ []) h
            (subst (IsVouched decode Sent) (sym by_actor) known, tt))

    handle-IsVouched :
        (r : Request) (s : Db × W)
        → IsVouchedRequest decode Sent r
        → All (λ (e : AuditEntry). IsVouched decode Sent e.actor) s.0.audit
        → All
            (λ (e : AuditEntry). IsVouched decode Sent e.actor)
            (handle env client publisher r s).0.audit
    unfolding handle
    handle-IsVouched start (db, w) known h =
        subst (All (λ (e : AuditEntry). IsVouched decode Sent e.actor)) (sym (seed_audit env db)) h
    handle-IsVouched (create payload actor) (db, w) known h =
        AllVouched-IsSigned actor db (Routes.create_submission env payload actor db).1 known
          (create_route-IsSigned env payload actor db) h
    handle-IsVouched (assess id actor) (db, w) known h =
        AllVouched-IsSigned actor db (Routes.assess_submission env id actor db).1 known
          (assess_route-IsSigned env id actor db) h
    handle-IsVouched (quote id actor) (db, w) known h =
        AllVouched-IsSigned actor db (Routes.quote_submission env id actor db).1 known
          (quote_route-IsSigned env id actor db) h
    handle-IsVouched (bind id actor) (db, w) known h =
        AllVouched-IsSigned actor db (Routes.bind_submission env client publisher id actor db w).0.1
          known (bind_route-IsSigned env client publisher id actor db w) h

    run-IsVouched :
        (rs : List Request) (s : Db × W)
        → All (IsVouchedRequest decode Sent) rs
        → All (λ (e : AuditEntry). IsVouched decode Sent e.actor) s.0.audit
        → All
            (λ (e : AuditEntry). IsVouched decode Sent e.actor)
            (run env client publisher rs s).0.audit
    unfolding run
    run-IsVouched [] s known h = h
    run-IsVouched (r ∷ rs) s known h =
        run-IsVouched rs (handle env client publisher r s) known.1 (handle-IsVouched r s known.0 h)

    -- Where a key URL is set: whatever comes in, starting from empty tables, every audit entry names as its actor someone
    -- for whom a header was sent whose token was valid, had the scope `underwriting:write`, and named the actor.
    pub serve_all-IsVouched :
        (n : ℕ) (is : List Incoming) (w : W)
        → str_eq jwks_url "" ≡ false
        → All (WasSent Sent) is
        → All
            (λ (e : AuditEntry). IsVouched decode Sent e.actor)
            (serve_all n is (empty, w)).0.audit
    serve_all-IsVouched n is w on sent =
        let (rs, known, e) = serve_all-run n is (empty, w) on sent in
        subst (λ (s : Db × W). All (λ (e : AuditEntry). IsVouched decode Sent e.actor) s.0.audit)
          (sym e) (run-IsVouched rs (empty, w) known tt)

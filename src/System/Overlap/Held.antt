-- ===== src/System/Overlap/Held.antt =====
-- What holds of a binding and of a bind that has begun, and what keeps it.
use ktayl_underwriting.Prelude.{
  ℕ, ◌≡◌, refl, sym, ap, ◌∙◌, subst, none, some, List, [], ◌∷◌, ◌++◌, All, All-map, All-append, Mem,
  Mem-append, Extends, find-append_some, find-append_none, ◌==◌, ==_iff, find, Bool,
}
use ktayl_underwriting.Enums.{accept}
use ktayl_underwriting.Store.Rows.{Decision, Quote, Binding, Db, Env}
use ktayl_underwriting.Store.Newest.{newest-Mem}
use ktayl_underwriting.Store.Queries.{latest_decision, latest_quote, by_submission, quote_after}
use ktayl_underwriting.Bind.Service.{policy_number_for}
use ktayl_underwriting.Bind.Overlap.{Begun, existing, pending}
use ktayl_underwriting.System.Steps.{Step, same, seeded, created, assessed, quoted, bound}
use ktayl_underwriting.System.Growth.{Grows, Step-Grows}

-- A stored decision accepts the submission, and the quote is stored and is the submission's.
pub record IsBacked (db : Db) (submission_id : ℕ) (quote : Quote) : Type 0 where
  pub stored : Mem quote db.quotes
  pub is_own : quote.submission_id ≡ submission_id
  pub decision : Decision
  pub decided : Mem decision db.decisions
  pub about : decision.submission_id ≡ submission_id
  pub is_accepted : decision.outcome ≡ accept

-- A binding of such a quote, under its policy number, and the only one of its submission.
pub record IsHeld (env : Env) (db : Db) (b : Binding) : Type 0 where
  pub quote : Quote
  pub backed : IsBacked db b.submission_id quote
  pub of_quote : b.quote_id ≡ quote.id
  pub number : b.policy_number ≡ policy_number_for env quote.id
  pub unique : by_submission db b.submission_id ≡ some b

abbrev pub AllHeld : Env → Db → Type 0
AllHeld env db = All (IsHeld env db) db.bindings

-- What a bind that has begun will write.
abbrev pub IsReady : Env → Db → Begun → Type 0
IsReady env db (existing found) = Unit
IsReady env db (pending p) =
    IsBacked db p.submission.id p.quote
    × (p.request.policy_number ≡ policy_number_for env p.quote.id)

Mem-Extends : {A : Type 0} {a : A} (xs ys : List A) → Extends xs ys → Mem a xs → Mem a ys
Mem-Extends xs ys (zs, e) m = subst (Mem _) (sym e) (Mem-append xs zs m)

Grows-IsBacked :
    {db db' : Db} (id : ℕ) (q : Quote) → Grows db db' → IsBacked db id q → IsBacked db' id q
Grows-IsBacked {db} {db'} id q g h = record {
  stored = Mem-Extends db.quotes db'.quotes g.quotes h.stored;
  is_own = h.is_own;
  decision = h.decision;
  decided = Mem-Extends db.decisions db'.decisions g.decisions h.decided;
  about = h.about;
  is_accepted = h.is_accepted;
}

pub Grows-IsReady :
    (env : Env) {db db' : Db} (b : Begun) → Grows db db' → IsReady env db b → IsReady env db' b
Grows-IsReady env (existing found) g h = tt
Grows-IsReady env (pending p) g h = (Grows-IsBacked p.submission.id p.quote g h.0, h.1)

pub latest-IsBacked :
    (db : Db) (id : ℕ) (d : Decision) (q : Quote)
    → latest_decision db id ≡ some d
    → d.outcome ≡ accept
    → latest_quote db id ≡ some q
    → IsBacked db id q
unfolding latest_decision latest_quote
latest-IsBacked db id d q decided is_accept priced =
    let (d_stored, d_about) =
      newest-Mem (λ (x : Decision). x.submission_id) _ id db.decisions decided in
    let (q_stored, q_own) =
      newest-Mem (λ (x : Quote). x.submission_id) quote_after id db.quotes priced in
    record {
      stored = q_stored;
      is_own = q_own;
      decision = d;
      decided = d_stored;
      about = d_about;
      is_accepted = is_accept;
    }

-- One binding more, of a submission that had none.
pub AllHeld-snoc :
    (env : Env) (db db' : Db) (b : Binding) (q : Quote)
    → Grows db db'
    → db'.bindings ≡ db.bindings ++ b ∷ []
    → by_submission db b.submission_id ≡ none
    → IsBacked db b.submission_id q
    → b.quote_id ≡ q.id
    → b.policy_number ≡ policy_number_for env q.id
    → AllHeld env db
    → AllHeld env db'
unfolding by_submission
AllHeld-snoc env db db' b q g grown free backed of_quote number h =
    let is_of : ℕ → Binding → Bool = λ id x. x.submission_id == id in
    subst (All (IsHeld env db')) (sym grown) (
      All-append (IsHeld env db') db.bindings (b ∷ [])
        (All-map
          (λ x u. record {
            quote = u.quote;
            backed = Grows-IsBacked x.submission_id u.quote g u.backed;
            of_quote = u.of_quote;
            number = u.number;
            unique =
                ap (find (is_of x.submission_id)) grown
                ∙ find-append_some (is_of x.submission_id) db.bindings (b ∷ []) u.unique;
          })
          db.bindings h)
        (
          record {
            quote = q;
            backed = Grows-IsBacked b.submission_id q g backed;
            of_quote = of_quote;
            number = number;
            unique =
                ap (find (is_of b.submission_id)) grown
                ∙ find-append_none (is_of b.submission_id) db.bindings (b ∷ []) free
                ∙ rw ((==_iff b.submission_id b.submission_id).1 refl) refl;
          },
          tt,
        ))

-- Where no binding is added, what is held stays held.
AllHeld-same :
    (env : Env) (db db' : Db)
    → Grows db db'
    → db'.bindings ≡ db.bindings
    → AllHeld env db
    → AllHeld env db'
unfolding by_submission
AllHeld-same env db db' g kept h = subst (All (IsHeld env db')) (sym kept) (
    All-map
      (λ x u. record {
        quote = u.quote;
        backed = Grows-IsBacked x.submission_id u.quote g u.backed;
        of_quote = u.of_quote;
        number = u.number;
        unique = ap (find (λ (y : Binding). y.submission_id == x.submission_id)) kept ∙ u.unique;
      })
      db.bindings h)

pub Step-AllHeld : {env : Env} {db db' : Db} → Step env db db' → AllHeld env db → AllHeld env db'
Step-AllHeld {env} {db} {db'} (same p) h = subst (AllHeld env) (sym p) h
Step-AllHeld {env} {db} {db'} (seeded rs ts n le p) h =
    AllHeld-same env db db' (Step-Grows {env = env} (seeded rs ts n le p))
      (ap (λ (d : Db). d.bindings) p) h
Step-AllHeld {env} {db} {db'} (created c s e may about p) h =
    AllHeld-same env db db' (Step-Grows {env = env} (created c s e may about p))
      (ap (λ (d : Db). d.bindings) p) h
Step-AllHeld {env} {db} {db'} (assessed d e may about p) h =
    AllHeld-same env db db' (Step-Grows {env = env} (assessed d e may about p))
      (ap (λ (d : Db). d.bindings) p) h
Step-AllHeld {env} {db} {db'} (quoted q e may about p) h =
    AllHeld-same env db db' (Step-Grows {env = env} (quoted q e may about p))
      (ap (λ (d : Db). d.bindings) p) h
Step-AllHeld {env} {db} {db'} (bound b e may about p) h =
    AllHeld-snoc env db db' b may.quote (Step-Grows {env = env} (bound b e may about p))
      (ap (λ (d : Db). d.bindings) p) may.unbound
      (latest-IsBacked db b.submission_id may.decision may.quote may.decided may.is_accepted
        may.quoted)
      may.of_quote may.number h

-- ===== src/System/Overlap/Orderly.antt =====
-- Binds that overlap: each event, what holds of bindings, and the binds that have begun.
use ktayl_underwriting.Prelude.{
  ℕ, zero, suc, String, ◌≡◌, refl, sym, ap, ◌∙◌, subst, Option, none, some, List, [], ◌∷◌, All,
  All-map, All-append, Extends-refl, Extends-append, ◌⊎◌, inl, inr, Option-cases,
}
use ktayl_underwriting.Store.Rows.{
  Submission, Binding, AuditEntry, Db, Env, Fault, Result, ok, raised, or_raise, no_quote,
}
use ktayl_underwriting.Store.Queries.{
  get_submission, latest_decision, latest_quote, by_submission, add_binding,
}
use ktayl_underwriting.Store.Results.{or_raise-eq-ok, ok-injective, get_submission-eq-ok}
use ktayl_underwriting.Bind.Interfaces.{PolicyClient, Publisher, continue-eq-ok, lift}
use ktayl_underwriting.Bind.Service.{
  policy_number_for, counterparty_name, create_request, event_for, accepted, publish_best_effort,
  record_binding,
}
use ktayl_underwriting.Bind.Overlap.{
  Pending, Begun, existing, pending, prepare, begin_bind, finish_bind,
}
use ktayl_underwriting.System.Run.{committed}
use ktayl_underwriting.System.Steps.{with_binding}
use ktayl_underwriting.System.Runs.{handle-Step}
use ktayl_underwriting.System.Growth.{Grows, Step-Grows}
use ktayl_underwriting.System.RefinesBind.{accepted-eq-ok, record_binding-eq-ok}
use ktayl_underwriting.System.Overlap.{
  Event, at_once, begins, ends, Overlapped, take_out, begun, ended, advance, overlap,
}
use ktayl_underwriting.System.Overlap.Held.{
  IsBacked, IsHeld, AllHeld, IsReady, latest-IsBacked, Grows-IsReady, AllHeld-snoc, Step-AllHeld,
}

Grows-with_binding : (db : Db) (b : Binding) (e : AuditEntry) → Grows db (with_binding b e db)
Grows-with_binding db b e = record {
  counterparties = Extends-refl db.counterparties;
  submissions = Extends-refl db.submissions;
  rulesets = Extends-refl db.rulesets;
  rate_tables = Extends-refl db.rate_tables;
  decisions = Extends-refl db.decisions;
  quotes = Extends-refl db.quotes;
  bindings = Extends-append db.bindings (b ∷ []);
  audit = Extends-append db.audit (e ∷ []);
}

Grows-refl : (db : Db) → Grows db db
Grows-refl db = record {
  counterparties = Extends-refl db.counterparties;
  submissions = Extends-refl db.submissions;
  rulesets = Extends-refl db.rulesets;
  rate_tables = Extends-refl db.rate_tables;
  decisions = Extends-refl db.decisions;
  quotes = Extends-refl db.quotes;
  bindings = Extends-refl db.bindings;
  audit = Extends-refl db.audit;
}

-- A binding is recorded of a submission that has none by then.
record_binding-unbound :
    (env : Env) (p : Pending) (db db' : Db) (b : Binding)
    → record_binding env p.submission p.quote p.request p.ref p.published p.actor db ≡ ok (b, db')
    → by_submission db p.submission.id ≡ none
unfolding record_binding add_binding
record_binding-unbound env p db db' b e = elim (Option-cases (by_submission db p.submission.id)) [
  | inl free ↦ free
  | inr (old, known) ↦ cc (rw (known, record_binding, add_binding) at e)
]

result_cases : {A : Type 0} (r : Result A) → ((e : Fault) × (r ≡ raised e)) ⊎ ((a : A) × (r ≡ ok a))
result_cases (raised e) = inl (e, refl)
result_cases (ok a) = inr (a, refl)

finish_bind-AllHeld :
    (env : Env) (b : Begun) (db : Db)
    → IsReady env db b
    → AllHeld env db
    → AllHeld env (committed db (finish_bind env b db))
      × Grows db (committed db (finish_bind env b db))
unfolding finish_bind
finish_bind-AllHeld env (existing found) db ready h = (h, Grows-refl db)
finish_bind-AllHeld env (pending p) db (backed, named) h =
    elim (result_cases
      (record_binding env p.submission p.quote p.request p.ref p.published p.actor db)) [
        | inl (e, refused) ↦ rw refused (h, Grows-refl db)
        | inr ((b, db'), e) ↦
            let (owner, of_quote, number, grown) =
              record_binding-eq-ok env p.submission p.quote p.request p.ref p.published p.actor db
                db' b e in
            let free : by_submission db b.submission_id ≡ none =
              ap (by_submission db) owner ∙ record_binding-unbound env p db db' b e in
            let g : Grows db db' = subst (Grows db) (sym grown) (Grows-with_binding db b _) in
            rw e (
              AllHeld-snoc env db db' b p.quote g (ap (λ (d : Db). d.bindings) grown) free
                  (subst (λ id. IsBacked db id p.quote) (sym owner) backed) of_quote
                  (number ∙ named) h,
              g,
            )
      ]

take_out-All :
    {A : Type 0} (P : A → Type 0) (n : ℕ) (xs : List A)
    → All P xs
    → ((x : A) → (take_out n xs).0 ≡ some x → P x) × All P (take_out n xs).1
take_out-All P n [] h = ((λ x e. absurd (cc)), tt)
take_out-All P zero (x ∷ xs) h = ((λ y e. subst P (cc) h.0), h.1)
take_out-All P (suc n) (x ∷ xs) h = let (one, rest) = take_out-All P n xs h.1 in (one, (h.0, rest))

module _ {W : Type 0} (env : Env) (client : PolicyClient W) (publisher : Publisher W) where
  prepare-IsReady :
      (id : ℕ) (s : Submission) (actor : String) (db : Db) (w : W) (b : Begun)
      → s.id ≡ id
      → (prepare env client publisher id s actor db w).0 ≡ ok b
      → IsReady env db b
  unfolding prepare create_request
  prepare-IsReady id s actor db w b same_id e =
      let (_, h1, e1) = continue-eq-ok _ (lift (accepted (latest_decision db id)) w) e in
      let (q, h2, e2) = continue-eq-ok _ (lift (or_raise (latest_quote db id) no_quote) w) e1 in
      let request =
        create_request env db s (counterparty_name env db s) (policy_number_for env q.id) in
      let (ref, h3, e3) = continue-eq-ok _ (client.create_policy request w) e2 in
      let w1 = (client.create_policy request w).1 in
      let (_, h4, e4) = continue-eq-ok _ (client.submit ref.id w1) e3 in
      let w2 = (client.submit ref.id w1).1 in
      let (_, h5, e5) = continue-eq-ok _ (client.activate ref.id w2) e4 in
      let w3 = (client.activate ref.id w2).1 in
      let (published, h6, e6) =
        continue-eq-ok _ (publish_best_effort env client publisher (event_for request s q) w3) e5 in
      let (d, decided, is_accept) = accepted-eq-ok (latest_decision db id) h1 in
      let backed =
        latest-IsBacked db id d q decided is_accept
          (or_raise-eq-ok (latest_quote db id) no_quote h2) in
      subst (IsReady env db) (ok-injective e6)
        (subst (λ i. IsBacked db i q) (sym same_id) backed, refl)

  begin_bind-IsReady :
      (id : ℕ) (actor : String) (db : Db) (w : W) (b : Begun)
      → (begin_bind env client publisher id actor db w).0 ≡ ok b
      → IsReady env db b
  unfolding begin_bind
  begin_bind-IsReady id actor db w b e =
      let (s, p, e1) = continue-eq-ok _ (lift (get_submission db id) w) e in
      elim (Option-cases (by_submission db id)) [
        | inl free ↦
            prepare-IsReady id s actor db w b (get_submission-eq-ok db id p).1 (rw free at e1)
        | inr (old, known) ↦ subst (IsReady env db) (ok-injective (rw known at e1)) tt
      ]

  abbrev IsOrderly : Overlapped W → Type 0
  IsOrderly o = AllHeld env o.0.0 × All (IsReady env o.0.0) o.1

  begun-AllReady :
      (db : Db) (r : Result Begun) (bs : List Begun)
      → ((b : Begun) → r ≡ ok b → IsReady env db b)
      → All (IsReady env db) bs
      → All (IsReady env db) (begun r bs)
  begun-AllReady db (raised e) bs h hs = hs
  begun-AllReady db (ok b) bs h hs = All-append (IsReady env db) bs (b ∷ []) hs (h b refl, tt)

  ended-IsOrderly :
      (o : Option Begun) (db : Db)
      → ((b : Begun) → o ≡ some b → IsReady env db b)
      → AllHeld env db
      → AllHeld env (ended env o db) × Grows db (ended env o db)
  ended-IsOrderly none db ready h = (h, Grows-refl db)
  ended-IsOrderly (some b) db ready h = finish_bind-AllHeld env b db (ready b refl) h

  advance-IsOrderly :
      (e : Event) (o : Overlapped W) → IsOrderly o → IsOrderly (advance env client publisher e o)
  unfolding advance
  advance-IsOrderly (at_once r) (s, bs) (held, ready) =
      let st = handle-Step env client publisher r s in
      (Step-AllHeld st held, All-map (λ b. Grows-IsReady env b (Step-Grows st)) bs ready)
  advance-IsOrderly (begins id actor) ((db, w), bs) (held, ready) = (
    held,
    begun-AllReady db (begin_bind env client publisher id actor db w).0 bs
        (begin_bind-IsReady id actor db w) ready,
  )
  advance-IsOrderly (ends n) ((db, w), bs) (held, ready) =
      let (one, rest) = take_out-All (IsReady env db) n bs ready in
      let (held', g) = ended-IsOrderly (take_out n bs).0 db one held in
      (held', All-map (λ b. Grows-IsReady env b g) (take_out n bs).1 rest)

  overlap-IsOrderly :
      (es : List Event) (o : Overlapped W)
      → IsOrderly o
      → IsOrderly (overlap env client publisher es o)
  unfolding overlap
  overlap-IsOrderly [] o h = h
  overlap-IsOrderly (e ∷ es) o h =
      overlap-IsOrderly es (advance env client publisher e o) (advance-IsOrderly e o h)

-- However binds overlap, with one another and with other requests, each bind in two halves of which the second comes at
-- any time after the first or never, and starting from tables without bindings: each binding is the only one of its
-- submission, and is of a stored quote of that submission, under that quote's policy number, and some stored decision
-- accepts the submission.
pub overlap-AllHeld :
    {W : Type 0} (env : Env) (client : PolicyClient W) (publisher : Publisher W) (es : List Event)
    (db : Db) (w : W)
    → db.bindings ≡ []
    → AllHeld env (overlap env client publisher es ((db, w), [])).0.0
overlap-AllHeld env client publisher es db w none_bound =
    (overlap-IsOrderly env client publisher es ((db, w), [])
      (subst (All (IsHeld env db)) (sym none_bound) tt, tt)).0

-- ===== src/System/References.antt =====
-- The foreign keys of the tables, and that every row can be shown.
pub mod Refers
use ktayl_underwriting.Prelude.{
  ℕ, ◌≡◌, refl, sym, ◌∙◌, subst, some, List, [], ◌∷◌, ◌++◌, All, All-map, All-append, find, ◌==◌,
  ==_iff, inl, inr, Option-cases, find-append_some, find-append_none,
}
use ktayl_underwriting.Enums.Parse.{lob_of-lob_value, occupancy_of-occupancy_value}
use ktayl_underwriting.Store.Rows.{
  Counterparty, Submission, Decision, Quote, Binding, AuditEntry, Db, Env, empty, ok,
}
use ktayl_underwriting.Store.Queries.{find_submission}
use ktayl_underwriting.Workbench.Schemas.{SubmissionRead, model_validate}
use ktayl_underwriting.Bind.Interfaces.{PolicyClient, Publisher}
use ktayl_underwriting.System.Run.{Request, run}
use ktayl_underwriting.System.Steps.{
  Step, same, seeded, created, assessed, quoted, bound, MayCreate,
}
use ktayl_underwriting.System.References.Refers.{
  AllRefer, AllRefer-append, AllRefer-snoc, Refers-append, Refers-snoc, Refers-found, Refers-latest,
  counterparty_key, submission_key, quote_key, owner_ref, decision_ref, quote_ref, binding_ref,
  bound_quote, entry_ref,
}
use ktayl_underwriting.System.Runs.{Reach, here, next, run-Reach}

abbrev pub Shows : Submission → Type 0
Shows s = (r : SubmissionRead) × (model_validate s ≡ ok r)

-- Each submission has its counterparty and can be shown; each decision, quote, binding and audit entry has its submission,
-- and each binding also its quote.
pub record IsReferenced (db : Db) : Type 0 where
  pub owners : AllRefer counterparty_key owner_ref db.counterparties db.submissions
  pub shown : All Shows db.submissions
  pub decisions : AllRefer submission_key decision_ref db.submissions db.decisions
  pub quotes : AllRefer submission_key quote_ref db.submissions db.quotes
  pub bindings : AllRefer submission_key binding_ref db.submissions db.bindings
  pub bound_quotes : AllRefer quote_key bound_quote db.quotes db.bindings
  pub audit : AllRefer submission_key entry_ref db.submissions db.audit

MayCreate-Shows :
    (env : Env) (db : Db) (c : Counterparty) (s : Submission) → MayCreate env db c s → Shows s
unfolding model_validate
MayCreate-Shows env db c s may =
    let shown : SubmissionRead = record {
      id = s.id;
      counterparty_id = s.counterparty_id;
      line_of_business = may.lob;
      tiv_eur = s.tiv_eur;
      occupancy = may.occupancy;
      country = s.country;
      postcode = s.postcode;
      requested_cover = s.requested_cover;
      broker_ref = s.broker_ref;
      created_at = s.created_at;
    } in
    (
      shown,
      rw
          (
            may.lob_text,
            may.occupancy_text,
            lob_of-lob_value may.lob,
            occupancy_of-occupancy_value may.occupancy,
          )
          refl,
    )

module _ {env : Env} where
  Step-IsReferenced : {db db' : Db} → Step env db db' → IsReferenced db → IsReferenced db'
  Step-IsReferenced (same p) h = subst IsReferenced (sym p) h
  Step-IsReferenced (seeded rs ts n le p) h = subst IsReferenced (sym p) (record {
    owners = h.owners;
    shown = h.shown;
    decisions = h.decisions;
    quotes = h.quotes;
    bindings = h.bindings;
    bound_quotes = h.bound_quotes;
    audit = h.audit;
  })
  Step-IsReferenced {db} (created c s e may about p) h =
      let ss = db.submissions in
      let cs = db.counterparties in
      subst IsReferenced (sym p) (record {
        owners =
            AllRefer-snoc counterparty_key owner_ref (cs ++ c ∷ []) ss s
              (AllRefer-append counterparty_key owner_ref cs (c ∷ []) ss h.owners)
              (Refers-snoc counterparty_key s.counterparty_id cs c may.owner);
        shown = All-append Shows ss (s ∷ []) h.shown (MayCreate-Shows env db c s may, tt);
        decisions =
            AllRefer-append submission_key decision_ref ss (s ∷ []) db.decisions h.decisions;
        quotes = AllRefer-append submission_key quote_ref ss (s ∷ []) db.quotes h.quotes;
        bindings = AllRefer-append submission_key binding_ref ss (s ∷ []) db.bindings h.bindings;
        bound_quotes = h.bound_quotes;
        audit =
            AllRefer-snoc submission_key entry_ref (ss ++ s ∷ []) db.audit e
              (AllRefer-append submission_key entry_ref ss (s ∷ []) db.audit h.audit)
              (Refers-snoc submission_key e.submission_id ss s about);
      })
  Step-IsReferenced {db} (assessed d e may about p) h =
      let ss = db.submissions in
      subst IsReferenced (sym p) (record {
        owners = h.owners;
        shown = h.shown;
        decisions =
            AllRefer-snoc submission_key decision_ref ss db.decisions d h.decisions
              (Refers-found db d.submission_id d.submission_id may.found refl);
        quotes = h.quotes;
        bindings = h.bindings;
        bound_quotes = h.bound_quotes;
        audit =
            AllRefer-snoc submission_key entry_ref ss db.audit e h.audit
              (Refers-found db d.submission_id e.submission_id may.found about);
      })
  Step-IsReferenced {db} (quoted q e may about p) h =
      let ss = db.submissions in
      subst IsReferenced (sym p) (record {
        owners = h.owners;
        shown = h.shown;
        decisions = h.decisions;
        quotes =
            AllRefer-snoc submission_key quote_ref ss db.quotes q h.quotes
              (Refers-found db q.submission_id q.submission_id may.found refl);
        bindings = h.bindings;
        bound_quotes =
            AllRefer-append quote_key bound_quote db.quotes (q ∷ []) db.bindings h.bound_quotes;
        audit =
            AllRefer-snoc submission_key entry_ref ss db.audit e h.audit
              (Refers-found db q.submission_id e.submission_id may.found about);
      })
  Step-IsReferenced {db} (bound b e may about p) h =
      let ss = db.submissions in
      subst IsReferenced (sym p) (record {
        owners = h.owners;
        shown = h.shown;
        decisions = h.decisions;
        quotes = h.quotes;
        bindings =
            AllRefer-snoc submission_key binding_ref ss db.bindings b h.bindings
              (Refers-found db b.submission_id b.submission_id may.found refl);
        bound_quotes =
            AllRefer-snoc quote_key bound_quote db.quotes db.bindings b h.bound_quotes
              (Refers-latest db b.submission_id b.quote_id may.quoted may.of_quote);
        audit =
            AllRefer-snoc submission_key entry_ref ss db.audit e h.audit
              (Refers-found db b.submission_id e.submission_id may.found about);
      })

  pub Reach-IsReferenced : {db db' : Db} → Reach env db db' → IsReferenced db → IsReferenced db'
  Reach-IsReferenced here h = h
  Reach-IsReferenced (next r st) h = Step-IsReferenced st (Reach-IsReferenced r h)

pub empty-IsReferenced : IsReferenced empty
empty-IsReferenced = record {
  owners = tt;
  shown = tt;
  decisions = tt;
  quotes = tt;
  bindings = tt;
  bound_quotes = tt;
  audit = tt;
}

-- Whatever requests are served, starting from empty tables: each submission refers to a stored counterparty and can be
-- shown, its line of business and its occupancy being texts of members, each decision, quote, binding and audit entry
-- refers to a stored submission, and each binding to a stored quote.
pub run-IsReferenced :
    {W : Type 0} (env : Env) (client : PolicyClient W) (publisher : Publisher W) (rs : List Request)
    (w : W)
    → IsReferenced (run env client publisher rs (empty, w)).0
run-IsReferenced env client publisher rs w =
    Reach-IsReferenced (run-Reach env client publisher rs (empty, w)) empty-IsReferenced

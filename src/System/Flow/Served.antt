-- ===== src/System/Flow/Served.antt =====
-- A risk that is within appetite, from intake to its binding.
use ktayl_underwriting.Prelude.{◌^◌, ◌≡◌, refl, ap, ◌∙◌, String, some, none, List, lt→ltb, arith}
use ktayl_underwriting.Enums
use ktayl_underwriting.Enums.{occupancy_value, accept, decline}
use ktayl_underwriting.Appetite
use ktayl_underwriting.Appetite.{assess}
use ktayl_underwriting.Rating.Engine.{Rated, QuoteBreakdown, rate}
use ktayl_underwriting.Rating.Engine.Room.{v2_spec, v2_read}
use ktayl_underwriting.Rating.Engine.Version2.{v2-Succeeds}
use ktayl_underwriting.Rating.Tables.{from_rules}
use ktayl_underwriting.Store.Rows.{Submission, Decision, Quote, Binding, Db, Env, ok}
use ktayl_underwriting.Store.Queries.{
  find_submission, by_policy_number, latest_decision, current_ruleset, current_rate_table,
}
use ktayl_underwriting.Workbench.Submissions.{SubmissionCreate, facts_of}
use ktayl_underwriting.Workbench.Quotes.{rating_facts_of, quotable, manifest}
use ktayl_underwriting.Bind.Interfaces.{PolicyClient, Publisher}
use ktayl_underwriting.Bind.Service.{policy_number_for, event_for}
use ktayl_underwriting.Bind.Outcomes.{
  IsBindable, bind_stores, binding_of, after_bind, succeeded, request_of,
}
use ktayl_underwriting.Api.Routes
use ktayl_underwriting.Api.Routes.{reply, answer}
use ktayl_underwriting.System.Answers.{Fits, v2-Fits, quotable_undeclined}
use ktayl_underwriting.System.Keys.{IsFair}
use ktayl_underwriting.System.RoundTrip.{found_new}
use ktayl_underwriting.System.Flow.{
  submission_row, after_create, create_route, decision_row, after_assess, assess_route, quote_row,
  after_quote, quote_route,
}
use ktayl_underwriting.System.Flow.Unmentioned.{unbound_new, first_decision, first_quote}
use ktayl_underwriting.System.Flow.Terms.{
  IsWithinAppetite, IsWilling, IsOpen, v1_spec, v1_read, within-accept,
}

-- What the four endpoints answer, one after another, and what they leave.
pub record IsServed {W : Type 0} (env : Env) (client : PolicyClient W) (publisher : Publisher W)
    (payload : SubmissionCreate) (actor : String) (db : Db) (w : W) : Type 0 where
  pub submission : Submission
  pub decision : Decision
  pub quote : Quote
  pub binding : Binding
  pub db1 : Db
  pub db2 : Db
  pub db3 : Db
  pub db4 : Db
  pub world : W
  pub created : Routes.create_submission env payload actor db ≡ (reply 201 submission, db1)
  pub assessed : Routes.assess_submission env submission.id actor db1 ≡ (reply 200 decision, db2)
  pub quoted : Routes.quote_submission env submission.id actor db2 ≡ (reply 200 quote, db3)
  pub bound :
      Routes.bind_submission env client publisher submission.id actor db3 w
      ≡ ((reply 200 binding, db4), world)
  pub is_accepted : decision.outcome ≡ accept
  pub of_submission : binding.submission_id ≡ submission.id
  pub of_quote : binding.quote_id ≡ quote.id

quotable_accepted : (d : Decision) → d.outcome ≡ accept → quotable (some d) ≡ ok d.outcome
quotable_accepted d e = quotable_undeclined d λ h. cc

bind_route :
    {W : Type 0} (env : Env) (client : PolicyClient W) (publisher : Publisher W) (actor : String)
    (db : Db) (s : Submission) (q : Quote) (w : W)
    → IsWilling client
    → IsBindable db s.id s q
    → by_policy_number db (policy_number_for env q.id) ≡ none
    → (b : Binding) × (db' : Db) × (w' : W) × (Routes.bind_submission env client publisher s.id
          actor db w
        ≡ ((reply 200 b, db'), w'))
      × (b.submission_id ≡ s.id)
      × (b.quote_id ≡ q.id)
unfolding Routes.bind_submission
bind_route env client publisher actor db s q w willing ready fresh =
    let (ref, w1, creates) = willing.creates (request_of env db s q) w in
    let (w2, submits) = willing.submits ref.id w1 in
    let (w3, activates) = willing.activates ref.id w2 in
    let (r, w4) = publisher.publish (event_for (request_of env db s q) s q) w3 in
    let stored =
      bind_stores env client publisher s.id actor db w w1 w2 w3 s q ref ready fresh creates submits
        activates in
    (
      binding_of env db s q ref actor (succeeded r),
      after_bind env db s q ref actor (succeeded r),
      w4,
      ap (λ x. (answer 200 Routes.bind_status db x.0, x.1)) stored,
      refl,
      refl,
    )

module _ {W : Type 0} (env : Env) (client : PolicyClient W) (publisher : Publisher W)
    (payload : SubmissionCreate) (actor : String) (db : Db) (w : W) (fair : IsFair env)
    (within : IsWithinAppetite payload) (opened : IsOpen env db) where
  abbrev s : Submission
  s = submission_row env actor payload db

  abbrev db1 : Db
  db1 = after_create env actor payload db

  abbrev verdict : Enums.Outcome × List Enums.ReasonCode
  verdict = assess (facts_of s) (v1_spec opened.appetite_row.version)

  abbrev d : Decision
  d = decision_row env actor s.id verdict.0 verdict.1 opened.appetite_row.version db1

  abbrev db2 : Db
  db2 = after_assess env actor s.id verdict.0 verdict.1 opened.appetite_row.version db1

  verdict_accepts : d.outcome ≡ accept
  verdict_accepts = within-accept env actor payload db opened.appetite_row.version within

  found : find_submission db1 s.id ≡ some s
  found = found_new env fair db db1 opened.keyed opened.referenced s refl refl

  created_first : Routes.create_submission env payload actor db ≡ (reply 201 s, db1)
  created_first =
      create_route env actor payload db
        (lt→ltb payload.tiv_eur (2 ^ 63) (omega (arith, within.within_limit)))

  assessed_next : Routes.assess_submission env s.id actor db1 ≡ (reply 200 d, db2)
  unfolding current_ruleset
  assessed_next =
      assess_route env actor s.id db1 s opened.appetite_row (v1_spec opened.appetite_row.version)
        found (unbound_new env fair db opened.keyed opened.referenced s refl db1 refl)
        opened.appetite
        (ap (Appetite.from_rules opened.appetite_row.version) opened.appetite_rules
          ∙ v1_read opened.appetite_row.version)

  -- The price of the risk, and the quote that has it.
  priced : (b : QuoteBreakdown) × (rate (rating_facts_of s) v2_spec ≡ Rated.ok b)
  unfolding rating_facts_of
  priced =
      v2-Succeeds (rating_facts_of s) v2_spec payload.occupancy v2_read refl refl within.some_value
        (omega (arith, within.within_limit))

  fits : Fits priced.0
  unfolding rating_facts_of
  fits =
      v2-Fits (rating_facts_of s) payload.occupancy {b = priced.0} refl refl within.some_value
        (omega (arith, within.within_limit)) priced.1

  abbrev q : Quote
  q = quote_row env actor s.id priced.0 (manifest (rating_facts_of s)) db2

  abbrev db3 : Db
  db3 =
      after_quote env actor s.id priced.0 (manifest (rating_facts_of s)) opened.rate_row.version db2

  decided : (later : Db) → later.decisions ≡ db2.decisions → latest_decision later s.id ≡ some d
  decided later kept =
      first_decision env fair db opened.keyed opened.referenced s refl later d refl kept

  quoted_next : Routes.quote_submission env s.id actor db2 ≡ (reply 200 q, db3)
  unfolding current_rate_table find_submission
  quoted_next =
      quote_route env actor s.id db2 s d.outcome opened.rate_row v2_spec priced.0 found
        (unbound_new env fair db opened.keyed opened.referenced s refl db2 refl)
        (ap quotable (decided db2 refl) ∙ quotable_accepted d verdict_accepts) opened.rates
        (ap (λ v. from_rules v opened.rate_row.rules) opened.rates_version
          ∙ ap (from_rules 2) opened.rates_rules
          ∙ v2_read)
        priced.1 fits

  bindable : IsBindable db3 s.id s q
  unfolding find_submission
  bindable = record {
    found = found;
    unbound = unbound_new env fair db opened.keyed opened.referenced s refl db3 refl;
    decision = d;
    decided = decided db3 refl;
    is_accepted = verdict_accepts;
    quoted = first_quote env fair db opened.keyed opened.referenced s refl db3 q refl refl;
  }

  new_number : by_policy_number db3 (policy_number_for env q.id) ≡ none
  unfolding by_policy_number
  new_number = opened.new_number db2.drawn (omega arith)

  -- A risk within the appetite of ruleset version 1 is taken through all four endpoints. Where no id and no time is given
  -- twice, ruleset version 1 and rate table version 2 are current, keys are distinct and met, and no binding has the
  -- policy number of an id yet to be drawn: the risk is created with 201, then accepted, then quoted, and then bound with
  -- that quote, each with 200, if the policy service creates, submits and activates what it is asked to, whatever
  -- the publisher does.
  pub flow-IsServed : IsWilling client → IsServed env client publisher payload actor db w
  flow-IsServed willing =
      let (b, db4, world, bound, of_submission, of_quote) =
        bind_route env client publisher actor db3 s q w willing bindable new_number in
      record {
        submission = s;
        decision = d;
        quote = q;
        binding = b;
        db1 = db1;
        db2 = db2;
        db3 = db3;
        db4 = db4;
        world = world;
        created = created_first;
        assessed = assessed_next;
        quoted = quoted_next;
        bound = bound;
        is_accepted = verdict_accepts;
        of_submission = of_submission;
        of_quote = of_quote;
      }

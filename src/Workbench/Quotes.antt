-- ===== src/Workbench/Quotes.antt =====
-- app/rating/service.py: pricing a submission.
use ktayl_underwriting.Prelude.{ℕ, String, Option, none, some, [], ◌∷◌, ◌++◌, ltb, if◌then◌else◌}
use ktayl_underwriting.Prelude.Text.{lower, mentions}
use ktayl_underwriting.Decimal.{whole}
use ktayl_underwriting.Enums.{Outcome, decline}
use ktayl_underwriting.Rating.Engine
use ktayl_underwriting.Rating.Engine.{RatingFacts, Rated, QuoteBreakdown, rate}
use ktayl_underwriting.Rating.Tables.{from_rules, high_tiv_threshold_eur}
use ktayl_underwriting.Store.Rows.{
  Submission, Decision, PricedFacts, Quote, quoted, Db, Env, Result, ok, raised, ◌>>=◌, or_raise,
  no_decision, declined_risk, no_rate_table, key_error, rating_error, invalid_operation,
}
use ktayl_underwriting.Store.Queries.{
  append_audit, add_quote, get_submission, latest_decision, current_rate_table,
}

-- `_facts_of`. The flags stand in their sorted order.
unfoldable pub rating_facts_of : Submission → RatingFacts
rating_facts_of s = record {
  tiv_eur = s.tiv_eur;
  occupancy = s.occupancy;
  flags =
      (if ltb high_tiv_threshold_eur s.tiv_eur then "high_tiv" ∷ [] else [])
      ++ (if mentions "sprinkler" (lower s.requested_cover) then "sprinklered" ∷ [] else []);
  commercial_adjustment = whole 1;
}

-- What `rate` raises goes through.
abbrev pub reraise : {A : Type 0} → Engine.RatingFault → Result A
reraise Engine.RatingFault.no_occupancy_factor = raised rating_error
reraise Engine.RatingFault.outside_band = raised rating_error
reraise Engine.RatingFault.invalid_operation = raised invalid_operation

abbrev pub rated : {A : Type 0} → Rated A → Result A
rated (Rated.ok a) = ok a
rated (Rated.raised e) = reraise e

-- The guard on the latest decision.
abbrev pub quotable : Option Decision → Result Outcome
quotable none = raised no_decision
quotable (some d) = elim d.outcome [ decline ↦ raised declined_risk | o ↦ ok o ]

abbrev pub manifest : RatingFacts → PricedFacts
manifest f = record {
  tiv_eur = f.tiv_eur;
  occupancy = f.occupancy;
  flags = f.flags;
  commercial_adjustment = f.commercial_adjustment;
}

unfoldable pub quote_submission : Env → ℕ → String → Db → Result (Quote × Db)
quote_submission env submission_id actor db = do
  submission ← get_submission db submission_id
  outcome ← quotable (latest_decision db submission_id)
  rate_table ← or_raise (current_rate_table db) no_rate_table
  let facts = rating_facts_of submission
  spec ← or_raise (from_rules rate_table.version rate_table.rules) key_error
  breakdown ← rated (rate facts spec)
  (quote, db1) ← add_quote env submission.id breakdown (manifest facts) actor db
  ok (
    quote,
    append_audit env submission.id "quote" actor (some rate_table.version) none
        (quoted breakdown.premium_minor breakdown.currency) db1,
  )

-- ===== src/Tests/AnswerTests.antt =====
-- An accepted submission, and the rate table version 2.
use ktayl_underwriting.Prelude.{◌≡◌, ◌≢◌, refl, some, none, [], ◌∷◌, arith}
use ktayl_underwriting.Enums.{Occupancy, accept, decline}
use ktayl_underwriting.Rating.Tables.{v2_rules}
use ktayl_underwriting.Store.Rows.{RateTable, Quote, Db}
use ktayl_underwriting.Store.Queries.{
  find_submission, by_submission, latest_decision, current_rate_table,
}
use ktayl_underwriting.Api.Routes
use ktayl_underwriting.Api.Routes.{reply}
use ktayl_underwriting.System.Answers.{quote_answers}
use ktayl_underwriting.Tests.Fixtures.{env}
use ktayl_underwriting.Tests.SystemTests.{assessed_db, submission_row, decision_row}

abbrev table_row : RateTable
table_row = record { id = 7; version = 2; effective_at = 5; rules = v2_rules }

abbrev rated_db : Db
rated_db = record assessed_db { rate_tables = table_row ∷ [] }

is_found : find_submission rated_db 1 ≡ some submission_row
unfolding find_submission
is_found = refl

is_free : by_submission rated_db 1 ≡ none
unfolding by_submission
is_free = refl

is_decided : latest_decision rated_db 1 ≡ some decision_row
unfolding latest_decision
is_decided = refl

is_current : current_rate_table rated_db ≡ some table_row
unfolding current_rate_table
is_current = refl

accept≢decline : accept ≢ decline
accept≢decline h = cc

quote_answers_example :
    (q : Quote) × (db' : Db) × (Routes.quote_submission env 1 "u" rated_db ≡ (reply 200 q, db'))
quote_answers_example =
    quote_answers env 1 "u" rated_db submission_row decision_row table_row Occupancy.office is_found
      is_free is_decided accept≢decline is_current refl refl refl (omega arith) (omega arith)

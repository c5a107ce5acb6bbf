-- ===== src/Workbench/Schemas.antt =====
-- app/submission/schemas.py: what a reply shows of a submission. `model_validate` reads the two enums from the
-- row's texts, and raises ValidationError on a text that is no member.
use ktayl_underwriting.Prelude.{ℕ, String, Bool, Option}
use ktayl_underwriting.Enums.{LineOfBusiness, Occupancy, Outcome}
use ktayl_underwriting.Enums.Parse.{lob_of, occupancy_of}
use ktayl_underwriting.Store.Rows.{
  Submission, Decision, Result, ok, ◌>>=◌, or_raise, validation_error,
}

pub record SubmissionRead : Type 0 where
  pub id : ℕ
  pub counterparty_id : ℕ
  pub line_of_business : LineOfBusiness
  pub tiv_eur : ℕ
  pub occupancy : Occupancy
  pub country : String
  pub postcode : String
  pub requested_cover : String
  pub broker_ref : Option String
  pub created_at : ℕ

pub record SubmissionDetail : Type 0 where
  pub submission : SubmissionRead
  pub latest_decision : Option Decision

pub record SubmissionListItem : Type 0 where
  pub submission : SubmissionRead
  pub latest_outcome : Option Outcome
  pub bound : Bool

-- `SubmissionRead.model_validate`
unfoldable pub model_validate : Submission → Result SubmissionRead
model_validate s = do
  line_of_business ← or_raise (lob_of s.line_of_business) validation_error
  occupancy ← or_raise (occupancy_of s.occupancy) validation_error
  ok (record {
    id = s.id;
    counterparty_id = s.counterparty_id;
    line_of_business = line_of_business;
    tiv_eur = s.tiv_eur;
    occupancy = occupancy;
    country = s.country;
    postcode = s.postcode;
    requested_cover = s.requested_cover;
    broker_ref = s.broker_ref;
    created_at = s.created_at;
  })

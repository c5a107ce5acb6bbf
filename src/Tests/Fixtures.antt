-- ===== src/Tests/Fixtures.antt =====
-- The fixtures: a clock and ids that count, a policy service and a publisher that record their calls.
use Prim.Native.String.{◌++◌ as str_append}
use ktayl_underwriting.Prelude.{
  ◌+◌, ◌*◌, String, Bool, true, some, List, [], ◌∷◌, ◌++◌, if◌then◌else◌,
}
use ktayl_underwriting.Enums.{LineOfBusiness, Occupancy}
use ktayl_underwriting.Store.Rows.{Db, Env, empty, ok, raised, policy_service_error}
use ktayl_underwriting.Workbench.Submissions.{SubmissionCreate}
use ktayl_underwriting.Bind.Interfaces.{PolicyClient, Publisher}
use ktayl_underwriting.System.Run.{Request, start, create, assess, quote, bind, run}

-- Ids 100, 101, …, a tick of a millisecond, and texts that need no hash.
abbrev pub env : Env
env = record {
  uuid = λ n. 100 + n;
  now = λ n. 1_000_000_000_000 + 1000 * n;
  id_text = λ n. "id";
  sha1_hexdigest = λ s. "0123456789abcdef";
  midnight_text = λ d. "2026-01-01T00:00:00Z";
}

pub data PasCall : Type 0 where
  created submitted activated published : String → PasCall

abbrev pub client : PolicyClient (List PasCall)
client = record {
  create_policy = λ r w. (
    ok (record { id = str_append "pas-" r.policy_number; status = "draft" }),
    w ++ created r.policy_number ∷ [],
  );
  submit = λ id w. (ok tt, w ++ submitted id ∷ []);
  activate = λ id w. (ok tt, w ++ activated id ∷ []);
}

-- A publisher that works, or always fails.
abbrev pub publisher : Bool → Publisher (List PasCall)
publisher works = record {
  publish = λ e w.
      ((if works then ok tt else raised policy_service_error), w ++ published e.policy_number ∷ []);
}

abbrev pub payload : SubmissionCreate
payload = record {
  counterparty = record { name = "Acme Logistics SAS"; country = "FR" };
  line_of_business = LineOfBusiness.commercial_property;
  tiv_eur = 50_000_000;
  occupancy = Occupancy.warehouse;
  country = "FR";
  postcode = "75001";
  requested_cover = "All-risks, Sprinklered";
  broker_ref = some "BRK-001";
}

-- The submission is the fifth row: ids 100 to 102 are the seeds', 103 the counterparty's.
abbrev pub flow : List Request
flow = start ∷ create payload "u" ∷ assess 104 "u" ∷ quote 104 "u" ∷ bind 104 "u" ∷ []

-- The tables and the calls after the flow, with a publisher that works.
abbrev pub served : Db × List PasCall
served = run env client (publisher true) flow (empty, [])

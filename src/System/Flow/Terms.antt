-- ===== src/System/Flow/Terms.antt =====
-- What a risk, a policy service and the tables need so that the risk can be bound.
use ktayl_underwriting.Prelude.{
  List, map, ap, ◌∙◌, ℕ, ◌≤◌, ◌≡◌, ◌≢◌, refl, String, false, some, none, [], ◌∷◌,
}
use ktayl_underwriting.Prelude.Text.{contains, upper, upper-upper}
use ktayl_underwriting.Enums.{LineOfBusiness, lob_value, Occupancy, occupancy_value, accept}
use ktayl_underwriting.Appetite
use ktayl_underwriting.Appetite.{RulesetSpec, SubmissionFacts, assess}
use ktayl_underwriting.Appetite.Outcomes.{accept_iff}
use ktayl_underwriting.Rating.Tables.{v2_rules}
use ktayl_underwriting.Store.Rows.{AppetiteRuleset, RateTable, Db, Env, ok}
use ktayl_underwriting.Store.Queries.{by_policy_number, current_ruleset, current_rate_table}
use ktayl_underwriting.Workbench.Submissions.{SubmissionCreate, facts_of}
use ktayl_underwriting.Bind.Interfaces.{CreatePolicyRequest, PolicyRef, PolicyClient}
use ktayl_underwriting.Bind.Service.{policy_number_for}
use ktayl_underwriting.System.Keys.{IsKeyed}
use ktayl_underwriting.System.References.{IsReferenced}
use ktayl_underwriting.System.Flow.{submission_row}

-- The countries that ruleset version 1 sanctions.
abbrev pub sanctioned : List String
sanctioned = "KP" ∷ "IR" ∷ "SY" ∷ "RU" ∷ []

-- A risk within the appetite of ruleset version 1.
pub record IsWithinAppetite (payload : SubmissionCreate) : Type 0 where
  pub lob : payload.line_of_business ≡ LineOfBusiness.commercial_property
  pub some_value : 1 ≤ payload.tiv_eur
  pub within_limit : payload.tiv_eur ≤ 1_000_000_000
  pub occupancy : payload.occupancy ≢ Occupancy.fireworks_manufacturing
  pub country : contains (upper payload.country) sanctioned ≡ false

-- A policy service that creates, submits and activates whatever it is asked to.
pub record IsWilling {W : Type 0} (client : PolicyClient W) : Type 0 where
  pub creates :
      (req : CreatePolicyRequest) (w : W)
      → (ref : PolicyRef) × (w' : W) × (client.create_policy req w ≡ (ok ref, w'))
  pub submits : (id : String) (w : W) → (w' : W) × (client.submit id w ≡ (ok tt, w'))
  pub activates : (id : String) (w : W) → (w' : W) × (client.activate id w ≡ (ok tt, w'))

-- The tables that the endpoints need: ruleset version 1 and rate table version 2 are current, keys are kept, and no
-- binding has the policy number of an id that is yet to be drawn.
pub record IsOpen (env : Env) (db : Db) : Type 0 where
  pub appetite_row : AppetiteRuleset
  pub appetite : current_ruleset db ≡ some appetite_row
  pub appetite_rules : appetite_row.rules ≡ Appetite.v1_rules
  pub rate_row : RateTable
  pub rates : current_rate_table db ≡ some rate_row
  pub rates_version : rate_row.version ≡ 2
  pub rates_rules : rate_row.rules ≡ v2_rules
  pub keyed : IsKeyed env db
  pub referenced : IsReferenced db
  pub new_number :
      (n : ℕ) → db.drawn ≤ n → by_policy_number db (policy_number_for env (env.uuid n)) ≡ none

abbrev pub v1_spec : ℕ → RulesetSpec
v1_spec version = record {
  version = version;
  allowed_lobs = lob_value LineOfBusiness.commercial_property ∷ [];
  max_tiv_eur = 1_000_000_000;
  excluded_occupancies = occupancy_value Occupancy.fireworks_manufacturing ∷ [];
  sanctioned_countries = "KP" ∷ "IR" ∷ "SY" ∷ "RU" ∷ [];
}

pub v1_read : (version : ℕ) → Appetite.from_rules version Appetite.v1_rules ≡ some (v1_spec version)
unfolding Appetite.from_rules
v1_read version = refl

not_excluded :
    (o : Occupancy)
    → o ≢ Occupancy.fireworks_manufacturing
    → contains (occupancy_value o) (occupancy_value Occupancy.fireworks_manufacturing ∷ []) ≡ false
not_excluded Occupancy.office h = refl
not_excluded Occupancy.warehouse h = refl
not_excluded Occupancy.retail h = refl
not_excluded Occupancy.light_manufacturing h = refl
not_excluded Occupancy.fireworks_manufacturing h = absurd (h refl)

pub within-accept :
    (env : Env) (actor : String) (payload : SubmissionCreate) (db : Db) (version : ℕ)
    → IsWithinAppetite payload
    → (assess (facts_of (submission_row env actor payload db)) (v1_spec version)).0 ≡ accept
unfolding upper
within-accept env actor payload db version h =
    let country : contains (upper (upper payload.country)) (map upper sanctioned) ≡ false =
      ap (λ c. contains c sanctioned) (upper-upper payload.country) ∙ h.country in
    let s = facts_of (submission_row env actor payload db) in
    (accept_iff s (v1_spec version)).1 (
      (λ e. cc (country)),
      (λ e. cc (not_excluded payload.occupancy h.occupancy)),
      rw h.lob refl,
      h.within_limit,
    )

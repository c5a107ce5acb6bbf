-- ===== src/Store/Queries.antt =====
-- The repositories: app/appetite/repository.py, app/rating/repository.py, app/entity/repository.py,
-- app/audit/repository.py, app/bind/repository.py, and the reads of app/submission/service.py.
use ktayl_underwriting.Prelude.{
  ℕ, suc, String, Bool, ◌&&◌, ◌||◌, Option, none, some, List, [], ◌∷◌, ◌++◌, ltb, ◌==◌, str_eq,
  find, select, if◌then◌else◌,
}
use ktayl_underwriting.Prelude.Text.{upper}
use ktayl_underwriting.Enums.{Outcome}
use ktayl_underwriting.Appetite.{AppetiteRules}
use ktayl_underwriting.Rating.Engine.{QuoteBreakdown}
use ktayl_underwriting.Rating.Tables.{RateRules}
use ktayl_underwriting.Store.Rows.{
  Counterparty, Submission, AppetiteRuleset, RateTable, Decision, PricedFacts, Quote, Binding,
  Detail, AuditEntry, Db, Env, Result, ok, raised, database_error, submission_not_found, is_bigint,
  or_raise,
}
use ktayl_underwriting.Store.Newest.{newest}
use ktayl_underwriting.Store.Order.{order_by}

-- `SqlAppetiteRepository.current`
unfoldable pub current_ruleset : Db → Option AppetiteRuleset
current_ruleset db = newest (λ a b. ltb b.version a.version) db.rulesets

-- `SqlRateTableRepository.current` and `get_version`
unfoldable pub current_rate_table : Db → Option RateTable
current_rate_table db = newest (λ a b. ltb b.version a.version) db.rate_tables

unfoldable pub rate_table_version : Db → ℕ → Option RateTable
rate_table_version db version = find (λ t. t.version == version) db.rate_tables

-- `session.get(Submission, submission_id)`, and `get_submission`, which raises
unfoldable pub find_submission : Db → ℕ → Option Submission
find_submission db id = find (λ s. s.id == id) db.submissions

unfoldable pub get_submission : Db → ℕ → Result Submission
unfolding find_submission
get_submission db id = or_raise (find_submission db id) submission_not_found

-- `latest_decision`
unfoldable pub latest_decision : Db → ℕ → Option Decision
latest_decision db submission_id =
    newest (λ a b. ltb b.decided_at a.decided_at)
      (select (λ d. d.submission_id == submission_id) db.decisions)

-- `SqlQuoteRepository.latest_for_submission`: by time, then by id
abbrev pub quote_after : Quote → Quote → Bool
quote_after a b = ltb b.created_at a.created_at || ((a.created_at == b.created_at) && ltb b.id a.id)

unfoldable pub latest_quote : Db → ℕ → Option Quote
latest_quote db submission_id =
    newest quote_after (select (λ q. q.submission_id == submission_id) db.quotes)

-- `SqlBindingRepository.by_submission` and `by_policy_number`
unfoldable pub by_submission : Db → ℕ → Option Binding
by_submission db submission_id = find (λ b. b.submission_id == submission_id) db.bindings

unfoldable pub by_policy_number : Db → String → Option Binding
by_policy_number db number = find (λ b. str_eq b.policy_number number) db.bindings

-- `SqlAuditRepository.list_for_submission`: `ORDER BY at`
unfoldable pub list_for_submission : Db → ℕ → List AuditEntry
list_for_submission db submission_id =
    order_by (λ x y. ltb x.at y.at) (select (λ e. e.submission_id == submission_id) db.audit)

-- `SqlRateTableRepository.list_versions`: newest version first
unfoldable pub list_versions : Db → List RateTable
list_versions db = order_by (λ x y. ltb y.version x.version) db.rate_tables

-- `SqlAppetiteRepository.get_version`
unfoldable pub ruleset_version : Db → ℕ → Option AppetiteRuleset
ruleset_version db version = find (λ r. r.version == version) db.rulesets

-- The entry that the n-th draw makes.
abbrev pub entry : Env → ℕ → ℕ → String → String → Option ℕ → Option Outcome → Detail → AuditEntry
entry env n submission_id action actor ruleset_version outcome detail = record {
  id = env.uuid n;
  submission_id = submission_id;
  action = action;
  actor = actor;
  at = env.now n;
  ruleset_version = ruleset_version;
  outcome = outcome;
  detail = detail;
}

-- `SqlAuditRepository.append`
unfoldable pub append_audit :
    Env → ℕ → String → String → Option ℕ → Option Outcome → Detail → Db → Db
append_audit env submission_id action actor ruleset_version outcome detail db = record db {
  audit =
      db.audit ++ entry env db.drawn submission_id action actor ruleset_version outcome detail ∷ [];
  drawn = suc db.drawn;
}

-- `SqlCounterpartyRepository.add`
unfoldable pub add_counterparty : Env → String → String → Db → Counterparty × Db
add_counterparty env name country db =
    let row : Counterparty = record {
      id = env.uuid db.drawn;
      name = name;
      country = upper country;
      created_at = env.now db.drawn;
    } in
    (row, record db { counterparties = db.counterparties ++ row ∷ []; drawn = suc db.drawn })

-- `SqlAppetiteRepository.create_version` and `SqlRateTableRepository.create_version`; the version is unique.
unfoldable pub create_ruleset : Env → ℕ → AppetiteRules → Db → Result (AppetiteRuleset × Db)
create_ruleset env version rules db =
    let row : AppetiteRuleset = record {
      id = env.uuid db.drawn;
      version = version;
      effective_at = env.now db.drawn;
      rules = rules;
    } in
    elim (find (λ r. r.version == version) db.rulesets) [
      | some taken ↦ raised database_error
      | none ↦ ok (row, record db { rulesets = db.rulesets ++ row ∷ []; drawn = suc db.drawn })
    ]

unfoldable pub create_rate_table : Env → ℕ → RateRules → Db → Result (RateTable × Db)
unfolding rate_table_version
create_rate_table env version rules db =
    let row : RateTable = record {
      id = env.uuid db.drawn;
      version = version;
      effective_at = env.now db.drawn;
      rules = rules;
    } in
    elim (rate_table_version db version) [
      | some taken ↦ raised database_error
      | none ↦
          ok (row, record db { rate_tables = db.rate_tables ++ row ∷ []; drawn = suc db.drawn })
    ]

-- `SqlQuoteRepository.add`: five BIGINT amounts.
unfoldable pub add_quote :
    Env → ℕ → QuoteBreakdown → PricedFacts → String → Db → Result (Quote × Db)
add_quote env submission_id b facts created_by db =
    let row : Quote = record {
      id = env.uuid db.drawn;
      submission_id = submission_id;
      premium_minor = b.premium_minor;
      currency = b.currency;
      rate_table_version = b.rate_table_version;
      breakdown = b.line_items;
      pure_premium_minor = b.pure_premium_minor;
      technical_premium_minor = b.technical_premium_minor;
      commercial_premium_minor = b.commercial_premium_minor;
      taxes_minor = b.taxes_minor;
      facts = facts;
      created_by = created_by;
      created_at = env.now db.drawn;
    } in
    if is_bigint b.premium_minor
      && is_bigint b.pure_premium_minor
      && is_bigint b.technical_premium_minor
      && is_bigint b.commercial_premium_minor
      && is_bigint b.taxes_minor
    then ok (row, record db { quotes = db.quotes ++ row ∷ []; drawn = suc db.drawn })
    else raised database_error

-- `SqlBindingRepository.add`: the submission and the policy number are unique.
unfoldable pub add_binding :
    Env → ℕ → ℕ → String → String → String → Bool → String → Db → Result (Binding × Db)
unfolding by_submission by_policy_number
add_binding env submission_id quote_id policy_number pas_policy_id status event_published bound_by
      db =
    let row : Binding = record {
      id = env.uuid db.drawn;
      submission_id = submission_id;
      quote_id = quote_id;
      policy_number = policy_number;
      pas_policy_id = pas_policy_id;
      status = status;
      event_published = event_published;
      bound_at = env.now db.drawn;
      bound_by = bound_by;
    } in
    elim (by_submission db submission_id) [
      | some bound ↦ raised database_error
      | none ↦ elim (by_policy_number db policy_number) [
        | some taken ↦ raised database_error
        | none ↦ ok (row, record db { bindings = db.bindings ++ row ∷ []; drawn = suc db.drawn })
      ]
    ]

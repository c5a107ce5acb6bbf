-- ===== src/System/Answers.antt =====
-- The quote route of app/api/routes.py against the rate table version 2.
use ktayl_underwriting.Prelude.{
  ℕ, ◌≤◌, ◌^◌, ◌≡◌, ◌≢◌, refl, sym, ap, ◌∙◌, subst, String, some, none, true, lt→ltb, arith, ◌⊎◌,
  inl, inr,
}
use ktayl_underwriting.Prelude.Int.{ℤ, pos, negsuc, ◌+ℤ◌}
use ktayl_underwriting.Decimal.{Decimal, whole}
use ktayl_underwriting.Enums.{decline, Occupancy, occupancy_value}
use ktayl_underwriting.Rating.Engine.{RatingFacts, QuoteBreakdown, Rated, minor, rate, factor_of}
use ktayl_underwriting.Decimal.Exact.{product}
use ktayl_underwriting.Rating.Engine.Formula.{
  base_rate, pure_factors, technical_factors, commercial_premium, with_taxes,
}
use ktayl_underwriting.Rating.Engine.Fits.{IsSmall, minor-IsSmall}
use ktayl_underwriting.Rating.Engine.Reconciles.{rate-Reconciles}
use ktayl_underwriting.Rating.Engine.Subtotals.{Follows, rate-Follows}
use ktayl_underwriting.Rating.Engine.Room.{v2_spec, v2_read}
use ktayl_underwriting.Rating.Engine.Version2.{v2_at, v2-Succeeds}
use ktayl_underwriting.Rating.Tables.{from_rules, v2_rules, v1_factors}
use ktayl_underwriting.Store.Rows.{
  Submission, Decision, RateTable, PricedFacts, Quote, Db, Env, Fault, Result, ok, raised, ◌>>=◌,
  or_raise, is_bigint, quoted, submission_not_found, no_rate_table, key_error,
}
use ktayl_underwriting.Store.Queries.{
  find_submission, get_submission, by_submission, latest_decision, current_rate_table, add_quote,
  append_audit,
}
use ktayl_underwriting.Workbench.Quotes
use ktayl_underwriting.Workbench.Quotes.{rating_facts_of, quotable, rated, manifest}
use ktayl_underwriting.Api.Routes
use ktayl_underwriting.Api.Routes.{reply, answer}

IsSmall-is_bigint : (d : Decimal) {m : ℤ} → IsSmall d → minor d ≡ Rated.ok m → is_bigint m ≡ true
IsSmall-is_bigint d small e =
    let (k, at_k, bound) = minor-IsSmall d small e in
    rw at_k (lt→ltb k (2 ^ 63) (omega (arith, bound)))

difference-is_bigint :
    (c p : ℕ) (t : ℤ) → c ≤ 2 ^ 62 → p ≤ 2 ^ 62 → pos c +ℤ t ≡ pos p → is_bigint t ≡ true
unfolding ◌+ℤ◌
difference-is_bigint c p (pos x) hc hp e = ground (arith, hc, hp, e)
difference-is_bigint c p (negsuc x) hc hp e = ground (arith, hc, hp, e)

-- The amounts of a quote fit their columns.
abbrev pub Fits : QuoteBreakdown → Type 0
Fits b =
    (is_bigint b.premium_minor ≡ true)
    × (is_bigint b.pure_premium_minor ≡ true)
    × (is_bigint b.technical_premium_minor ≡ true)
    × (is_bigint b.commercial_premium_minor ≡ true)
    × (is_bigint b.taxes_minor ≡ true)

some-injective : {A : Type 0} {a b : A} → some a ≡ some b → a ≡ b
some-injective h = cc

pub v2-Fits :
    (facts : RatingFacts) (o : Occupancy) {b : QuoteBreakdown}
    → facts.occupancy ≡ occupancy_value o
    → facts.commercial_adjustment ≡ whole 1
    → 1 ≤ facts.tiv_eur
    → facts.tiv_eur ≤ 10_000_000_000_000
    → rate facts v2_spec ≡ Rated.ok b
    → Fits b
v2-Fits facts o {b} known plain low high e =
    let (f, found, priced) = v2_at facts o plain low high in
    let (g, found', h) = rate-Follows facts v2_spec e in
    let same : g ≡ f =
      some-injective (sym found' ∙ ap (λ k. factor_of k v1_factors) known ∙ found) in
    let follows : Follows facts v2_spec f b = subst (λ x. Follows facts v2_spec x b) same h in
    let (c, at_c, bound_c) =
      minor-IsSmall (commercial_premium facts v2_spec f) priced.adjusted follows.commercial in
    let (p, at_p, bound_p) =
      minor-IsSmall (with_taxes v2_spec (commercial_premium facts v2_spec f)) priced.taxed
        follows.premium in
    let adds_up = (rate-Reconciles facts v2_spec e).adds_up in
    (
      IsSmall-is_bigint (with_taxes v2_spec (commercial_premium facts v2_spec f)) priced.taxed
          follows.premium,
      IsSmall-is_bigint (product (base_rate v2_spec) (pure_factors facts v2_spec f)) priced.pure
          follows.pure_premium,
      IsSmall-is_bigint (product (base_rate v2_spec) (technical_factors facts v2_spec f))
          priced.loaded follows.technical_premium,
      IsSmall-is_bigint (commercial_premium facts v2_spec f) priced.adjusted follows.commercial,
      difference-is_bigint c p b.taxes_minor bound_c bound_p
          (ap (λ x. x +ℤ b.taxes_minor) (sym at_c) ∙ adds_up ∙ at_p),
    )

pub quotable_undeclined : (d : Decision) → d.outcome ≢ decline → quotable (some d) ≡ ok d.outcome
quotable_undeclined d h = ground arith

rating_facts_plain :
    (s : Submission)
    → ((rating_facts_of s).commercial_adjustment ≡ whole 1)
      × ((rating_facts_of s).occupancy ≡ s.occupancy)
      × ((rating_facts_of s).tiv_eur ≡ s.tiv_eur)
unfolding rating_facts_of
rating_facts_plain s = (refl, refl, refl)

result_cases : {A : Type 0} (r : Result A) → ((e : Fault) × (r ≡ raised e)) ⊎ ((a : A) × (r ≡ ok a))
result_cases (raised e) = inl (e, refl)
result_cases (ok a) = inr (a, refl)

add_quote_stores :
    (env : Env) (id : ℕ) (b : QuoteBreakdown) (facts : PricedFacts) (actor : String) (db : Db)
    → Fits b
    → (q : Quote) × (db' : Db) × (add_quote env id b facts actor db ≡ ok (q, db'))
unfolding add_quote
add_quote_stores env id b facts actor db (h1, h2, h3, h4, h5) =
    elim (result_cases (add_quote env id b facts actor db)) [
      | inl (e, refused) ↦ absurd (cc (rw (h1, h2, h3, h4, h5, add_quote) at refused))
      | inr ((q, db'), stored) ↦ (q, db', stored)
    ]

pub then_ok :
    {A B : Type 0} (r : Result A) (next : A → Result B) {a : A} {end : Result B}
    → r ≡ ok a
    → next a ≡ end
    → (r >>= next) ≡ end
then_ok r next e k = ap (λ x. x >>= next) e ∙ k

-- Whatever is stored besides: where the current rate table has version 2 and its payload, a quote that is asked for a stored
-- submission is given, with status 200, if the submission is not bound, its latest decision is no decline, its
-- occupancy is a text of a member, and its insured value is from 1 to 10,000,000,000,000 eurocents.
pub quote_answers :
    (env : Env) (id : ℕ) (actor : String) (db : Db) (s : Submission) (d : Decision) (t : RateTable)
    (o : Occupancy)
    → find_submission db id ≡ some s
    → by_submission db id ≡ none
    → latest_decision db id ≡ some d
    → d.outcome ≢ decline
    → current_rate_table db ≡ some t
    → t.version ≡ 2
    → t.rules ≡ v2_rules
    → s.occupancy ≡ occupancy_value o
    → 1 ≤ s.tiv_eur
    → s.tiv_eur ≤ 10_000_000_000_000
    → (q : Quote) × (db' : Db) × (Routes.quote_submission env id actor db ≡ (reply 200 q, db'))
unfolding Routes.quote_submission Quotes.quote_submission get_submission rating_facts_of
quote_answers env id actor db s d t o found free decided undeclined current version rules known low
      high =
    let facts = rating_facts_of s in
    let read : from_rules t.version t.rules ≡ some v2_spec =
      ap (λ v. from_rules v t.rules) version ∙ ap (from_rules 2) rules ∙ v2_read in
    let (b, priced) = v2-Succeeds facts v2_spec o v2_read known refl low high in
    let (q, db', stored) =
      add_quote_stores env s.id b (manifest facts) actor db
        (v2-Fits facts o known refl low high priced) in
    let last =
      append_audit env s.id "quote" actor (some t.version) none (quoted b.premium_minor b.currency)
        db' in
    let whole_chain : Quotes.quote_submission env id actor db ≡ ok (q, last) =
      then_ok (get_submission db id) _ (ap (λ x. or_raise x submission_not_found) found) (
        then_ok (quotable (latest_decision db id)) _
          (ap quotable decided ∙ quotable_undeclined d undeclined)
          (then_ok (or_raise (current_rate_table db) no_rate_table) _
            (ap (λ x. or_raise x no_rate_table) current)
            (then_ok (or_raise (from_rules t.version t.rules) key_error) _
              (ap (λ x. or_raise x key_error) read)
              (then_ok (rated (rate facts v2_spec)) _ (ap rated priced)
                (then_ok (add_quote env s.id b (manifest facts) actor db) _ stored refl))))) in
    (
      q,
      last,
      rw (free, Routes.quote_submission) (ap (answer 200 Routes.quote_status db) whole_chain),
    )

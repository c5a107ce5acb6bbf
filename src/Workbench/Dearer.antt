-- ===== src/Workbench/Dearer.antt =====
-- The price of a submission against its insured value, by app/rating/service.py and app/rating/engine.py.
use ktayl_underwriting.Prelude.{
  ℕ, ◌≤◌, ◌≡◌, refl, sym, ap, ◌∙◌, true, false, Bool, some, List, [], ◌∷◌, ◌++◌, String, ltb,
  ltb→lt, lt→ltb, arith, if◌then◌else◌,
}
use ktayl_underwriting.Prelude.Int.{pos}
use ktayl_underwriting.Prelude.Text.{contains, lower, mentions}
use ktayl_underwriting.Enums.{Occupancy, occupancy_value}
use ktayl_underwriting.Rating.Engine.{RateTableSpec, QuoteBreakdown, Rated, rate}
use ktayl_underwriting.Rating.Engine.Room.{v2_spec, v2_read}
use ktayl_underwriting.Rating.Engine.Monotone.{is_high, is_sprinklered, v2_premium_mono}
use ktayl_underwriting.Rating.Tables.{from_rules, v2_rules, high_tiv_threshold_eur}
use ktayl_underwriting.Store.Rows.{Submission}
use ktayl_underwriting.Workbench.Quotes.{rating_facts_of}

-- The flags that are raised, by the two tests for them.
flags_read :
    (h k : Bool)
    → (let flags : List String =
          (if h then "high_tiv" ∷ [] else []) ++ (if k then "sprinklered" ∷ [] else []) in
        (contains "high_tiv" flags ≡ h) × (contains "sprinklered" flags ≡ k))
flags_read true true = (refl, refl)
flags_read true false = (refl, refl)
flags_read false true = (refl, refl)
flags_read false false = (refl, refl)

facts_read :
    (s : Submission)
    → (is_high (rating_facts_of s) ≡ ltb high_tiv_threshold_eur s.tiv_eur)
      × (is_sprinklered (rating_facts_of s) ≡ mentions "sprinkler" (lower s.requested_cover))
unfolding rating_facts_of
facts_read s =
    flags_read (ltb high_tiv_threshold_eur s.tiv_eur)
      (mentions "sprinkler" (lower s.requested_cover))

-- Under rate table version 2, more insured value is never cheaper: of two submissions with the same occupancy and the
-- same requested cover, insured for 1 to 10,000,000,000,000 eurocents, the premium of the one with no less insured value
-- is no less, and no premium is below zero.
pub premium_mono :
    (s dearer : Submission) (t : RateTableSpec) (o : Occupancy) (b b' : QuoteBreakdown)
    → from_rules 2 v2_rules ≡ some t
    → s.occupancy ≡ occupancy_value o
    → dearer.occupancy ≡ occupancy_value o
    → s.requested_cover ≡ dearer.requested_cover
    → 1 ≤ s.tiv_eur
    → s.tiv_eur ≤ dearer.tiv_eur
    → dearer.tiv_eur ≤ 10_000_000_000_000
    → rate (rating_facts_of s) t ≡ Rated.ok b
    → rate (rating_facts_of dearer) t ≡ Rated.ok b'
    → (m : ℕ) × (n : ℕ) × (b.premium_minor ≡ pos m) × (b'.premium_minor ≡ pos n) × (m ≤ n)
unfolding rating_facts_of
premium_mono s dearer t o b b' read known known' cover low le high e e' =
    let same : t ≡ v2_spec = cc (sym v2_read ∙ read) in
    let (large, sprinklers) = facts_read s in
    let (large', sprinklers') = facts_read dearer in
    v2_premium_mono (rating_facts_of s) (rating_facts_of dearer) o known known' refl refl
      (sprinklers ∙ ap (λ c. mentions "sprinkler" (lower c)) cover ∙ sym sprinklers')
      (λ h.
        large'
        ∙ lt→ltb high_tiv_threshold_eur dearer.tiv_eur
            (omega (arith, le, ltb→lt high_tiv_threshold_eur s.tiv_eur (sym large ∙ h))))
      low le high (ap (rate (rating_facts_of s)) (sym same) ∙ e)
      (ap (rate (rating_facts_of dearer)) (sym same) ∙ e')

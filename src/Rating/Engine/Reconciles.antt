-- ===== src/Rating/Engine/Reconciles.antt =====
-- The breakdown reconciles: each subtotal that a quote reports is the running subtotal of the last line
-- item up to the end of that stage, and the last item of all shows the premium.
use ktayl_underwriting.Prelude.{
  ◌≡◌, ◌∙◌, subst, ap, sym, String, some, List, [], ◌∷◌, arith, Bool-cases, Option-cases, inl, inr,
}
use ktayl_underwriting.Prelude.Int.{ℤ, ◌+ℤ◌, -ℤ_add, pos, ltb_ℤ}
use ktayl_underwriting.Decimal.{Decimal, differs, lt, whole}
use ktayl_underwriting.Rating.Engine.{
  Stage, loss_cost, technical, commercial, taxes, Trail, ok, minor, times, start, Adjustment,
  applies, adjust, loss_cost_stage, load, technical_stage, commercial_stage, fee_stage, ipt_stage,
  RatingFacts, RateTableSpec, QuoteBreakdown, rate_with, rate, factor_of, >>=-eq-ok, ok-injective,
  outside, raised≢ok,
}
use ktayl_underwriting.Rating.Engine.Trails.{
  closing, Ordered, IsTrail, IsClosed, After, After-same, After-trans, append_item-After,
}

adjust-After :
    (adjustments : List Adjustment) (flags : List String) (tr : Trail) {tr' : Trail}
    → IsTrail loss_cost tr
    → IsClosed loss_cost tr
    → adjust adjustments flags tr ≡ ok tr'
    → After loss_cost tr tr'
unfolding adjust
adjust-After [] flags tr h c e =
    subst (After loss_cost tr) (ok-injective e) (After-same loss_cost loss_cost (omega arith) h c)
adjust-After (a ∷ rest) flags tr {tr'} h c e = elim (Bool-cases (applies a.applies_when flags)) [
  | inl applied ↦
      let (mid, p, q) = >>=-eq-ok _ (adjust rest flags) (rw applied at e) in
      let first = append_item-After a.name a.kind (times a.factor) loss_cost _ tr h p in
      After-trans loss_cost first (adjust-After rest flags mid first.trail first.closed q)
  | inr skipped ↦ adjust-After rest flags tr h c (rw skipped at e)
]

load-After :
    (loadings : List (String × Decimal)) (tr : Trail) {tr' : Trail}
    → IsTrail technical tr
    → IsClosed technical tr
    → load loadings tr ≡ ok tr'
    → After technical tr tr'
unfolding load
load-After [] tr h c e =
    subst (After technical tr) (ok-injective e) (After-same technical technical (omega arith) h c)
load-After ((name, pct) ∷ rest) tr {tr'} h c e = elim (Bool-cases (lt (whole 0) pct)) [
  | inl loaded ↦
      let (mid, p, q) = >>=-eq-ok _ (load rest) (rw loaded at e) in
      let first = append_item-After name "loading" _ technical _ tr h p in
      After-trans technical first (load-After rest mid first.trail first.closed q)
  | inr skipped ↦ load-After rest tr h c (rw skipped at e)
]

loss_cost_stage-After :
    (facts : RatingFacts) (t : RateTableSpec) (f : Decimal) {tr : Trail}
    → loss_cost_stage facts t f ≡ ok tr
    → After loss_cost start tr
unfolding loss_cost_stage
loss_cost_stage-After facts t f e =
    let (base, p, e') = >>=-eq-ok _ _ e in
    let (occupied, q, r) = >>=-eq-ok _ (adjust t.adjustments facts.flags) e' in
    let first =
      append_item-After "base_rate" "base" _ loss_cost _ start
        (record { within = tt; ordered = tt }) p in
    let second = append_item-After _ "factor" _ loss_cost _ base first.trail q in
    After-trans loss_cost first (
      After-trans loss_cost second
        (adjust-After t.adjustments facts.flags occupied second.trail second.closed r))

technical_stage-After :
    (t : RateTableSpec) (tr : Trail) {tr' : Trail}
    → IsTrail loss_cost tr
    → IsClosed loss_cost tr
    → technical_stage t tr ≡ ok tr'
    → After technical tr tr'
unfolding technical_stage
technical_stage-After t tr h c e =
    let same = After-same loss_cost technical (omega arith) h c in
    load-After _ tr same.trail same.closed e

commercial_stage-After :
    (facts : RatingFacts) (t : RateTableSpec) (tr : Trail) {tr' : Trail}
    → IsTrail technical tr
    → IsClosed technical tr
    → commercial_stage facts t tr ≡ ok tr'
    → After commercial tr tr'
unfolding commercial_stage
commercial_stage-After facts t tr h c e =
    let same = After-same technical commercial (omega arith) h c in
    elim (Bool-cases (differs facts.commercial_adjustment (whole 1))) [
      | inl adjusted ↦ elim (Bool-cases (outside facts.commercial_adjustment t)) [
        | inl out ↦ absurd (raised≢ok (rw out at (rw adjusted at e)))
        | inr within ↦
            append_item-After _ _ _ commercial _ tr same.trail (rw within at (rw adjusted at e))
      ]
      | inr neutral ↦ subst (After commercial tr) (ok-injective (rw neutral at e)) same
    ]

fee_stage-After :
    (t : RateTableSpec) (tr : Trail) {tr' : Trail}
    → IsTrail commercial tr
    → IsClosed commercial tr
    → fee_stage t tr ≡ ok tr'
    → After taxes tr tr'
unfolding fee_stage
fee_stage-After t tr h c e =
    let same = After-same commercial taxes (omega arith) h c in
    elim (Bool-cases (ltb_ℤ (pos 0) t.fixed_fees_minor)) [
      | inl charged ↦ append_item-After _ _ _ taxes _ tr same.trail (rw charged at e)
      | inr free ↦ subst (After taxes tr) (ok-injective (rw free at e)) same
    ]

ipt_stage-After :
    (t : RateTableSpec) (d : Decimal) (tr : Trail) {tr' : Trail}
    → IsTrail taxes tr
    → IsClosed taxes tr
    → ipt_stage t d tr ≡ ok tr'
    → After taxes tr tr'
unfolding ipt_stage
ipt_stage-After t d tr h c e = elim (Bool-cases (lt (whole 0) t.ipt_rate)) [
  | inl taxed ↦ append_item-After _ _ _ taxes _ tr h (rw taxed at e)
  | inr untaxed ↦
      subst (After taxes tr) (ok-injective (rw untaxed at e))
        (After-same taxes taxes (omega arith) h c)
]

-- What it is for a breakdown to reconcile.
pub record Reconciles (b : QuoteBreakdown) : Type 0 where
  pub pure_shown : closing loss_cost b.line_items ≡ some b.pure_premium_minor
  pub technical_shown : closing technical b.line_items ≡ some b.technical_premium_minor
  pub commercial_shown : closing commercial b.line_items ≡ some b.commercial_premium_minor
  pub premium_shown : closing taxes b.line_items ≡ some b.premium_minor
  pub adds_up : b.commercial_premium_minor +ℤ b.taxes_minor ≡ b.premium_minor
  pub ordered : Ordered b.line_items

-- What `closing` shows is the rounded subtotal.
shown_as :
    (s : Stage) {tr : Trail} {m : ℤ}
    → IsClosed s tr
    → minor tr.subtotal ≡ ok m
    → closing s tr.items ≡ some m
shown_as s c e = c.shown ∙ ap some (ok-injective (sym c.rounded ∙ e))

rate_with-Reconciles :
    (facts : RatingFacts) (t : RateTableSpec) (f : Decimal) {b : QuoteBreakdown}
    → rate_with facts t f ≡ ok b
    → Reconciles b
unfolding rate_with
rate_with-Reconciles facts t f {b} e =
    let (lost, e1, r1) = >>=-eq-ok _ _ e in
    let (pure, e2, r2) = >>=-eq-ok _ _ r1 in
    let (loaded, e3, r3) = >>=-eq-ok _ _ r2 in
    let (tech, e4, r4) = >>=-eq-ok _ _ r3 in
    let (adjusted, e5, r5) = >>=-eq-ok _ _ r4 in
    let (comm, e6, r6) = >>=-eq-ok _ _ r5 in
    let (with_fee, e7, r7) = >>=-eq-ok _ _ r6 in
    let (taxed, e8, r8) = >>=-eq-ok _ _ r7 in
    let (premium, e9, r9) = >>=-eq-ok _ _ r8 in
    let a = loss_cost_stage-After facts t f e1 in
    let b' = technical_stage-After t lost a.trail a.closed e3 in
    let c = commercial_stage-After facts t loaded b'.trail b'.closed e5 in
    let d = fee_stage-After t adjusted c.trail c.closed e7 in
    let g =
      After-trans taxes d (ipt_stage-After t adjusted.subtotal with_fee d.trail d.closed e8) in
    subst Reconciles (ok-injective r9) (record {
      pure_shown =
          g.keeps loss_cost (omega arith)
          ∙ c.keeps loss_cost (omega arith)
          ∙ b'.keeps loss_cost (omega arith)
          ∙ shown_as loss_cost a.closed e2;
      technical_shown =
          g.keeps technical (omega arith)
          ∙ c.keeps technical (omega arith)
          ∙ shown_as technical b'.closed e4;
      commercial_shown = g.keeps commercial (omega arith) ∙ shown_as commercial c.closed e6;
      premium_shown = shown_as taxes g.closed e9;
      adds_up = -ℤ_add premium comm;
      ordered = g.trail.ordered;
    })

-- Every price that `rate` gives reconciles: the pure, technical and commercial premiums and the final
-- premium are each the running subtotal of the last line item up to the end of their stage, the commercial
-- premium and the taxes add up to the premium, and the items stand in the order of the stages.
pub rate-Reconciles :
    (facts : RatingFacts) (t : RateTableSpec) {b : QuoteBreakdown}
    → rate facts t ≡ ok b
    → Reconciles b
unfolding rate
rate-Reconciles facts t e = elim (Option-cases (factor_of facts.occupancy t.occupancy_factors)) [
  | inl unknown ↦ absurd (raised≢ok (rw (unknown, rate) at e))
  | inr (f, known) ↦ rate_with-Reconciles facts t f (rw (known, rate) at e)
]

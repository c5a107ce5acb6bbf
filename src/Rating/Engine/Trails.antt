-- ===== src/Rating/Engine/Trails.antt =====
-- The trail of line items while a premium is built: its items stand in the order of the stages, and the
-- last item up to a stage shows the subtotal at the end of that stage.
use ktayl_underwriting.Prelude.{
  ℕ, ◌≤◌, ◌<◌, ◌≡◌, refl, ◌∙◌, subst, String, Option, none, some, List, [], ◌∷◌, ◌++◌, arith, All,
  All-append, All-map, leb, if◌then◌else◌,
}
use ktayl_underwriting.Prelude.Int.{ℤ}
use ktayl_underwriting.Decimal.{Decimal}
use ktayl_underwriting.Rating.Engine.{
  Stage, loss_cost, technical, commercial, taxes, Value, LineItem, Trail, ok, minor, append_item,
  >>=-eq-ok, ok-injective,
}

abbrev pub rank : Stage → ℕ
rank loss_cost = 0
rank technical = 1
rank commercial = 2
rank taxes = 3

abbrev or_else : Option ℤ → Option ℤ → Option ℤ
or_else none o = o
or_else (some m) o = some m

-- The running subtotal of the last item whose stage is at most `s`.
abbrev pub closing : Stage → List LineItem → Option ℤ
closing s [] = none
closing s (i ∷ is) =
    or_else (closing s is)
      (if leb (rank i.stage) (rank s) then some i.running_subtotal_minor else none)

abbrev pub Within : Stage → List LineItem → Type 0
Within s = All (λ i. rank i.stage ≤ rank s)

-- No item stands before one of an earlier stage.
abbrev pub Ordered : List LineItem → Type 0
Ordered [] = Unit
Ordered (i ∷ is) = All (λ j. rank i.stage ≤ rank j.stage) is × Ordered is

pub closing-append :
    (s : Stage) (is : List LineItem) (i : LineItem)
    → closing s (is ++ i ∷ [])
      ≡ (if leb (rank i.stage) (rank s) then some i.running_subtotal_minor else closing s is)
closing-append s [] i = ground arith
closing-append s (j ∷ is) i = ground (arith, closing-append s is i)

pub closing-Within :
    (s t : Stage) (is : List LineItem) → Within s is → rank s ≤ rank t → closing t is ≡ closing s is
closing-Within s t [] h le = refl
closing-Within s t (i ∷ is) h le = ground (arith, closing-Within s t is h.1 le)

Ordered-append :
    (is : List LineItem) (i : LineItem) → Ordered is → Within i.stage is → Ordered (is ++ i ∷ [])
Ordered-append [] i o w = (tt, tt)
Ordered-append (j ∷ is) i o w = (
  All-append (λ k. rank j.stage ≤ rank k.stage) is (i ∷ []) o.0 (w.0, tt),
  Ordered-append is i o.1 w.1,
)

-- All items belong to stages up to `s`, in order.
pub record IsTrail (s : Stage) (tr : Trail) : Type 0 where
  pub within : Within s tr.items
  pub ordered : Ordered tr.items

-- The last item shows the subtotal.
pub record IsClosed (s : Stage) (tr : Trail) : Type 0 where
  pub amount : ℤ
  pub rounded : minor tr.subtotal ≡ ok amount
  pub shown : closing s tr.items ≡ some amount

-- `tr'` comes from `tr` by items of stage `s`.
pub record After (s : Stage) (tr tr' : Trail) : Type 0 where
  pub trail : IsTrail s tr'
  pub closed : IsClosed s tr'
  pub keeps : (t : Stage) → rank t < rank s → closing t tr'.items ≡ closing t tr.items

pub IsTrail-up : (s t : Stage) {tr : Trail} → rank s ≤ rank t → IsTrail s tr → IsTrail t tr
IsTrail-up s t {tr} le h = record {
  within = All-map (λ i p. omega arith) tr.items h.within;
  ordered = h.ordered;
}

-- A stage that adds nothing.
pub After-same :
    (s t : Stage) {tr : Trail} → rank s ≤ rank t → IsTrail s tr → IsClosed s tr → After t tr tr
After-same s t {tr} le h c = record {
  trail = IsTrail-up s t le h;
  closed = record {
    amount = c.amount;
    rounded = c.rounded;
    shown = closing-Within s t tr.items h.within le ∙ c.shown;
  };
  keeps = λ u lt. refl;
}

pub After-trans :
    (s : Stage) {tr tr' tr'' : Trail} → After s tr tr' → After s tr' tr'' → After s tr tr''
After-trans s a b = record {
  trail = b.trail;
  closed = b.closed;
  keeps = λ u lt. b.keeps u lt ∙ a.keeps u lt;
}

abbrev with_item : LineItem → Decimal → Trail → Trail
with_item i d tr = record { subtotal = d; items = tr.items ++ i ∷ [] }

with_item-After :
    (i : LineItem) (d : Decimal) (tr : Trail)
    → IsTrail i.stage tr
    → minor d ≡ ok i.running_subtotal_minor
    → After i.stage tr (with_item i d tr)
with_item-After i d tr h e = record {
  trail = record {
    within =
        All-append (λ j. rank j.stage ≤ rank i.stage) tr.items (i ∷ []) h.within (omega arith, tt);
    ordered = Ordered-append tr.items i h.ordered h.within;
  };
  closed = record {
    amount = i.running_subtotal_minor;
    rounded = e;
    shown = ground (arith, closing-append i.stage tr.items i);
  };
  keeps = λ t lt. ground (arith, closing-append t tr.items i);
}

-- Appending an item of stage `s` to items of stages up to `s`.
pub append_item-After :
    (label kind : String) (value : Value) (s : Stage) (d : Decimal) (tr : Trail) {tr' : Trail}
    → IsTrail s tr
    → append_item label kind value s d tr ≡ ok tr'
    → After s tr tr'
unfolding append_item
append_item-After label kind value s d tr {tr'} h e =
    let (m, rounded, rest) = >>=-eq-ok (minor d) _ e in
    subst (After s tr) (ok-injective rest) (
      with_item-After
        (record {
          label = label;
          kind = kind;
          value = value;
          running_subtotal_minor = m;
          stage = s;
        })
        d tr h rounded)

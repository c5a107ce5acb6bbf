-- ===== src/Prelude/Text.antt =====
-- Texts: membership in a set of texts, and Python's `upper`, `lower` and `in` on texts. Letters are
-- those of ASCII; `upper` and `lower` leave every other character as it is.
use Prim.Native.Char.{Char, code}
use Prim.Native.String.{String}
use mathlib.Core.Path.{◌≡◌, refl, ap}
use mathlib.Core.Logic.{◌⊎◌, inl, inr}
use mathlib.Core.Bool.{Bool, true, false, ◌||◌}
use mathlib.Core.Option.{none, some}
use mathlib.Core.List.{List, [], ◌∷◌}
use text.Mathlib.Text.{◌==◌ as str_eq, find?}
use ktayl_underwriting.Prelude.Tests.{◌==◌, if◌then◌else◌, Bool-cases}

-- `x in xs`, for a set of texts.
abbrev pub contains : String → List String → Bool
contains x [] = false
contains x (y ∷ ys) = str_eq x y || contains x ys

-- The character of `to` at the place where `c` stands in `from`; `c` itself where it does not.
abbrev translate_char : String → String → Char → Char
translate_char String.[] to c = c
translate_char (String.◌∷◌ f fs) String.[] c = c
translate_char (String.◌∷◌ f fs) (String.◌∷◌ t ts) c =
    if code c == code f then t else translate_char fs ts c

abbrev translate : String → String → String → String
translate from to String.[] = String.[]
translate from to (String.◌∷◌ c s) = String.◌∷◌ (translate_char from to c) (translate from to s)

abbrev small_letters : String
small_letters = "abcdefghijklmnopqrstuvwxyz"

abbrev capitals : String
capitals = "ABCDEFGHIJKLMNOPQRSTUVWXYZ"

unfoldable pub upper : String → String
upper = translate small_letters capitals

unfoldable pub lower : String → String
lower = translate capitals small_letters

-- `needle in text`, a substring test.
unfoldable pub mentions : String → String → Bool
mentions needle text = elim (find? text needle) [ none ↦ false | some _ ↦ true ]

-- A letter that `upper` leaves as it is.
abbrev IsUpper : Char → Type 0
IsUpper c = translate_char small_letters capitals c ≡ c

abbrev AllUpper : String → Type 0
AllUpper String.[] = Unit
AllUpper (String.◌∷◌ c s) = IsUpper c × AllUpper s

capitals-AllUpper : AllUpper capitals
capitals-AllUpper = (
  refl,
  (
    refl,
    (
      refl,
      (
        refl,
        (
          refl,
          (
            refl,
            (
              refl,
              (
                refl,
                (
                  refl,
                  (
                    refl,
                    (
                      refl,
                      (
                        refl,
                        (
                          refl,
                          (
                            refl,
                            (
                              refl,
                              (
                                refl,
                                (
                                  refl,
                                  (
                                    refl,
                                    (
                                      refl,
                                      (refl, (refl, (refl, (refl, (refl, (refl, (refl, tt))))))),
                                    ),
                                  ),
                                ),
                              ),
                            ),
                          ),
                        ),
                      ),
                    ),
                  ),
                ),
              ),
            ),
          ),
        ),
      ),
    ),
  ),
)

translated :
    (from to : String) (c : Char)
    → AllUpper to
    → (translate_char from to c ≡ c) ⊎ IsUpper (translate_char from to c)
translated String.[] to c h = inl refl
translated (String.◌∷◌ f fs) String.[] c h = inl refl
translated (String.◌∷◌ f fs) (String.◌∷◌ t ts) c h = elim (Bool-cases (code c == code f)) [
  | inl hit ↦ inr (rw hit h.0)
  | inr miss ↦ rw miss (translated fs ts c h.1)
]

translate_char-IsUpper : (c : Char) → IsUpper (translate_char small_letters capitals c)
translate_char-IsUpper c = elim (translated small_letters capitals c capitals-AllUpper) [
  | inl same ↦ ap (translate_char small_letters capitals) same
  | inr done ↦ done
]

-- What is in upper case stays as it is.
pub upper-upper : (s : String) → upper (upper s) ≡ upper s
unfolding upper
upper-upper String.[] = refl
upper-upper (String.◌∷◌ c s) = cc (translate_char-IsUpper c, upper-upper s)

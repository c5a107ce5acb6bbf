-- ===== src/Api/Scopes.antt =====
-- The scopes of a token: what `str.split` makes of scopes that stand in one text with a space between.

use Prim.Native.String.{◌++◌ as str_append}
use package.text.Mathlib.TextLemmas.{nil-append, cons-append, append-nil}
use ktayl_underwriting.Prelude.{
  String, ◌≡◌, ◌≢◌, refl, sym, ap, subst, ◌∙◌, false, some, List, [], ◌∷◌, All,
}
use ktayl_underwriting.Api.Auth.{Claims, Claim, is_space, close, pieces, split, scopes_from_claims}

-- A text with no space in it.
abbrev HasNoSpace : String → Type 0
HasNoSpace String.[] = Unit
HasNoSpace (String.◌∷◌ c s) = (is_space c ≡ false) × HasNoSpace s

-- A text of at least one character, none of them a space.
abbrev pub IsWord : String → Type 0
IsWord s = (s ≢ "") × HasNoSpace s

-- A word, and the texts that follow it, each after a space.
abbrev pub joined : String → List String → String
joined word [] = word
joined word (w ∷ ws) = str_append word (str_append " " (joined w ws))

abbrev pub scope_text : List String → String
scope_text [] = ""
scope_text (w ∷ ws) = joined w ws

-- A word in front of a text stands in front of the text's first piece.
pieces-append :
    (word rest : String)
    → HasNoSpace word
    → pieces (str_append word rest) ≡ (str_append word (pieces rest).0, (pieces rest).1)
unfolding pieces
pieces-append String.[] rest h = rw (nil-append rest, nil-append (pieces rest).0) refl
pieces-append (String.◌∷◌ c s) rest h =
    let ih = pieces-append s rest h.1 in
    subst (λ t. pieces t ≡ (str_append (String.◌∷◌ c s) (pieces rest).0, (pieces rest).1))
      (sym (cons-append c s rest)) (rw (ih, h.0, cons-append c s (pieces rest).0) refl)

close-word : (word : String) (words : List String) → IsWord word → close word words ≡ word ∷ words
close-word String.[] words h = absurd (h.0 refl)
close-word (String.◌∷◌ c s) words h = refl

pieces-space :
    (rest : String) → pieces (str_append " " rest) ≡ ("", close (pieces rest).0 (pieces rest).1)
unfolding pieces
pieces-space rest =
    subst (λ t. pieces t ≡ ("", close (pieces rest).0 (pieces rest).1))
      (sym (cons-append " " "" rest ∙ ap (String.◌∷◌ " ") (nil-append rest))) refl

pieces-joined :
    (w : String) (ws : List String) → All IsWord (w ∷ ws) → pieces (joined w ws) ≡ (w, ws)
unfolding pieces
pieces-joined w [] h =
    ap pieces (sym (append-nil w)) ∙ pieces-append w "" h.0.1 ∙ ap (λ t. (t, [])) (append-nil w)
pieces-joined w (v ∷ vs) h =
    let rest = str_append " " (joined v vs) in
    let ih = pieces-joined v vs h.1 in
    let after_space : pieces rest ≡ ("", v ∷ vs) =
      pieces-space (joined v vs)
      ∙ ap (λ (p : String × List String). ("", close p.0 p.1)) ih
      ∙ ap (λ ws. ("", ws)) (close-word v vs h.1.0) in
    pieces-append w rest h.0.1
    ∙ ap (λ (p : String × List String). (str_append w p.0, p.1)) after_space
    ∙ ap (λ t. (t, v ∷ vs)) (append-nil w)

-- Where a token's `scope` claim is a text of words, each of at least one character and none with a space in it, that
-- stand with one space between each two, its scopes are those words.
pub scopes_from_claims-scope_text :
    (claims : Claims) (ws : List String)
    → All IsWord ws
    → claims.scope ≡ some (Claim.text (scope_text ws))
    → scopes_from_claims claims ≡ ws
unfolding scopes_from_claims split pieces
scopes_from_claims-scope_text claims [] words e = rw e refl
scopes_from_claims-scope_text claims (w ∷ ws) words e =
    rw e (rw (pieces-joined w ws words) (close-word w ws words.0))

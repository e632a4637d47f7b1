-- ===== src/Html/Harmless.antt =====
-- What the escapes let through.
use Prim.Native.Char.{Char}
use Prim.Native.String.{[], ◌∷◌}
use text.Mathlib.TextLemmas.{nil-append, cons-append}
use ix_gateway.Prelude.{
  String, Bool, true, false, not, ◌||◌, ◌&&◌, ◌≡◌, refl, ◌∙◌, ap, inl, inr, ◌⊎◌, Bool-cases, arith,
}
use ix_gateway.Prelude.Text.{concat}
use ix_gateway.Html.{is_char, escape_char, html_escape, is_web, url_escape}

-- Not one of `<`, `>`, `"` and `'`.
abbrev pub is_plain : Char → Bool
is_plain c = not (is_char 60 c || is_char 62 c || is_char 34 c || is_char 39 c)

unfoldable pub harmless : String → Bool
harmless [] = true
harmless (c ∷ s) = is_plain c && harmless s

harmless-concat : (s t : String) → harmless (concat s t) ≡ (harmless s && harmless t)
unfolding harmless
harmless-concat [] t = ap harmless (nil-append t)
harmless-concat (c ∷ s) t =
    ap harmless (cons-append c s t)
    ∙ ap (λ b. is_plain c && b) (harmless-concat s t)
    ∙ regroup (is_plain c) (harmless s) (harmless t)
  where
    regroup : (a b c : Bool) → (a && (b && c)) ≡ ((a && b) && c)
    regroup a b c = ground arith

plain :
    (a b c d : Bool)
    → a ≡ false
    → b ≡ false
    → c ≡ false
    → d ≡ false
    → (not (a || b || c || d) && true) ≡ true
plain a b c d h i j k = ground arith

harmless-escape_char : (c : Char) → harmless (escape_char c) ≡ true
unfolding harmless
harmless-escape_char c = elim (Bool-cases (is_char 38 c)) [
  | inl amp ↦ rw amp refl
  | inr no_amp ↦ elim (Bool-cases (is_char 60 c)) [
    | inl lt ↦ rw (no_amp, lt) refl
    | inr no_lt ↦ elim (Bool-cases (is_char 62 c)) [
      | inl gt ↦ rw (no_amp, no_lt, gt) refl
      | inr no_gt ↦ elim (Bool-cases (is_char 34 c)) [
        | inl quot ↦ rw (no_amp, no_lt, no_gt, quot) refl
        | inr no_quot ↦ elim (Bool-cases (is_char 39 c)) [
          | inl apos ↦ rw (no_amp, no_lt, no_gt, no_quot, apos) refl
          | inr no_apos ↦
              rw (no_amp, no_lt, no_gt, no_quot, no_apos)
                (plain (is_char 60 c) (is_char 62 c) (is_char 34 c) (is_char 39 c) no_lt no_gt
                  no_quot no_apos)
        ]
      ]
    ]
  ]
]

-- An escaped text has none of `<`, `>`, `"` and `'`.
pub harmless-html_escape : (s : String) → harmless (html_escape s) ≡ true
unfolding html_escape harmless
harmless-html_escape [] = refl
harmless-html_escape (c ∷ s) =
    harmless-concat (escape_char c) (html_escape s)
    ∙ rw (harmless-escape_char c, harmless-html_escape s) refl

-- An escaped URL has none of `<`, `>`, `"` and `'`, and is either empty or what `html_escape` makes
-- of a URL that starts, after white space, with http:// or https:// in letters of either case.
pub harmless-url_escape :
    (url : String)
    → (harmless (url_escape url) ≡ true)
      × ((url_escape url ≡ "") ⊎ ((is_web url ≡ true) × (url_escape url ≡ html_escape url)))
unfolding url_escape harmless
harmless-url_escape [] = (refl, inl refl)
harmless-url_escape (c ∷ s) = elim (Bool-cases (is_web (c ∷ s))) [
  | inl web ↦ rw web (harmless-html_escape (c ∷ s), inr (refl, refl))
  | inr other ↦ rw other (refl, inl refl)
]

-- ===== src/Prelude/Text/Prefix.antt =====
-- Prefixes of texts.
use Prim.Native.Char.{Char, code}
use Prim.Native.String.{String, [], ◌∷◌}
use Prim.Native.Nat.{ℕ}
use mathlib.Core.Path.{◌≡◌, refl, ◌∙◌, ap, sym}
use mathlib.Core.Bool.{true, false}
use mathlib.Core.Option.{none, some, some-injective}
use mathlib.Core.Logic.{inl, inr}
use native.Mathlib.Omega.{arith}
use text.Mathlib.TextLemmas.{nil-append, cons-append}
use text.Mathlib.TextEquality.{Char-path}
use ix_gateway.Prelude.Tests.{◌==◌, Bool-cases}
use ix_gateway.Prelude.Text.{concat, strip_prefix}

same_code : (n : ℕ) → (n == n) ≡ true
same_code n = ground arith

of_same_code : (m n : ℕ) → (m == n) ≡ true → m ≡ n
of_same_code m n h = ground arith

-- A text behind a common front.
pub strip_prefix-concat :
    (p a b : String) → strip_prefix (concat p a) (concat p b) ≡ strip_prefix a b
strip_prefix-concat [] a b = rw (nil-append a, nil-append b) refl
strip_prefix-concat (c ∷ p) a b =
    rw (cons-append c p a, cons-append c p b, same_code (code c)) (strip_prefix-concat p a b)

pub strip_prefix-front : (p s : String) → strip_prefix p (concat p s) ≡ some s
strip_prefix-front [] s = ap some (nil-append s)
strip_prefix-front (c ∷ p) s = rw (cons-append c p s, same_code (code c)) (strip_prefix-front p s)

pub strip_prefix-some : (p v r : String) → strip_prefix p v ≡ some r → v ≡ concat p r
strip_prefix-some [] v r h = some-injective v r h ∙ sym (nil-append r)
strip_prefix-some (c ∷ p) [] r h = cc
strip_prefix-some (c ∷ p) (d ∷ s) r h = elim (Bool-cases (code c == code d)) [
  | inl same ↦
      ap (λ x. x ∷ s) (sym (Char-path c d (of_same_code (code c) (code d) same)))
      ∙ ap (λ t. c ∷ t) (strip_prefix-some p s r (rw same at h))
      ∙ sym (cons-append c p r)
  | inr other ↦ let clash : none ≡ some r = (rw other at h) in cc
]

-- Texts with different first characters.
pub apart :
    (c d : Char) (p s r : String)
    → (code c == code d) ≡ false
    → strip_prefix (c ∷ p) (concat (d ∷ s) r) ≡ none
apart c d p s r other = rw (cons-append d s r, other) refl

-- ===== src/Html/Amount.antt =====
-- The amount on a page, read back.
use Prim.Native.Char.{Char, code}
use Prim.Native.String.{[], ◌∷◌}
use text.Mathlib.TextLemmas.{cons-append, nil-append, append_assoc}
use ix_gateway.Prelude.{
  ℕ, zero, suc, ◌+◌, ◌-◌, ◌*◌, ◌/◌, ◌%◌, ◌<◌, ◌≤◌, String, ◌||◌, ltb, if◌then◌else◌, ◌≡◌, refl, sym,
  ◌∙◌, ap, inl, inr, Bool-cases, ◌==◌, arith,
}
use ix_gateway.Prelude.Int.{pos}
use ix_gateway.Prelude.Text.{concat}
use ix_gateway.Html.Float.{shown_cents}
use ix_gateway.Html.Float.Exact.{shown_cents-exact}
use ix_gateway.Html.{is_char, digit, three, leading, grouped, cents, upper, format_amount}

-- A reader of digits, which passes over commas and points.
abbrev pub next : ℕ → Char → ℕ
next acc c = if is_char 44 c || is_char 46 c then acc else acc * 10 + (code c - 48)

unfoldable pub read_from : ℕ → String → ℕ
read_from acc [] = acc
read_from acc (c ∷ s) = read_from (next acc c) s

read_from-concat :
    (acc : ℕ) (s t : String) → read_from acc (concat s t) ≡ read_from (read_from acc s) t
unfolding read_from
read_from-concat acc [] t = ap (read_from acc) (nil-append t)
read_from-concat acc (c ∷ s) t =
    ap (read_from acc) (cons-append c s t) ∙ read_from-concat (next acc c) s t

next-digit : (acc d : ℕ) → d < 10 → next acc (digit d) ≡ acc * 10 + d
next-digit acc zero h = refl
next-digit acc (suc zero) h = refl
next-digit acc (suc (suc zero)) h = refl
next-digit acc (suc (suc (suc zero))) h = refl
next-digit acc (suc (suc (suc (suc zero)))) h = refl
next-digit acc (suc (suc (suc (suc (suc zero))))) h = refl
next-digit acc (suc (suc (suc (suc (suc (suc zero)))))) h = refl
next-digit acc (suc (suc (suc (suc (suc (suc (suc zero))))))) h = refl
next-digit acc (suc (suc (suc (suc (suc (suc (suc (suc zero)))))))) h = refl
next-digit acc (suc (suc (suc (suc (suc (suc (suc (suc (suc zero))))))))) h = refl
next-digit acc (suc (suc (suc (suc (suc (suc (suc (suc (suc (suc d)))))))))) h = omega arith

two_digits :
    (acc d e : ℕ)
    → d < 10
    → e < 10
    → read_from acc (digit d ∷ digit e ∷ "") ≡ (acc * 10 + d) * 10 + e
unfolding read_from
two_digits acc d e h k =
    ap (λ n. next n (digit e)) (next-digit acc d h) ∙ next-digit (acc * 10 + d) e k

read_from-three : (acc n : ℕ) → n < 1000 → read_from acc (three n) ≡ acc * 1000 + n
unfolding read_from
read_from-three acc n h =
    ap (λ m. next (next m (digit (n / 10 % 10))) (digit (n % 10)))
      (next-digit acc (n / 100) (omega arith))
    ∙ two_digits (acc * 10 + n / 100) (n / 10 % 10) (n % 10) (omega arith) (omega arith)
    ∙ omega arith

read_from-leading : (n : ℕ) → n < 1000 → read_from 0 (leading n) ≡ n
unfolding read_from
read_from-leading n h = elim (Bool-cases (ltb n 10)) [
  | inl small ↦ let low : n < 10 = ground arith in rw small (next-digit 0 n low ∙ omega arith)
  | inr large ↦ elim (Bool-cases (ltb n 100)) [
    | inl small ↦
        let low : n < 100 = ground arith in
        rw (large, small) (two_digits 0 (n / 10) (n % 10) (omega arith) (omega arith) ∙ omega arith)
    | inr larger ↦ rw (large, larger) (read_from-three 0 n h ∙ omega arith)
  ]
]

read_from-grouped : (fuel n : ℕ) → n < fuel → read_from 0 (grouped fuel n) ≡ n
unfolding grouped read_from
read_from-grouped zero n h = elim h [ ]
read_from-grouped (suc fuel) n h = elim (Bool-cases (ltb n 1000)) [
  | inl small ↦ let low : n < 1000 = ground arith in rw small (read_from-leading n low)
  | inr large ↦
      let enough : n / 1000 < fuel = let high : 1000 ≤ n = ground arith in omega arith in
      rw large (
        read_from-concat 0 (grouped fuel (n / 1000)) (concat "," (three (n % 1000)))
        ∙ ap (λ m. read_from m (concat "," (three (n % 1000))))
            (read_from-grouped fuel (n / 1000) enough)
        ∙ read_from-concat (n / 1000) "," (three (n % 1000))
        ∙ read_from-three (n / 1000) (n % 1000) (omega arith)
        ∙ omega arith)
]

read_from-cents : (n : ℕ) → read_from 0 (cents n) ≡ n
unfolding read_from
read_from-cents n =
    let decimals = digit (n / 10 % 10) ∷ digit (n % 10) ∷ "" in
    read_from-concat 0 (grouped (n + 1) (n / 100)) (concat "." decimals)
    ∙ ap (λ m. read_from m (concat "." decimals))
        (read_from-grouped (n + 1) (n / 100) (omega arith))
    ∙ read_from-concat (n / 100) "." decimals
    ∙ two_digits (n / 100) (n / 10 % 10) (n % 10) (omega arith) (omega arith)
    ∙ omega arith

-- What stands in front of the digits: a dollar sign, or the currency and a space.
abbrev pub mark : String → String
mark currency = if upper currency == "USD" then "$" else concat (upper currency) " "

-- The text of an amount that is not negative and below 2 ** 52 is the mark of its currency and
-- digits which, read back without the commas and the point, are the amount in cents.
pub format_amount-digits :
    (n : ℕ) (currency : String)
    → n < 4503599627370496
    → (shown : String) × (format_amount (pos n) currency ≡ concat (mark currency) shown)
      × (read_from 0 shown ≡ n)
unfolding format_amount
format_amount-digits n currency small = (
  cents (shown_cents n),
  elim (Bool-cases (upper currency == "USD")) [
    | inl usd ↦ rw usd refl
    | inr other ↦ rw other (sym (append_assoc (upper currency) " " (cents (shown_cents n))))
  ],
  read_from-cents (shown_cents n) ∙ shown_cents-exact n small,
)

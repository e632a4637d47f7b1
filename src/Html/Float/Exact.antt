-- ===== src/Html/Float/Exact.antt =====
-- How far the float keeps the cents.
use native.Mathlib.Nat.{div-add-mod, mul_comm, mul-le-mul_left, add-mul-div_right, div-eq_of_lt}
use ix_gateway.Prelude.{
  ℕ, zero, suc, ◌+◌, ◌-◌, ◌*◌, ◌/◌, ◌%◌, ◌<◌, ◌≤◌, Bool, if◌then◌else◌, true, false, ◌≡◌, refl, sym,
  ◌∙◌, ap, inl, inr, ltb, leb, Bool-cases, arith,
}
use ix_gateway.Html.Float.{round_half_even, finer, shown_cents}

round_half_even-near :
    (a : ℕ) → (100 * round_half_even a 100 ≤ a + 50) × (a ≤ 100 * round_half_even a 100 + 50)
round_half_even-near a = ground arith

quotient : (q r k : ℕ) → r < k → (r + q * k) / k ≡ q
quotient q r k h =
    let some_k : 0 < k = omega arith in
    add-mul-div_right r q some_k ∙ ap (λ x. x + q) (div-eq_of_lt h) ∙ omega arith

remainder : (q r k : ℕ) → r < k → (r + q * k) % k ≡ r
remainder q r k h =
    let e : k * ((r + q * k) / k) + (r + q * k) % k ≡ r + q * k = div-add-mod (r + q * k) k in
    let f : k * q + (r + q * k) % k ≡ r + q * k =
      sym (ap (λ x. k * x + (r + q * k) % k) (quotient q r k h)) ∙ e in
    grind (arith, mul_comm k q)

rounds_down : (q r k : ℕ) → 2 * r < k → round_half_even (r + q * k) k ≡ q
rounds_down q r k h =
    let inside : r < k = omega arith in
    let small : ltb (2 * r) k ≡ true = ground arith in
    rw (quotient q r k inside, remainder q r k inside, small) refl

rounds_up : (q r k : ℕ) → r < k → k < 2 * r → round_half_even (r + q * k) k ≡ q + 1
rounds_up q r k inside h =
    let large : ltb (2 * r) k ≡ false = ground arith in
    let over : ltb k (2 * r) ≡ true = ground arith in
    rw (quotient q r k inside, remainder q r k inside, large, over) refl

-- What is off by less than half of k rounds back.
round_half_even-back :
    (a n k : ℕ) → 100 < k → n * k ≤ a + 50 → a ≤ n * k + 50 → round_half_even a k ≡ n
round_half_even-back a n k h low high = elim (Bool-cases (leb (n * k) a)) [
  | inl above ↦
      let le : n * k ≤ a = ground arith in
      let e : a ≡ (a - n * k) + n * k = omega arith in
      ap (λ x. round_half_even x k) e ∙ rounds_down n (a - n * k) k (omega arith)
  | inr below ↦ under n low high (ground arith)
]
  where
    under : (m : ℕ) → m * k ≤ a + 50 → a ≤ m * k + 50 → a < m * k → round_half_even a k ≡ m
    under zero l u b = omega arith
    under (suc m) l u b =
        let split : suc m * k ≡ m * k + k = omega arith in
        let e : a ≡ (a - m * k) + m * k = omega arith in
        ap (λ x. round_half_even x k) e
        ∙ rounds_up m (a - m * k) k (omega arith) (omega arith)
        ∙ omega arith

-- Enough doublings reach the scale.
doubled : (fuel x : ℕ) → ℕ
doubled zero x = x
doubled (suc fuel) x = doubled fuel (x + x)

doubled-le : (fuel x y : ℕ) → x ≤ y → doubled fuel x ≤ doubled fuel y
unfolding doubled
doubled-le zero x y h = h
doubled-le (suc fuel) x y h = doubled-le fuel (x + x) (y + y) (omega arith)

finer-reaches :
    (fuel n k : ℕ)
    → 450359962737049600 ≤ doubled fuel (n * k)
    → 450359962737049600 ≤ n * finer fuel n k
unfolding finer doubled
finer-reaches zero n k h = h
finer-reaches (suc fuel) n k h = elim (Bool-cases (leb 450359962737049600 (n * k))) [
  | inl there ↦ rw there (ground arith)
  | inr below ↦
      let e : n * (k + k) ≡ n * k + n * k = omega arith in
      rw below (finer-reaches fuel n (k + k) (rw e h))
]

le_trans : (a b c : ℕ) → a ≤ b → b ≤ c → a ≤ c
le_trans a b c h k = omega arith

far : 450359962737049600 ≤ doubled 60 1
unfolding doubled
far = omega arith

reached : (n : ℕ) → 1 ≤ n → 450359962737049600 ≤ n * finer 60 n 1
reached n h =
    let one : 1 ≤ n * 1 = omega arith in
    finer-reaches 60 n 1 (
      le_trans 450359962737049600 (doubled 60 1) (doubled 60 (n * 1)) far
        (doubled-le 60 1 (n * 1) one))

scale_large : (n k : ℕ) → n < 4503599627370496 → 450359962737049600 ≤ n * k → 100 < k
scale_large n k low high = elim (Bool-cases (leb k 100)) [
  | inr over ↦ ground arith
  | inl under ↦
      let le : k ≤ 100 = ground arith in
      let bound : n * k ≤ n * 100 = mul-le-mul_left n le in omega arith
]

fine_exact :
    (n k : ℕ)
    → n < 4503599627370496
    → 450359962737049600 ≤ n * k
    → round_half_even (100 * round_half_even (n * k) 100) k ≡ n
fine_exact n k h high =
    let near = round_half_even-near (n * k) in
    round_half_even-back (100 * round_half_even (n * k) 100) n k (scale_large n k h high) near.1
      near.0

if_true : (b : Bool) (x y : ℕ) → b ≡ true → (if b then x else y) ≡ x
if_true b x y h = rw h refl

-- The cents of an amount below 2 ** 52 are all shown.
pub shown_cents-exact : (n : ℕ) → n < 4503599627370496 → shown_cents n ≡ n
unfolding shown_cents
shown_cents-exact zero h = refl
shown_cents-exact (suc m) h =
    let small : ltb (suc m) 900719925474099200 ≡ true = ground arith in
    if_true (ltb (suc m) 900719925474099200) _ _ small
    ∙ fine_exact (suc m) (finer 60 (suc m) 1) h (reached (suc m) (omega arith))

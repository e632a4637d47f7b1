-- ===== src/Html/Float.antt =====
-- main.py: the cents that the page shows of `amount_cents / 100`, a float of 53 bits.
pub mod Exact
use ix_gateway.Prelude.{
  ℕ, zero, suc, ◌+◌, ◌*◌, ◌/◌, ◌%◌, true, false, ◌≡◌, refl, ltb, leb, if◌then◌else◌,
}

-- The integer that is nearest to a / b, the even one of two.
abbrev pub round_half_even : ℕ → ℕ → ℕ
round_half_even a b =
    if ltb (2 * (a % b)) b
    then a / b
    else if ltb b (2 * (a % b))
    then a / b + 1
    else a / b + a / b % 2

-- The power of two, from k on, by which n / 100 is scaled to have 53 bits before the point.
unfoldable pub finer : (fuel n k : ℕ) → ℕ
finer zero n k = k
finer (suc fuel) n k =
    let rest = finer fuel n (k + k) in if leb 450359962737049600 (n * k) then k else rest

-- The power of two, from d on, by which n / 100 is divided to have 53 bits before the point.
unfoldable pub coarser : (fuel n d : ℕ) → ℕ
coarser zero n d = d
coarser (suc fuel) n d = elim (ltb n (900719925474099200 * d)) [
  | true ↦ d
  | false ↦ coarser fuel n (d + d)
]

-- The division rounds n / 100 to a float, and the format `.2f` rounds the float to cents. A number
-- of cents that is below 100 * 2 ** 53 is scaled up, with 59 doublings at most, and another down.
unfoldable pub shown_cents : ℕ → ℕ
unfolding finer coarser
shown_cents zero = 0
shown_cents (suc m) =
    let k = finer 60 (suc m) 1 in
    let d = coarser (suc m) (suc m) 1 in
    if ltb (suc m) 900719925474099200
    then round_half_even (100 * round_half_even (suc m * k) 100) k
    else 100 * (round_half_even (suc m) (100 * d) * d)

small_cents : shown_cents 1234567 ≡ 1234567
unfolding shown_cents finer
small_cents = refl

-- An amount that a BigInteger column holds, and whose cents are not shown.
large_cents : shown_cents 9007199254740943 ≡ 9007199254740944
unfolding shown_cents finer
large_cents = refl

huge_cents : shown_cents 9223372036854775807 ≡ 9223372036854776000
unfolding shown_cents coarser
huge_cents = refl

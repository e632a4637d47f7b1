-- ===== src/Api/Dashboard/Bounds.antt =====
-- The ranges of a page and its size.
use ix_gateway.Prelude.{ℕ, ◌≤◌, Bool, true, false, Option, none, some, ◌≡◌, ap, arith}
use mathlib.Core.Option.{some-injective}
use ix_gateway.Prelude.Int.{ℤ, pos, negsuc}
use ix_gateway.Api.Dashboard.{TransactionQuery, check_query, in_range, both, three_letters}

in_range-above : (low n : ℕ) (high : Option ℕ) (z : ℤ) → in_range low high z ≡ some n → low ≤ n
in_range-above low n none (pos m) h = ground arith
in_range-above low n (some high) (pos m) h = ground arith
in_range-above low n none (negsuc m) h = cc
in_range-above low n (some high) (negsuc m) h = cc

in_range-below : (low high n : ℕ) (z : ℤ) → in_range low (some high) z ≡ some n → n ≤ high
in_range-below low high n (pos m) h = ground arith
in_range-below low high n (negsuc m) h = cc

both-some :
    (a b : Option ℕ) (fine : Bool) (m n : ℕ)
    → both a b fine ≡ some (m, n)
    → (a ≡ some m) × (b ≡ some n)
both-some none b fine m n h = cc
both-some (some x) none fine m n h = cc
both-some (some x) (some y) true m n h =
    let e = some-injective (x, y) (m, n) h in
    (ap (λ (p : ℕ × ℕ). some p.0) e, ap (λ (p : ℕ × ℕ). some p.1) e)
both-some (some x) (some y) false m n h = cc

-- The page and its size are in their ranges.
pub check_query-bounds :
    (q : TransactionQuery) (page page_size : ℕ)
    → check_query q ≡ some (page, page_size)
    → (1 ≤ page) × (1 ≤ page_size) × (page_size ≤ 500)
unfolding check_query
check_query-bounds q page page_size h =
    let (p, n) =
      both-some (in_range 1 none q.page) (in_range 1 (some 500) q.page_size)
        (three_letters q.currency) page page_size h in
    (
      in_range-above 1 page none q.page p,
      in_range-above 1 page_size (some 500) q.page_size n,
      in_range-below 1 500 page_size q.page_size n,
    )

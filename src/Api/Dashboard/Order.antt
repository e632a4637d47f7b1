-- ===== src/Api/Dashboard/Order.antt =====
-- The order of the list of transactions.
use ix_gateway.Prelude.{
  ℕ, suc, ◌≤◌, Bool, List, [], ◌∷◌, ◌≡◌, refl, ◌∙◌, ap, inl, inr, All, Bool-cases, length, select,
  true, ◌||◌, ltb, arith,
}
use ix_gateway.Models.{PaymentIntent}
use ix_gateway.Api.Dashboard.{is_before, insert_newest, newest_first}

-- Each is at least as new as all those behind it.
abbrev pub IsNewestFirst : List PaymentIntent → Type 0
IsNewestFirst [] = Unit
IsNewestFirst (p ∷ ps) = All (λ q. q.created_at ≤ p.created_at) ps × IsNewestFirst ps

weaken :
    (m n : ℕ) (ps : List PaymentIntent)
    → m ≤ n
    → All (λ q. q.created_at ≤ m) ps
    → All (λ q. q.created_at ≤ n) ps
weaken m n [] le h = tt
weaken m n (p ∷ ps) le (x, h) = (omega arith, weaken m n ps le h)

-- The number of rows with a property.
abbrev pub count_of : (PaymentIntent → Bool) → List PaymentIntent → ℕ
count_of test ps = length (select test ps)

module _ (ties : PaymentIntent → PaymentIntent → Bool) where
  All-insert_newest :
      (P : PaymentIntent → Type 0) (p : PaymentIntent) (ps : List PaymentIntent)
      → P p
      → All P ps
      → All P (insert_newest ties p ps)
  unfolding insert_newest
  All-insert_newest P p [] x h = (x, tt)
  All-insert_newest P p (q ∷ qs) x (y, h) = elim (Bool-cases (is_before ties p q)) [
    | inl before ↦ rw before (x, (y, h))
    | inr behind ↦ rw behind (y, All-insert_newest P p qs x h)
  ]

  pub All-newest_first :
      (P : PaymentIntent → Type 0) (ps : List PaymentIntent)
      → All P ps
      → All P (newest_first ties ps)
  unfolding newest_first
  All-newest_first P [] h = tt
  All-newest_first P (p ∷ ps) (x, h) =
      All-insert_newest P p (newest_first ties ps) x (All-newest_first P ps h)

  IsNewestFirst-insert_newest :
      (p : PaymentIntent) (ps : List PaymentIntent)
      → IsNewestFirst ps
      → IsNewestFirst (insert_newest ties p ps)
  unfolding insert_newest
  IsNewestFirst-insert_newest p [] h = (tt, tt)
  IsNewestFirst-insert_newest p (q ∷ qs) (x, h) = elim (Bool-cases (is_before ties p q)) [
    | inl before ↦
        let le : q.created_at ≤ p.created_at = ground arith in
        rw before ((le, weaken q.created_at p.created_at qs le x), (x, h))
    | inr behind ↦
        let le : p.created_at ≤ q.created_at = ground arith in
        rw behind (
          All-insert_newest (λ r. r.created_at ≤ q.created_at) p qs le x,
          IsNewestFirst-insert_newest p qs h,
        )
  ]

  pub newest_first-IsNewestFirst : (ps : List PaymentIntent) → IsNewestFirst (newest_first ties ps)
  unfolding newest_first
  newest_first-IsNewestFirst [] = tt
  newest_first-IsNewestFirst (p ∷ ps) =
      IsNewestFirst-insert_newest p (newest_first ties ps) (newest_first-IsNewestFirst ps)

  count_of-insert_newest :
      (test : PaymentIntent → Bool) (p : PaymentIntent) (ps : List PaymentIntent)
      → count_of test (insert_newest ties p ps) ≡ count_of test (p ∷ ps)
  unfolding insert_newest
  count_of-insert_newest test p [] = refl
  count_of-insert_newest test p (q ∷ qs) = grind (arith, count_of-insert_newest test p qs)

  pub count_of-newest_first :
      (test : PaymentIntent → Bool) (ps : List PaymentIntent)
      → count_of test (newest_first ties ps) ≡ count_of test ps
  unfolding newest_first
  count_of-newest_first test [] = refl
  count_of-newest_first test (p ∷ ps) =
      count_of-insert_newest test p (newest_first ties ps)
      ∙ grind (arith, count_of-newest_first test ps)

  length-insert_newest :
      (p : PaymentIntent) (ps : List PaymentIntent)
      → length (insert_newest ties p ps) ≡ suc (length ps)
  unfolding insert_newest
  length-insert_newest p [] = refl
  length-insert_newest p (q ∷ qs) = ground (arith, length-insert_newest p qs)

  pub length-newest_first : (ps : List PaymentIntent) → length (newest_first ties ps) ≡ length ps
  unfolding newest_first
  length-newest_first [] = refl
  length-newest_first (p ∷ ps) =
      length-insert_newest p (newest_first ties ps) ∙ ap suc (length-newest_first ps)

-- No two rows have one time.
abbrev apart : PaymentIntent → PaymentIntent → Bool
apart p q = ltb q.created_at p.created_at || ltb p.created_at q.created_at

abbrev pub HasDistinctTimes : List PaymentIntent → Type 0
HasDistinctTimes [] = Unit
HasDistinctTimes (p ∷ ps) = All (λ q. apart p q ≡ true) ps × HasDistinctTimes ps

-- Then the order leaves nothing open.
module _ (ties others : PaymentIntent → PaymentIntent → Bool) where
  is_before_any :
      (p q : PaymentIntent) → apart p q ≡ true → is_before ties p q ≡ is_before others p q
  is_before_any p q h = ground arith

  insert_newest_any :
      (p : PaymentIntent) (ps : List PaymentIntent)
      → All (λ q. apart p q ≡ true) ps
      → insert_newest ties p ps ≡ insert_newest others p ps
  unfolding insert_newest
  insert_newest_any p [] h = refl
  insert_newest_any p (q ∷ qs) (x, h) = rw (is_before_any p q x, insert_newest_any p qs h) refl

  pub newest_first_any :
      (ps : List PaymentIntent)
      → HasDistinctTimes ps
      → newest_first ties ps ≡ newest_first others ps
  unfolding newest_first
  newest_first_any [] h = refl
  newest_first_any (p ∷ ps) (x, h) =
      ap (insert_newest ties p) (newest_first_any ps h)
      ∙ insert_newest_any p (newest_first others ps)
          (All-newest_first others (λ q. apart p q ≡ true) ps x)

-- ===== src/Reconciliation/Day/Sums.antt =====
-- A dictionary summed over ids.
use ix_gateway.Prelude.{
  String, Bool, true, false, ◌||◌, Option, none, some, List, [], ◌∷◌, ◌≡◌, refl, sym, ◌∙◌, ap, inl,
  inr, Bool-cases, ◌==◌, arith, eq_refl,
}
use ix_gateway.Prelude.Int.{ℤ, pos, ◌+ℤ◌, int_laws}
use ix_gateway.Prelude.Dict.{get, keys, mem, is_some, eq_of_==, mem-keys, total, ==-false_symm}
use ix_gateway.Prelude.Dict.Distinct.{IsDistinct, first_false, second_false}
use ix_gateway.Reconciliation.Day.{or_zero}

abbrev pub sum_over : List String → List (String × ℤ) → ℤ
sum_over [] d = pos 0
sum_over (k ∷ ks) d = or_zero (get k d) +ℤ sum_over ks d

sum_over_empty : (ids : List String) → sum_over ids [] ≡ pos 0
unfolding get
sum_over_empty [] = refl
sum_over_empty (k ∷ ids) = rw (sum_over_empty ids) (grind int_laws)

-- An entry whose key is not among the ids does not count.
sum_over_other :
    (ids : List String) (k : String) (v : ℤ) (d : List (String × ℤ))
    → mem k ids ≡ false
    → sum_over ids ((k, v) ∷ d) ≡ sum_over ids d
unfolding get
sum_over_other [] k v d h = refl
sum_over_other (j ∷ ids) k v d h =
    rw
      (
        ==-false_symm j k (first_false (j == k) (mem k ids) h),
        sum_over_other ids k v d (second_false (j == k) (mem k ids) h),
      )
      refl

none_of : {A : Type 0} (o : Option A) → is_some o ≡ false → o ≡ none
none_of none h = refl
none_of (some a) h = cc

swap_front : (j v rest : ℤ) → j +ℤ (v +ℤ rest) ≡ v +ℤ (j +ℤ rest)
swap_front j v rest = grind int_laws

-- One whose key is among them counts once.
sum_over_one :
    (ids : List String) (k : String) (v : ℤ) (d : List (String × ℤ))
    → IsDistinct ids
    → mem k ids ≡ true
    → mem k (keys d) ≡ false
    → sum_over ids ((k, v) ∷ d) ≡ v +ℤ sum_over ids d
unfolding get
sum_over_one [] k v d distinct h new = cc
sum_over_one (j ∷ ids) k v d (apart, distinct) h new = elim (Bool-cases (k == j)) [
  | inl same ↦
      let here : k ≡ j = eq_of_== k j same in
      rw
        (
          same,
          sum_over_other ids k v d (ap (λ l. mem l ids) here ∙ apart),
          sym here,
          none_of (get k d) (sym (mem-keys k d) ∙ new),
        )
        (grind int_laws)
  | inr other ↦
      rw (other, sum_over_one ids k v d distinct ((rw (==-false_symm k j other) at h)) new)
        (swap_front (or_zero (get j d)) v (sum_over ids d))
]

-- Ids without a repetition, the keys among them, sum to the total.
pub sum_over-total :
    (ids : List String) (d : List (String × ℤ))
    → IsDistinct ids
    → IsDistinct (keys d)
    → ((k : String) → mem k (keys d) ≡ true → mem k ids ≡ true)
    → sum_over ids d ≡ total d
unfolding total
sum_over-total ids [] distinct known among = sum_over_empty ids
sum_over-total ids ((k, v) ∷ d) distinct (new, known) among =
    sum_over_one ids k v d distinct (among k (or_same (k == k) (mem k (keys d)) (eq_refl k))) new
    ∙ ap (λ n. v +ℤ n)
        (sum_over-total ids d distinct known
          (λ j h. among j (or_right (k == j) (mem j (keys d)) h)))
  where
    or_same : (a b : Bool) → a ≡ true → (a || b) ≡ true
    or_same a b h = ground arith

    or_right : (a b : Bool) → b ≡ true → (a || b) ≡ true
    or_right a b h = ground arith

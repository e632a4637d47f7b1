-- ===== src/Prelude/Dict/Distinct.antt =====
-- Dictionaries and sets without repetitions.
use mathlib.Core.Path.{◌≡◌, refl, ◌∙◌}
use mathlib.Core.Bool.{Bool, false, ◌||◌}
use mathlib.Core.List.{List, [], ◌∷◌, ◌++◌}
use mathlib.Core.Logic.{inl, inr}
use Prim.Native.String.{String}
use native.Mathlib.Omega.{arith}
use text.Mathlib.Text.{◌==◌}
use ix_gateway.Prelude.Tests.{Bool-cases}
use ix_gateway.Prelude.Dict.{
  leb_text, mem, set_key, keys, union, insert_text, sorted, any-append, mem-insert_text, mem-sorted,
  eq_of_==, ==-false_symm,
}

abbrev pub IsDistinct : List String → Type 0
IsDistinct [] = Unit
IsDistinct (k ∷ ks) = (mem k ks ≡ false) × IsDistinct ks

pub both_false : (a b : Bool) → a ≡ false → b ≡ false → (a || b) ≡ false
both_false a b h k = ground arith

pub first_false : (a b : Bool) → (a || b) ≡ false → a ≡ false
first_false a b h = ground arith

pub second_false : (a b : Bool) → (a || b) ≡ false → b ≡ false
second_false a b h = ground arith

IsDistinct-insert_text :
    (k : String) (ks : List String)
    → mem k ks ≡ false
    → IsDistinct ks
    → IsDistinct (insert_text k ks)
unfolding insert_text
IsDistinct-insert_text k [] new d = (refl, tt)
IsDistinct-insert_text k (j ∷ js) new (apart, d) = elim (Bool-cases (leb_text k j)) [
  | inl low ↦ rw low (new, (apart, d))
  | inr high ↦ rw high (
    mem-insert_text j k js
        ∙ both_false (k == j) (mem j js) (==-false_symm j k (first_false (j == k) (mem k js) new))
            apart,
    IsDistinct-insert_text k js (second_false (j == k) (mem k js) new) d,
  )
]

pub IsDistinct-sorted : (ks : List String) → IsDistinct ks → IsDistinct (sorted ks)
unfolding sorted
IsDistinct-sorted [] d = tt
IsDistinct-sorted (k ∷ ks) (new, d) =
    IsDistinct-insert_text k (sorted ks) (mem-sorted k ks ∙ new) (IsDistinct-sorted ks d)

pub IsDistinct-append :
    (ks : List String) (b : String) → mem b ks ≡ false → IsDistinct ks → IsDistinct (ks ++ b ∷ [])
IsDistinct-append [] b new d = (refl, tt)
IsDistinct-append (k ∷ ks) b new (apart, d) = (
  any-append (λ j. j == k) ks (b ∷ [])
      ∙ both_false (mem k ks) ((b == k) || false) apart (
          both_false (b == k) false (==-false_symm k b (first_false (k == b) (mem b ks) new)) refl),
  IsDistinct-append ks b (second_false (k == b) (mem b ks) new) d,
)

pub IsDistinct-union : (ks bs : List String) → IsDistinct ks → IsDistinct (union ks bs)
unfolding union
IsDistinct-union ks [] d = d
IsDistinct-union ks (b ∷ bs) d = elim (Bool-cases (mem b ks)) [
  | inl there ↦ rw there (IsDistinct-union ks bs d)
  | inr new ↦ rw new (IsDistinct-union (ks ++ b ∷ []) bs (IsDistinct-append ks b new d))
]

module _ {A : Type 0} where
  pub mem-set_key :
      (k j : String) (v : A) (d : List (String × A))
      → mem k (keys (set_key j v d)) ≡ (mem k (keys d) || (j == k))
  unfolding set_key
  mem-set_key k j v [] = ground arith
  mem-set_key k j v ((i, w) ∷ d) = elim (Bool-cases (i == j)) [
    | inl same ↦ rw (same, eq_of_== i j same) (again (j == k) (mem k (keys d)))
    | inr other ↦ rw (other, mem-set_key k j v d) (assoc (i == k) (mem k (keys d)) (j == k))
  ]
    where
      again : (a m : Bool) → (a || m) ≡ ((a || m) || a)
      again a m = ground arith

      assoc : (a m b : Bool) → (a || (m || b)) ≡ ((a || m) || b)
      assoc a m b = ground arith

  pub IsDistinct-set_key :
      (k : String) (v : A) (d : List (String × A))
      → IsDistinct (keys d)
      → IsDistinct (keys (set_key k v d))
  unfolding set_key
  IsDistinct-set_key k v [] h = (refl, tt)
  IsDistinct-set_key k v ((i, w) ∷ d) (apart, h) = elim (Bool-cases (i == k)) [
    | inl same ↦ rw same (apart, h)
    | inr other ↦ rw other (
      mem-set_key i k v d ∙ both_false (mem i (keys d)) (k == i) apart (==-false_symm i k other),
      IsDistinct-set_key k v d h,
    )
  ]

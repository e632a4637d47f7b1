-- ===== src/Prelude/Dict.antt =====
-- A `dict` with texts as keys, in the order of insertion, and sets of texts.
pub mod Distinct
pub mod Items
use Prim.Native.Nat.{Ordering}
use Prim.Native.String.{String, compare}
use mathlib.Core.Path.{◌≡◌, refl, ap, sym, ◌∙◌}
use mathlib.Core.Bool.{Bool, true, false, ◌||◌}
use mathlib.Core.Option.{Option, none, some}
use mathlib.Core.List.{List, [], ◌∷◌, ◌++◌}
use mathlib.Core.Logic.{inl, inr}
use native.Mathlib.Omega.{arith}
use text.Mathlib.Text.{◌==◌}
use text.Mathlib.TextEquality.{eq_iff}
use ix_gateway.Prelude.Tests.{if◌then◌else◌, Bool-cases}
use ix_gateway.Prelude.Lists.{any}
use ix_gateway.Prelude.Int.{ℤ, pos, ◌+ℤ◌}

-- `a <= b` on texts, by code points.
abbrev pub leb_text : String → String → Bool
leb_text a b = elim (compare a b) [ Ordering.gt ↦ false | _ ↦ true ]

abbrev pub mem : String → List String → Bool
mem k ks = any (λ j. j == k) ks

module _ {A : Type 0} where
  -- `d.get(k)`
  unfoldable pub get : String → List (String × A) → Option A
  get k [] = none
  get k ((j, v) ∷ d) = if j == k then some v else get k d

  -- `d[k] = v`
  unfoldable pub set_key : String → A → List (String × A) → List (String × A)
  set_key k v [] = (k, v) ∷ []
  set_key k v ((j, w) ∷ d) = if j == k then (j, v) ∷ d else (j, w) ∷ set_key k v d

  abbrev pub keys : List (String × A) → List String
  keys [] = []
  keys ((k, v) ∷ d) = k ∷ keys d

-- `sum(d.values())`
unfoldable pub total : List (String × ℤ) → ℤ
total [] = pos 0
total ((k, n) ∷ d) = n +ℤ total d

-- `set(a) | set(b)`, as a list without repetitions if `a` has none.
unfoldable pub union : List String → List String → List String
union ks [] = ks
union ks (b ∷ bs) = union (if mem b ks then ks else ks ++ b ∷ []) bs

-- `sorted`
unfoldable pub insert_text : String → List String → List String
insert_text k [] = k ∷ []
insert_text k (j ∷ js) =
    let rest = insert_text k js in if leb_text k j then k ∷ j ∷ js else j ∷ rest

unfoldable pub sorted : List String → List String
unfolding insert_text
sorted [] = []
sorted (k ∷ ks) = insert_text k (sorted ks)

abbrev pub is_some {ℓ} : {A : Type ℓ} → Option A → Bool
is_some none = false
is_some (some a) = true

pub eq_of_== : (a b : String) → (a == b) ≡ true → a ≡ b
eq_of_== a b h = ground (arith, eq_iff a b)

pub ==-false_symm : (a b : String) → (a == b) ≡ false → (b == a) ≡ false
==-false_symm a b h = ground (arith, eq_iff a b, eq_iff b a)

pub any-append {ℓ} :
    {A : Type ℓ} (p : A → Bool) (xs ys : List A) → any p (xs ++ ys) ≡ (any p xs || any p ys)
any-append p [] ys = refl
any-append p (x ∷ xs) ys = ground (arith, any-append p xs ys)

pub or_true : (a : Bool) → (a || true) ≡ true
or_true a = ground arith

or_shift : (a b c : Bool) → ((a || (b || false)) || c) ≡ (a || (b || c))
or_shift a b c = ground arith

or_swap : (a b c : Bool) → (a || (b || c)) ≡ (b || (a || c))
or_swap a b c = ground arith

pub mem-union : (k : String) (ks bs : List String) → mem k (union ks bs) ≡ (mem k ks || mem k bs)
unfolding union
mem-union k ks [] = ground arith
mem-union k ks (b ∷ bs) = elim (Bool-cases (mem b ks)) [
  | inl there ↦ elim (Bool-cases (b == k)) [
    | inl same ↦
        rw (there, same)
          (mem-union k ks bs
            ∙ ap (λ m. m || mem k bs) (ap (λ j. mem j ks) (sym (eq_of_== b k same)) ∙ there)
            ∙ sym (or_true (mem k ks)))
    | inr other ↦ rw (there, other) (mem-union k ks bs)
  ]
  | inr new ↦ rw new (
      mem-union k (ks ++ b ∷ []) bs
      ∙ ap (λ m. m || mem k bs) (any-append (λ j. j == k) ks (b ∷ []))
      ∙ or_shift (mem k ks) (b == k) (mem k bs))
]

pub mem-insert_text :
    (k j : String) (js : List String) → mem k (insert_text j js) ≡ ((j == k) || mem k js)
unfolding insert_text
mem-insert_text k j [] = refl
mem-insert_text k j (i ∷ js) = elim (Bool-cases (leb_text j i)) [
  | inl low ↦ rw low refl
  | inr high ↦ rw (high, mem-insert_text k j js) (or_swap (i == k) (j == k) (mem k js))
]

pub mem-sorted : (k : String) (ks : List String) → mem k (sorted ks) ≡ mem k ks
unfolding sorted
mem-sorted k [] = refl
mem-sorted k (j ∷ js) = rw (mem-insert_text k j (sorted js), mem-sorted k js) refl

pub mem-keys :
    {A : Type 0} (k : String) (d : List (String × A)) → mem k (keys d) ≡ is_some (get k d)
unfolding get
mem-keys k [] = refl
mem-keys k ((j, v) ∷ d) = ground (arith, mem-keys k d)

pub get-set_key :
    {A : Type 0} (k j : String) (v : A) (d : List (String × A))
    → get k (set_key j v d) ≡ (if j == k then some v else get k d)
unfolding get set_key
get-set_key k j v [] = refl
get-set_key k j v ((i, w) ∷ d) = elim (Bool-cases (i == j)) [
  | inl same ↦ rw (same, eq_of_== i j same) (again (j == k) (some v) (some w) (get k d))
  | inr other ↦ elim (Bool-cases (i == k)) [
    | inl here ↦ rw (other, here, sym (eq_of_== i k here), ==-false_symm i j other) refl
    | inr elsewhere ↦ rw (other, elsewhere) (get-set_key k j v d)
  ]
]
  where
    again :
        {A : Type 0} (b : Bool) (x y z : A)
        → (if b then x else z) ≡ (if b then x else if b then y else z)
    again true x y z = refl
    again false x y z = refl

module _ {A : Type 0} where
  unfoldable pub insert_item : String → A → List (String × A) → List (String × A)
  insert_item k v [] = (k, v) ∷ []
  insert_item k v ((j, w) ∷ d) =
      let rest = insert_item k v d in if leb_text k j then (k, v) ∷ (j, w) ∷ d else (j, w) ∷ rest

  -- `sorted(d.items())`: the keys of a dictionary are different, so that they decide.
  unfoldable pub sorted_items : List (String × A) → List (String × A)
  unfolding insert_item
  sorted_items [] = []
  sorted_items ((k, v) ∷ d) = insert_item k v (sorted_items d)

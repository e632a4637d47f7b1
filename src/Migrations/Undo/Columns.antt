-- ===== src/Migrations/Undo/Columns.antt =====
-- A column that is added and dropped.
use mathlib.Core.Option.{some-injective}
use ix_gateway.Prelude.{
  String, true, Option, none, some, List, [], ◌∷◌, ◌++◌, ◌≡◌, refl, ◌∙◌, sym, inl, inr, All,
  Bool-cases, Option-cases, ◌==◌,
}
use ix_gateway.Migrations.{
  Column, Table, Index, Schema, add_column, has, change, head_changed, cons_changed, table_name,
  column_name, with_column, without_column, is_known, all_known, apply,
}
use ix_gateway.Migrations.Closed.{IsClosed, both_true}
use ix_gateway.Migrations.Undo.{IsUndone, has_last, remove_last}

some_head :
    (xs : List Table) (o : Option Table) (ys : List Table)
    → head_changed xs o ≡ some ys
    → (y : Table) × (o ≡ some y) × (ys ≡ y ∷ xs)
some_head xs none ys h = cc
some_head xs (some y) ys h = (y, refl, sym (some-injective (y ∷ xs) ys h))

some_cons :
    (x : Table) (o : Option (List Table)) (ys : List Table)
    → cons_changed x o ≡ some ys
    → (zs : List Table) × (o ≡ some zs) × (ys ≡ x ∷ zs)
some_cons x none ys h = cc
some_cons x (some zs) ys h = (zs, refl, sym (some-injective (x ∷ zs) ys h))

-- What a change of one table, which keeps its name, does to all: it can be reversed, the names stay,
-- and a property that it keeps holds of all again.
module _ (f g : Table → Option Table)
    (back : (x y : Table) → f x ≡ some y → (g y ≡ some x) × (y.name ≡ x.name)) where
  change_back :
      (k : String) (xs ys : List Table)
      → change table_name k f xs ≡ some ys
      → change table_name k g ys ≡ some xs
  unfolding change
  change_back k [] ys h = cc
  change_back k (x ∷ xs) ys h = elim (Bool-cases (x.name == k)) [
    | inl here ↦
        let (y, e, e') = some_head xs (f x) ys (rw here at h) in
        let (b, same) = back x y e in rw (e', same, here, b) refl
    | inr behind ↦
        let (zs, e, e') = some_cons x (change table_name k f xs) ys (rw behind at h) in
        rw (e', behind, change_back k xs zs e) refl
  ]

  has-change :
      (k j : String) (xs ys : List Table)
      → change table_name k f xs ≡ some ys
      → has table_name j ys ≡ has table_name j xs
  unfolding change
  has-change k j [] ys h = cc
  has-change k j (x ∷ xs) ys h = elim (Bool-cases (x.name == k)) [
    | inl here ↦
        let (y, e, e') = some_head xs (f x) ys (rw here at h) in rw (e', (back x y e).1) refl
    | inr behind ↦
        let (zs, e, e') = some_cons x (change table_name k f xs) ys (rw behind at h) in
        rw (e', has-change k j xs zs e) refl
  ]

  All-change :
      (P : Table → Type 0)
      → ((x y : Table) → f x ≡ some y → P x → P y)
      → (k : String) (xs ys : List Table) → change table_name k f xs ≡ some ys
      → All P xs
      → All P ys
  unfolding change
  All-change P keeps k [] ys h all = cc
  All-change P keeps k (x ∷ xs) ys h (p, all) = elim (Bool-cases (x.name == k)) [
    | inl here ↦ let (y, e, e') = some_head xs (f x) ys (rw here at h) in rw e' (keeps x y e p, all)
    | inr behind ↦
        let (zs, e, e') = some_cons x (change table_name k f xs) ys (rw behind at h) in
        rw e' (p, All-change P keeps k xs zs e all)
  ]

with_column_back :
    (c : Column) (x y : Table)
    → with_column c x ≡ some y
    → (without_column c.name y ≡ some x) × (y.name ≡ x.name)
with_column_back c x y h = elim (Bool-cases (has column_name c.name x.columns)) [
  | inl taken ↦ let clash : none ≡ some y = (rw taken at h) in cc
  | inr new ↦
      let e : record x { columns = x.columns ++ c ∷ [] } ≡ y =
        some-injective (record x { columns = x.columns ++ c ∷ [] }) y (rw new at h) in
      rw (sym e)
        (rw (has_last column_name c x.columns, remove_last column_name c x.columns new) refl, refl)
]

all_known-append :
    (ts : List Table) (cs ds : List Column)
    → all_known ts cs ≡ true
    → all_known ts ds ≡ true
    → all_known ts (cs ++ ds) ≡ true
all_known-append ts [] ds h k = k
all_known-append ts (c ∷ cs) ds h k =
    let (first, rest) = both_true (is_known ts c.foreign_key) (all_known ts cs) h in
    rw (first, all_known-append ts cs ds rest k) refl

with_column_known :
    (ts : List Table) (c : Column) (x y : Table)
    → is_known ts c.foreign_key ≡ true
    → with_column c x ≡ some y
    → all_known ts x.columns ≡ true
    → all_known ts y.columns ≡ true
with_column_known ts c x y known h all = elim (Bool-cases (has column_name c.name x.columns)) [
  | inl taken ↦ let clash : none ≡ some y = (rw taken at h) in cc
  | inr new ↦
      let e : record x { columns = x.columns ++ c ∷ [] } ≡ y =
        some-injective (record x { columns = x.columns ++ c ∷ [] }) y (rw new at h) in
      rw (sym e) (all_known-append ts x.columns (c ∷ []) all (rw known refl))
]

-- Tables of the same names.
module _ (ts us : List Table)
    (same : (j : String) → has table_name j us ≡ has table_name j ts) where
  known_same : (key : Option (String × String)) → is_known us key ≡ is_known ts key
  known_same none = refl
  known_same (some (t, column)) = same t

  all_known_same : (cs : List Column) → all_known us cs ≡ all_known ts cs
  all_known_same [] = refl
  all_known_same (c ∷ cs) = rw (known_same c.foreign_key, all_known_same cs) refl

  tables_same :
      (vs : List Table)
      → All (λ t. all_known ts t.columns ≡ true) vs
      → All (λ t. all_known us t.columns ≡ true) vs
  tables_same [] h = tt
  tables_same (v ∷ vs) (x, h) = (all_known_same v.columns ∙ x, tables_same vs h)

  indexes_same :
      (is : List Index)
      → All (λ i. has table_name i.table ts ≡ true) is
      → All (λ i. has table_name i.table us ≡ true) is
  indexes_same [] h = tt
  indexes_same (i ∷ is) (x, h) = (same i.table ∙ x, indexes_same is h)

pub add_column-IsUndone :
    (t : String) (c : Column) (s : Schema) → IsClosed s → IsUndone (add_column t c) s
unfolding apply
add_column-IsUndone t c s (tables, indexes) = elim (Bool-cases (is_known s.tables c.foreign_key)) [
  | inr unknown ↦ rw unknown (inl refl)
  | inl known ↦ elim (Option-cases (change table_name t (with_column c) s.tables)) [
    | inl failed ↦ rw (known, failed) (inl refl)
    | inr (ts, changed) ↦
        let back = with_column_back c in
        let same : (j : String) → has table_name j ts ≡ has table_name j s.tables =
          λ j. has-change (with_column c) (without_column c.name) back t j s.tables ts changed in
        inr (
          record s { tables = ts },
          rw (known, changed) refl,
          rw (change_back (with_column c) (without_column c.name) back t s.tables ts changed) refl,
          (
            tables_same s.tables ts same ts (
                All-change (with_column c) (without_column c.name) back
                  (λ u. all_known s.tables u.columns ≡ true)
                  (λ x y e all. with_column_known s.tables c x y known e all) t s.tables ts changed
                  tables),
            indexes_same s.tables ts same s.indexes indexes,
          ),
        )
  ]
]

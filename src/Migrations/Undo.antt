-- ===== src/Migrations/Undo.antt =====
-- Operations that undo one another.
pub mod Columns
pub mod Whole
use mathlib.Core.Path.{subst}
use mathlib.Core.Option.{some-injective}
use ix_gateway.Prelude.{
  ◌⊎◌, ℕ, String, Bool, true, false, not, ◌&&◌, ◌||◌, Option, none, some, List, [], ◌∷◌, ◌++◌, ◌≡◌,
  refl, ◌∙◌, sym, ap, inl, inr, any, All, All-append, Bool-cases, Option-cases, if◌then◌else◌, ◌==◌,
  eq_refl, arith,
}
use ix_gateway.Prelude.Dict.{eq_of_==, any-append}
use ix_gateway.Prelude.Dict.Distinct.{both_false, first_false, second_false}
use ix_gateway.Migrations.Closed.{
  IsClosed, unreferred, unindexed, all_known_more, tables_more, indexes_more,
}
use ix_gateway.Migrations.{
  Column, Table, Index, Enum, Schema, Operation, create_enum, drop_enum, create_table, drop_table,
  create_index, drop_index, add_column, drop_column, has, remove, change, table_name, enum_name,
  index_name, column_name, with_column, without_column, set_tables, is_known, all_known, refers,
  any_refers, apply, and_apply, run,
}

-- The operation that undoes a create or an add.
abbrev pub inverse : Operation → Operation
inverse (create_enum e) = drop_enum e
inverse (create_table t) = drop_table t.name
inverse (create_index i) = drop_index i.name i.table
inverse (add_column t c) = drop_column t c.name
inverse o = o

abbrev pub undo : List Operation → List Operation
undo [] = []
undo (o ∷ os) = undo os ++ inverse o ∷ []

-- The creates and adds.
abbrev pub IsForward : Operation → Type 0
IsForward (create_enum e) = Unit
IsForward (create_table t) = Unit
IsForward (create_index i) = Unit
IsForward (add_column t c) = Unit
IsForward _ = ⊥

-- An enum that is created is not there yet.
abbrev pub IsNew : Operation → Schema → Type 0
IsNew (create_enum e) s = has enum_name e.name s.enums ≡ false
IsNew _ s = Unit

module _ {A : Type 0} (name_of : A → String) where
  pub remove_absent :
      (k : String) (xs : List A) → has name_of k xs ≡ false → remove name_of k xs ≡ xs
  unfolding remove
  remove_absent k [] h = refl
  remove_absent k (x ∷ xs) h =
      rw
        (
          first_false (name_of x == k) (has name_of k xs) h,
          remove_absent k xs (second_false (name_of x == k) (has name_of k xs) h),
        )
        refl

  -- What was put at the end is removed again.
  pub remove_last :
      (x : A) (xs : List A)
      → has name_of (name_of x) xs ≡ false
      → remove name_of (name_of x) (xs ++ x ∷ []) ≡ xs
  unfolding remove
  remove_last x [] h = rw (eq_refl (name_of x)) refl
  remove_last x (y ∷ xs) h =
      rw
        (
          first_false (name_of y == name_of x) (has name_of (name_of x) xs) h,
          remove_last x xs (second_false (name_of y == name_of x) (has name_of (name_of x) xs) h),
        )
        refl

  pub has_last : (x : A) (xs : List A) → has name_of (name_of x) (xs ++ x ∷ []) ≡ true
  has_last x xs =
      any-append (λ y. name_of y == name_of x) xs (x ∷ [])
      ∙ rw (eq_refl (name_of x)) (or_true (has name_of (name_of x) xs))
    where
      or_true : (a : Bool) → (a || (true || false)) ≡ true
      or_true a = ground arith

-- An operation fails, or has an outcome that its inverse undoes and that is closed again.
abbrev pub IsUndone : Operation → Schema → Type 0
IsUndone o s =
    (apply o s ≡ none)
    ⊎ ((t : Schema) × (apply o s ≡ some t) × (apply (inverse o) t ≡ some s) × IsClosed t)

pub create_enum-IsUndone :
    (e : Enum) (s : Schema)
    → IsClosed s
    → has enum_name e.name s.enums ≡ false
    → IsUndone (create_enum e) s
unfolding apply
create_enum-IsUndone e s closed new = inr (
  record s { enums = s.enums ++ e ∷ [] },
  rw new refl,
  rw (remove_last enum_name e s.enums new) refl,
  closed,
)

pub create_index-IsUndone : (i : Index) (s : Schema) → IsClosed s → IsUndone (create_index i) s
unfolding apply
create_index-IsUndone i s (tables, indexes) = elim (Bool-cases (has index_name i.name s.indexes)) [
  | inl taken ↦ rw taken (inl refl)
  | inr new ↦ elim (Bool-cases (has table_name i.table s.tables)) [
    | inr missing ↦ rw (new, missing) (inl refl)
    | inl there ↦ inr (
      record s { indexes = s.indexes ++ i ∷ [] },
      rw (new, there) refl,
      rw (has_last index_name i s.indexes, remove_last index_name i s.indexes new) refl,
      (
        tables,
        All-append (λ j. has table_name j.table s.tables ≡ true) s.indexes (i ∷ []) indexes
            (there, tt),
      ),
    )
  ]
]

pub create_table-IsUndone : (t : Table) (s : Schema) → IsClosed s → IsUndone (create_table t) s
unfolding apply
create_table-IsUndone t s (tables, indexes) = elim (Bool-cases (has table_name t.name s.tables)) [
  | inl taken ↦ rw taken (inl refl)
  | inr new ↦ elim (Bool-cases (all_known s.tables t.columns)) [
    | inr unknown ↦ rw (new, unknown) (inl refl)
    | inl known ↦ inr (
      record s { tables = s.tables ++ t ∷ [] },
      rw (new, known) refl,
      rw
          (
            has_last table_name t s.tables,
            remove_last table_name t s.tables new,
            unreferred t.name s.tables s.tables new tables,
            remove_absent (λ (i : Index). i.table) t.name s.indexes
                (unindexed t.name s.tables s.indexes new indexes),
          )
          refl,
      (
        All-append (λ u. all_known (s.tables ++ t ∷ []) u.columns ≡ true) s.tables (t ∷ [])
            (tables_more s.tables (t ∷ []) s.tables tables)
            (all_known_more s.tables (t ∷ []) t.columns known, tt),
        indexes_more s.tables (t ∷ []) s.indexes indexes,
      ),
    )
  ]
]

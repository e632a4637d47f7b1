-- ===== src/Migrations.antt =====
-- alembic/versions/: the migrations, as lists of the operations of Alembic, and what these do to a
-- schema: its enums, tables and indexes. `none` is an error of the database.
pub mod Initial
pub mod Later
pub mod Closed
pub mod Undo
pub mod Downgrade
use ix_gateway.Prelude.{
  ℕ, String, Bool, true, false, not, ◌&&◌, ◌||◌, Option, none, some, List, [], ◌∷◌, ◌++◌, any,
  if◌then◌else◌, ◌==◌,
}

pub data ColumnType : Type 0 where
  varchar : ℕ → ColumnType
  big_integer integer boolean jsonb date timestamp_tz : ColumnType
  enum : String → ColumnType

-- `sa.Column`: `server_default` is the text of the default, and `foreign_key` the table and the
-- column that are referred to, with ON DELETE RESTRICT.
pub record Column : Type 0 where
  pub name : String
  pub type : ColumnType
  pub primary_key : Bool
  pub nullable : Bool
  pub unique : Bool
  pub server_default : Option String
  pub foreign_key : Option (String × String)

abbrev pub column : String → ColumnType → Column
column name type = record {
  name = name;
  type = type;
  primary_key = false;
  nullable = false;
  unique = false;
  server_default = none;
  foreign_key = none;
}

abbrev pub optional_column : String → ColumnType → Column
optional_column name type = record (column name type) { nullable = true }

abbrev pub key_column : String → ColumnType → Column
key_column name type = record (column name type) { primary_key = true }

-- `unique_constraints` has the name and the column of each `sa.UniqueConstraint`.
pub record Table : Type 0 where
  pub name : String
  pub columns : List Column
  pub unique_constraints : List (String × String)

pub record Index : Type 0 where
  pub name : String
  pub table : String
  pub columns : List String

pub record Enum : Type 0 where
  pub name : String
  pub labels : List String

pub record Schema : Type 0 where
  pub enums : List Enum
  pub tables : List Table
  pub indexes : List Index

pub data Operation : Type 0 where
  create_enum drop_enum : Enum → Operation
  create_table : Table → Operation
  drop_table : String → Operation
  create_index : Index → Operation
  drop_index : (name table : String) → Operation
  add_column : (table : String) → Column → Operation
  drop_column : (table column : String) → Operation

pub record Migration : Type 0 where
  pub revision : String
  pub down_revision : Option String
  pub upgrade : List Operation
  pub downgrade : List Operation

abbrev pub cons_changed : {A : Type 0} → A → Option (List A) → Option (List A)
cons_changed x none = none
cons_changed x (some xs) = some (x ∷ xs)

abbrev pub head_changed : {A : Type 0} → List A → Option A → Option (List A)
head_changed xs none = none
head_changed xs (some y) = some (y ∷ xs)

module _ {A : Type 0} (name_of : A → String) where
  abbrev pub has : String → List A → Bool
  has k xs = any (λ x. name_of x == k) xs

  -- Without those of the name.
  unfoldable pub remove : String → List A → List A
  remove k [] = []
  remove k (x ∷ xs) = let rest = remove k xs in if name_of x == k then rest else x ∷ rest

  -- The one of the name, changed; `none` if there is none, or the change fails.
  unfoldable pub change : String → (A → Option A) → List A → Option (List A)
  change k f [] = none
  change k f (x ∷ xs) =
      let rest = change k f xs in
      if name_of x == k then head_changed xs (f x) else cons_changed x rest

abbrev pub enum_name : Enum → String
enum_name e = e.name

abbrev pub table_name : Table → String
table_name t = t.name

abbrev pub index_name : Index → String
index_name i = i.name

abbrev pub column_name : Column → String
column_name c = c.name

abbrev pub with_column : Column → Table → Option Table
with_column c t =
    if has column_name c.name t.columns
    then none
    else some (record t { columns = t.columns ++ c ∷ [] })

abbrev pub without_column : String → Table → Option Table
without_column c t =
    if has column_name c t.columns
    then some (record t { columns = remove column_name c t.columns })
    else none

abbrev pub set_tables : Schema → Option (List Table) → Option Schema
set_tables s none = none
set_tables s (some tables) = some (record s { tables = tables })

-- The tables that a foreign key may refer to.
abbrev pub is_known : List Table → Option (String × String) → Bool
is_known ts none = true
is_known ts (some (t, column)) = has table_name t ts

abbrev pub all_known : List Table → List Column → Bool
all_known ts [] = true
all_known ts (c ∷ cs) = is_known ts c.foreign_key && all_known ts cs

abbrev pub refers : String → Option (String × String) → Bool
refers k none = false
refers k (some (t, column)) = t == k

abbrev pub any_refers : String → List Table → Bool
any_refers k ts = any (λ t. any (λ c. refers k c.foreign_key) t.columns) ts

-- A table that another refers to cannot be dropped. An enum is created and dropped with `checkfirst=True`. A table goes with its indexes.
unfoldable pub apply : Operation → Schema → Option Schema
apply (create_enum e) s =
    if has enum_name e.name s.enums then some s else some (record s { enums = s.enums ++ e ∷ [] })
apply (drop_enum e) s = some (record s { enums = remove enum_name e.name s.enums })
apply (create_table t) s =
    if has table_name t.name s.tables || not (all_known s.tables t.columns)
    then none
    else some (record s { tables = s.tables ++ t ∷ [] })
apply (drop_table t) s =
    if has table_name t s.tables && not (any_refers t (remove table_name t s.tables))
    then some (record s {
      tables = remove table_name t s.tables;
      indexes = remove (λ (i : Index). i.table) t s.indexes;
    })
    else none
apply (create_index i) s =
    if has index_name i.name s.indexes || not (has table_name i.table s.tables)
    then none
    else some (record s { indexes = s.indexes ++ i ∷ [] })
apply (drop_index i table) s =
    if has index_name i s.indexes
    then some (record s { indexes = remove index_name i s.indexes })
    else none
apply (add_column t c) s =
    if is_known s.tables c.foreign_key
    then set_tables s (change table_name t (with_column c) s.tables)
    else none
apply (drop_column t c) s = set_tables s (change table_name t (without_column c) s.tables)

abbrev pub and_apply : Option Schema → (Schema → Option Schema) → Option Schema
and_apply none f = none
and_apply (some s) f = f s

unfoldable pub run : List Operation → Schema → Option Schema
run [] s = some s
run (o ∷ os) s = and_apply (apply o s) (run os)

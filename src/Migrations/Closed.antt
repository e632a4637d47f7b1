-- ===== src/Migrations/Closed.antt =====
-- Schemas whose foreign keys and indexes refer to tables of theirs.
use ix_gateway.Prelude.{
  String, Bool, true, false, ◌&&◌, Option, none, some, List, [], ◌∷◌, ◌++◌, ◌≡◌, refl, ◌∙◌, sym, ap,
  inl, inr, any, All, Bool-cases, ◌==◌, arith,
}
use ix_gateway.Prelude.Dict.{eq_of_==, any-append}
use ix_gateway.Prelude.Dict.Distinct.{both_false}
use ix_gateway.Migrations.{
  Column, Table, Index, Schema, has, table_name, is_known, all_known, refers, any_refers,
}

-- Foreign keys and indexes refer to tables of the schema.
abbrev pub IsClosed : Schema → Type 0
IsClosed s =
    All (λ t. all_known s.tables t.columns ≡ true) s.tables
    × All (λ i. has table_name i.table s.tables ≡ true) s.indexes

-- A table that is not there is not referred to.
pub refers_absent :
    (k : String) (ts : List Table) (key : Option (String × String))
    → has table_name k ts ≡ false
    → is_known ts key ≡ true
    → refers k key ≡ false
refers_absent k ts none new known = refl
refers_absent k ts (some (t, column)) new known = elim (Bool-cases (t == k)) [
  | inr other ↦ other
  | inl same ↦
      let clash : false ≡ true =
        sym new ∙ ap (λ j. has table_name j ts) (sym (eq_of_== t k same)) ∙ known in
      cc
]

pub both_true : (a b : Bool) → (a && b) ≡ true → (a ≡ true) × (b ≡ true)
both_true a b h = (ground arith, ground arith)

pub unreferred_columns :
    (k : String) (ts : List Table) (cs : List Column)
    → has table_name k ts ≡ false
    → all_known ts cs ≡ true
    → any (λ c. refers k c.foreign_key) cs ≡ false
unreferred_columns k ts [] new known = refl
unreferred_columns k ts (c ∷ cs) new known =
    let (first, rest) = both_true (is_known ts c.foreign_key) (all_known ts cs) known in
    both_false (refers k c.foreign_key) (any (λ c. refers k c.foreign_key) cs)
      (refers_absent k ts c.foreign_key new first) (unreferred_columns k ts cs new rest)

pub unreferred :
    (k : String) (ts us : List Table)
    → has table_name k ts ≡ false
    → All (λ t. all_known ts t.columns ≡ true) us
    → any_refers k us ≡ false
unreferred k ts [] new h = refl
unreferred k ts (u ∷ us) new (known, h) =
    both_false (any (λ c. refers k c.foreign_key) u.columns) (any_refers k us)
      (unreferred_columns k ts u.columns new known) (unreferred k ts us new h)

pub unindexed :
    (k : String) (ts : List Table) (is : List Index)
    → has table_name k ts ≡ false
    → All (λ i. has table_name i.table ts ≡ true) is
    → has (λ (i : Index). i.table) k is ≡ false
unindexed k ts [] new h = refl
unindexed k ts (i ∷ is) new (known, h) =
    both_false (i.table == k) (has (λ (i : Index). i.table) k is)
      (refers_absent k ts (some (i.table, "")) new known) (unindexed k ts is new h)

-- More tables refer to no fewer.
pub has_more :
    (k : String) (ts us : List Table)
    → has table_name k ts ≡ true
    → has table_name k (ts ++ us) ≡ true
has_more k ts us h = any-append (λ t. t.name == k) ts us ∙ rw h refl

pub known_more :
    (ts us : List Table) (key : Option (String × String))
    → is_known ts key ≡ true
    → is_known (ts ++ us) key ≡ true
known_more ts us none h = refl
known_more ts us (some (t, column)) h = has_more t ts us h

pub all_known_more :
    (ts us : List Table) (cs : List Column)
    → all_known ts cs ≡ true
    → all_known (ts ++ us) cs ≡ true
all_known_more ts us [] h = refl
all_known_more ts us (c ∷ cs) h =
    let (first, rest) = both_true (is_known ts c.foreign_key) (all_known ts cs) h in
    rw (known_more ts us c.foreign_key first, all_known_more ts us cs rest) refl

pub tables_more :
    (ts us vs : List Table)
    → All (λ t. all_known ts t.columns ≡ true) vs
    → All (λ t. all_known (ts ++ us) t.columns ≡ true) vs
tables_more ts us [] h = tt
tables_more ts us (v ∷ vs) (x, h) = (all_known_more ts us v.columns x, tables_more ts us vs h)

pub indexes_more :
    (ts us : List Table) (is : List Index)
    → All (λ i. has table_name i.table ts ≡ true) is
    → All (λ i. has table_name i.table (ts ++ us) ≡ true) is
indexes_more ts us [] h = tt
indexes_more ts us (i ∷ is) (x, h) = (has_more i.table ts us x, indexes_more ts us is h)

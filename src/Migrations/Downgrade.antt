-- ===== src/Migrations/Downgrade.antt =====
-- The downgrade of each migration against its upgrade.
mod Tests
use ix_gateway.Prelude.{
  Bool, true, false, ◌&&◌, some, List, [], ◌∷◌, ◌≡◌, refl, sym, ◌∙◌, ap, All, Row, All-Row,
}
use ix_gateway.Migrations.{
  Migration, Schema, Operation, create_enum, drop_enum, create_table, drop_table, create_index,
  drop_index, add_column, drop_column, run,
}
use ix_gateway.Migrations.Closed.{IsClosed, both_true}
use ix_gateway.Migrations.Initial.{initial}
use ix_gateway.Migrations.Later.{reconciliation_run, merchants_and_api_keys, checkout_sessions}
use ix_gateway.Migrations.Undo.{IsForward, undo}
use ix_gateway.Migrations.Undo.Whole.{CleanRun, run-undo}

abbrev pub migrations : List Migration
migrations = initial ∷ reconciliation_run ∷ merchants_and_api_keys ∷ checkout_sessions ∷ []

abbrev is_forward : Operation → Bool
is_forward (create_enum e) = true
is_forward (create_table t) = true
is_forward (create_index i) = true
is_forward (add_column t c) = true
is_forward _ = false

abbrev all_forward : List Operation → Bool
all_forward [] = true
all_forward (o ∷ os) = is_forward o && all_forward os

is_forward-IsForward : (o : Operation) → is_forward o ≡ true → IsForward o
is_forward-IsForward (create_enum e) h = tt
is_forward-IsForward (create_table t) h = tt
is_forward-IsForward (create_index i) h = tt
is_forward-IsForward (add_column t c) h = tt
is_forward-IsForward (drop_enum e) h = cc
is_forward-IsForward (drop_table t) h = cc
is_forward-IsForward (drop_index i t) h = cc
is_forward-IsForward (drop_column t c) h = cc

all_forward-IsForward : (os : List Operation) → all_forward os ≡ true → All IsForward os
all_forward-IsForward [] h = tt
all_forward-IsForward (o ∷ os) h =
    let (first, rest) = both_true (is_forward o) (all_forward os) h in
    (is_forward-IsForward o first, all_forward-IsForward os rest)

-- The downgrade is the upgrade backwards, each create or add undone by its drop.
abbrev IsMirrored : Migration → Type 0
IsMirrored m = (m.downgrade ≡ undo m.upgrade) × All IsForward m.upgrade

migrations-IsMirrored : All IsMirrored migrations
migrations-IsMirrored = (
  (refl, all_forward-IsForward initial.upgrade refl),
  (
    (refl, all_forward-IsForward reconciliation_run.upgrade refl),
    (
      (refl, all_forward-IsForward merchants_and_api_keys.upgrade refl),
      ((refl, all_forward-IsForward checkout_sessions.upgrade refl), tt),
    ),
  ),
)

-- From a schema in which foreign keys and indexes refer to tables that are there, and after an
-- upgrade by any of the migrations that found none of its enums there already, the downgrade of the
-- migration succeeds and brings back the schema as it was.
pub run-downgrade :
    (m : Migration) (s t : Schema)
    → Row m migrations
    → IsClosed s
    → CleanRun m.upgrade s t
    → run m.downgrade t ≡ some s
run-downgrade m s t known closed up =
    let (mirrored, forward) = All-Row IsMirrored m migrations migrations-IsMirrored known in
    ap (λ os. run os t) mirrored ∙ run-undo m.upgrade s t closed forward up

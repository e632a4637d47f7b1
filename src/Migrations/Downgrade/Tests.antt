-- ===== src/Migrations/Downgrade/Tests.antt =====
-- A migration up and down, from the empty schema.
use ix_gateway.Migrations.Initial.{initial}
use ix_gateway.Prelude.{none, map, ◌++◌, some, [], ◌∷◌, ◌≡◌, refl, inl, inr}
use ix_gateway.Migrations.{Migration, Schema, run, apply, change, remove}
use ix_gateway.Migrations.Later.{
  merchants_and_api_keys, checkout_sessions, reconciliation_run, reconciliation_runs_table,
}
use ix_gateway.Migrations.Undo.Whole.{CleanRun, done, step}
use ix_gateway.Migrations.Downgrade.{migrations, run-downgrade}

abbrev empty_schema : Schema
empty_schema = record { enums = []; tables = []; indexes = [] }

abbrev upgraded_schema : Schema
upgraded_schema = record {
  enums = [];
  tables = reconciliation_runs_table ∷ [];
  indexes =
      record {
        name = "ix_reconciliation_runs_run_date";
        table = "reconciliation_runs";
        columns = "run_date" ∷ [];
      }
      ∷ [];
}

clean_upgrade : CleanRun reconciliation_run.upgrade empty_schema upgraded_schema
unfolding apply
clean_upgrade = step tt refl (step tt refl done)

run-downgrade_example : run reconciliation_run.downgrade upgraded_schema ≡ some empty_schema
run-downgrade_example =
    run-downgrade reconciliation_run empty_schema upgraded_schema (inr (inl refl)) (tt, tt)
      clean_upgrade

-- All the migrations, one after another, from the empty schema, and back again.
upgrades_and_downgrades :
    run
      (initial.upgrade ++ reconciliation_run.upgrade ++ merchants_and_api_keys.upgrade
        ++ checkout_sessions.upgrade ++ checkout_sessions.downgrade
        ++ merchants_and_api_keys.downgrade ++ reconciliation_run.downgrade ++ initial.downgrade)
      empty_schema
    ≡ some empty_schema
unfolding run apply change remove
upgrades_and_downgrades = refl

-- Each migration names the one before it.
revisions :
    map (λ (m : Migration). m.down_revision) migrations
    ≡ none
      ∷ some initial.revision
      ∷ some reconciliation_run.revision
      ∷ some merchants_and_api_keys.revision
      ∷ []
revisions = refl

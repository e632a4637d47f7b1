-- ===== src/Migrations/Later.antt =====
-- alembic/versions/0002_reconciliation_run.py, 0003_merchants_and_api_keys.py and
-- 0004_checkout_sessions.py
use ix_gateway.Prelude.{some, [], ◌∷◌}
use ix_gateway.Migrations.{
  Enum, Table, Migration, varchar, big_integer, integer, boolean, jsonb, date, timestamp_tz, enum,
  key_column, optional_column, column, create_enum, drop_enum, create_table, drop_table,
  create_index, drop_index, add_column, drop_column,
}

abbrev pub reconciliation_runs_table : Table
reconciliation_runs_table = record {
  name = "reconciliation_runs";
  columns =
      key_column "id" (varchar 64)
      ∷ column "run_date" date
      ∷ record (column "total_stripe" big_integer) { server_default = some "0" }
      ∷ record (column "total_internal" big_integer) { server_default = some "0" }
      ∷ record (column "mismatches_count" integer) { server_default = some "0" }
      ∷ record (column "mismatches" jsonb) { server_default = some "[]" }
      ∷ record (column "created_at" timestamp_tz) { server_default = some "now()" }
      ∷ [];
  unique_constraints = [];
}

abbrev pub reconciliation_run : Migration
reconciliation_run = record {
  revision = "0002_reconciliation_run";
  down_revision = some "0001_initial";
  upgrade =
      create_table reconciliation_runs_table
      ∷ create_index (record {
        name = "ix_reconciliation_runs_run_date";
        table = "reconciliation_runs";
        columns = "run_date" ∷ [];
      })
      ∷ [];
  downgrade =
      drop_index "ix_reconciliation_runs_run_date" "reconciliation_runs"
      ∷ drop_table "reconciliation_runs"
      ∷ [];
}

abbrev pub merchants_table : Table
merchants_table = record {
  name = "merchants";
  columns =
      key_column "id" (varchar 64)
      ∷ column "name" (varchar 255)
      ∷ column "email" (varchar 255)
      ∷ record (column "is_active" boolean) { server_default = some "true" }
      ∷ record (column "created_at" timestamp_tz) { server_default = some "now()" }
      ∷ record (column "updated_at" timestamp_tz) { server_default = some "now()" }
      ∷ [];
  unique_constraints = ("uq_merchants_email", "email") ∷ [];
}

abbrev pub api_keys_table : Table
api_keys_table = record {
  name = "api_keys";
  columns =
      key_column "id" (varchar 64)
      ∷ record (column "merchant_id" (varchar 64)) { foreign_key = some ("merchants", "id") }
      ∷ column "key_prefix" (varchar 8)
      ∷ column "key_hash" (varchar 64)
      ∷ column "name" (varchar 255)
      ∷ record (column "is_active" boolean) { server_default = some "true" }
      ∷ optional_column "last_used_at" timestamp_tz
      ∷ record (column "created_at" timestamp_tz) { server_default = some "now()" }
      ∷ [];
  unique_constraints = [];
}

abbrev pub merchants_and_api_keys : Migration
merchants_and_api_keys = record {
  revision = "0003_merchants_and_api_keys";
  down_revision = some "0002_reconciliation_run";
  upgrade =
      create_table merchants_table
      ∷ create_index
          (record { name = "ix_merchants_email"; table = "merchants"; columns = "email" ∷ [] })
      ∷ create_table api_keys_table
      ∷ create_index (record {
        name = "ix_api_keys_merchant_id";
        table = "api_keys";
        columns = "merchant_id" ∷ [];
      })
      ∷ create_index (record {
        name = "ix_api_keys_key_prefix";
        table = "api_keys";
        columns = "key_prefix" ∷ [];
      })
      ∷ add_column "payment_intents" (record (optional_column "merchant_id" (varchar 64)) {
        foreign_key = some ("merchants", "id");
      })
      ∷ create_index (record {
        name = "ix_payment_intents_merchant_id";
        table = "payment_intents";
        columns = "merchant_id" ∷ [];
      })
      ∷ [];
  downgrade =
      drop_index "ix_payment_intents_merchant_id" "payment_intents"
      ∷ drop_column "payment_intents" "merchant_id"
      ∷ drop_index "ix_api_keys_key_prefix" "api_keys"
      ∷ drop_index "ix_api_keys_merchant_id" "api_keys"
      ∷ drop_table "api_keys"
      ∷ drop_index "ix_merchants_email" "merchants"
      ∷ drop_table "merchants"
      ∷ [];
}

abbrev pub checkout_session_status : Enum
checkout_session_status = record {
  name = "checkout_session_status";
  labels = "open" ∷ "completed" ∷ "expired" ∷ [];
}

abbrev pub checkout_sessions_table : Table
checkout_sessions_table = record {
  name = "checkout_sessions";
  columns =
      key_column "id" (varchar 64)
      ∷ record (column "merchant_id" (varchar 64)) { foreign_key = some ("merchants", "id") }
      ∷ record (optional_column "payment_intent_id" (varchar 64)) {
        foreign_key = some ("payment_intents", "id");
      }
      ∷ column "amount" big_integer
      ∷ column "currency" (varchar 3)
      ∷ optional_column "description" (varchar 1024)
      ∷ record (column "status" (enum "checkout_session_status")) { server_default = some "open" }
      ∷ optional_column "success_url" (varchar 2048)
      ∷ column "expires_at" timestamp_tz
      ∷ record (column "created_at" timestamp_tz) { server_default = some "now()" }
      ∷ record (column "updated_at" timestamp_tz) { server_default = some "now()" }
      ∷ [];
  unique_constraints = [];
}

abbrev pub checkout_sessions : Migration
checkout_sessions = record {
  revision = "0004_checkout_sessions";
  down_revision = some "0003_merchants_and_api_keys";
  upgrade =
      create_enum checkout_session_status
      ∷ create_table checkout_sessions_table
      ∷ create_index (record {
        name = "ix_checkout_sessions_merchant_id";
        table = "checkout_sessions";
        columns = "merchant_id" ∷ [];
      })
      ∷ create_index (record {
        name = "ix_checkout_sessions_payment_intent_id";
        table = "checkout_sessions";
        columns = "payment_intent_id" ∷ [];
      })
      ∷ create_index (record {
        name = "ix_checkout_sessions_status";
        table = "checkout_sessions";
        columns = "status" ∷ [];
      })
      ∷ create_index (record {
        name = "ix_checkout_sessions_expires_at";
        table = "checkout_sessions";
        columns = "expires_at" ∷ [];
      })
      ∷ [];
  downgrade =
      drop_index "ix_checkout_sessions_expires_at" "checkout_sessions"
      ∷ drop_index "ix_checkout_sessions_status" "checkout_sessions"
      ∷ drop_index "ix_checkout_sessions_payment_intent_id" "checkout_sessions"
      ∷ drop_index "ix_checkout_sessions_merchant_id" "checkout_sessions"
      ∷ drop_table "checkout_sessions"
      ∷ drop_enum checkout_session_status
      ∷ [];
}

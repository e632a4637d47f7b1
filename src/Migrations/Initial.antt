-- ===== src/Migrations/Initial.antt =====
-- alembic/versions/0001_initial.py
use ix_gateway.Prelude.{true, none, some, [], ◌∷◌}
use ix_gateway.Migrations.{
  Enum, Table, Migration, varchar, big_integer, jsonb, timestamp_tz, enum, key_column,
  optional_column, column, create_enum, drop_enum, create_table, drop_table, create_index,
  drop_index,
}

abbrev pub payment_intent_status : Enum
payment_intent_status = record {
  name = "payment_intent_status";
  labels =
      "requires_payment_method" ∷ "requires_confirmation" ∷ "requires_action" ∷ "processing"
      ∷ "succeeded" ∷ "canceled" ∷ "failed" ∷ [];
}

abbrev pub ledger_entry_direction : Enum
ledger_entry_direction = record {
  name = "ledger_entry_direction";
  labels = "debit" ∷ "credit" ∷ [];
}

abbrev pub payment_intents_table : Table
payment_intents_table = record {
  name = "payment_intents";
  columns =
      key_column "id" (varchar 64)
      ∷ record (optional_column "stripe_payment_intent_id" (varchar 255)) { unique = true }
      ∷ record (column "idempotency_key" (varchar 255)) { unique = true }
      ∷ column "amount" big_integer
      ∷ column "currency" (varchar 3)
      ∷ record (column "amount_received" big_integer) { server_default = some "0" }
      ∷ record (column "amount_refunded" big_integer) { server_default = some "0" }
      ∷ record (column "status" (enum "payment_intent_status")) {
        server_default = some "requires_payment_method";
      }
      ∷ optional_column "customer_id" (varchar 255)
      ∷ optional_column "description" (varchar 1024)
      ∷ optional_column "client_secret" (varchar 512)
      ∷ optional_column "last_error" (varchar 2048)
      ∷ record (column "payment_metadata" jsonb) { server_default = some "{}" }
      ∷ record (column "created_at" timestamp_tz) { server_default = some "now()" }
      ∷ record (column "updated_at" timestamp_tz) { server_default = some "now()" }
      ∷ [];
  unique_constraints = [];
}

abbrev pub ledger_entries_table : Table
ledger_entries_table = record {
  name = "ledger_entries";
  columns =
      key_column "id" (varchar 64)
      ∷ column "transaction_id" (varchar 64)
      ∷ column "account" (varchar 128)
      ∷ column "direction" (enum "ledger_entry_direction")
      ∷ column "amount" big_integer
      ∷ column "currency" (varchar 3)
      ∷ record (optional_column "payment_intent_id" (varchar 64)) {
        foreign_key = some ("payment_intents", "id");
      }
      ∷ optional_column "description" (varchar 512)
      ∷ record (column "entry_metadata" jsonb) { server_default = some "{}" }
      ∷ record (column "created_at" timestamp_tz) { server_default = some "now()" }
      ∷ [];
  unique_constraints = [];
}

abbrev pub webhook_events_table : Table
webhook_events_table = record {
  name = "webhook_events";
  columns =
      key_column "id" (varchar 255)
      ∷ column "type" (varchar 255)
      ∷ optional_column "api_version" (varchar 32)
      ∷ column "payload" jsonb
      ∷ optional_column "processed_at" timestamp_tz
      ∷ optional_column "processing_error" (varchar 2048)
      ∷ record (column "received_at" timestamp_tz) { server_default = some "now()" }
      ∷ [];
  unique_constraints = [];
}

abbrev pub initial : Migration
initial = record {
  revision = "0001_initial";
  down_revision = none;
  upgrade =
      create_enum payment_intent_status
      ∷ create_enum ledger_entry_direction
      ∷ create_table payment_intents_table
      ∷ create_index (record {
        name = "ix_payment_intents_stripe_payment_intent_id";
        table = "payment_intents";
        columns = "stripe_payment_intent_id" ∷ [];
      })
      ∷ create_index (record {
        name = "ix_payment_intents_idempotency_key";
        table = "payment_intents";
        columns = "idempotency_key" ∷ [];
      })
      ∷ create_index (record {
        name = "ix_payment_intents_status";
        table = "payment_intents";
        columns = "status" ∷ [];
      })
      ∷ create_index (record {
        name = "ix_payment_intents_customer_created";
        table = "payment_intents";
        columns = "customer_id" ∷ "created_at" ∷ [];
      })
      ∷ create_table ledger_entries_table
      ∷ create_index (record {
        name = "ix_ledger_entries_transaction_id";
        table = "ledger_entries";
        columns = "transaction_id" ∷ [];
      })
      ∷ create_index (record {
        name = "ix_ledger_entries_account";
        table = "ledger_entries";
        columns = "account" ∷ [];
      })
      ∷ create_index (record {
        name = "ix_ledger_entries_payment_intent_id";
        table = "ledger_entries";
        columns = "payment_intent_id" ∷ [];
      })
      ∷ create_index (record {
        name = "ix_ledger_account_currency";
        table = "ledger_entries";
        columns = "account" ∷ "currency" ∷ [];
      })
      ∷ create_table webhook_events_table
      ∷ create_index (record {
        name = "ix_webhook_events_type";
        table = "webhook_events";
        columns = "type" ∷ [];
      })
      ∷ [];
  downgrade =
      drop_index "ix_webhook_events_type" "webhook_events"
      ∷ drop_table "webhook_events"
      ∷ drop_index "ix_ledger_account_currency" "ledger_entries"
      ∷ drop_index "ix_ledger_entries_payment_intent_id" "ledger_entries"
      ∷ drop_index "ix_ledger_entries_account" "ledger_entries"
      ∷ drop_index "ix_ledger_entries_transaction_id" "ledger_entries"
      ∷ drop_table "ledger_entries"
      ∷ drop_index "ix_payment_intents_customer_created" "payment_intents"
      ∷ drop_index "ix_payment_intents_status" "payment_intents"
      ∷ drop_index "ix_payment_intents_idempotency_key" "payment_intents"
      ∷ drop_index "ix_payment_intents_stripe_payment_intent_id" "payment_intents"
      ∷ drop_table "payment_intents"
      ∷ drop_enum ledger_entry_direction
      ∷ drop_enum payment_intent_status
      ∷ [];
}

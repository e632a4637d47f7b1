-- ===== src/Gateway/Tests.antt =====
-- A history of the gateway after a paid intent, which refunds some of it.
use ix_gateway.Prelude.{
  ℕ, false, some, none, List, [], ◌∷◌, ◌++◌, ◌≡◌, refl, inl, inr, map, length, All,
}
use ix_gateway.Prelude.Int.{pos, ℤ}
use ix_gateway.Models.{LedgerEntry, ApiKey}
use ix_gateway.Db.{Session, raised}
use ix_gateway.Gateway.Keys.{run-Rejects}
use ix_gateway.Auth.{Credentials, require_api_key}
use ix_gateway.Errors.{app, unauthorized_error}
use ix_gateway.Payment.Life.Lasting.{Carried}
use ix_gateway.Payment.Life.Refines.{tables}
use ix_gateway.Samples.{sample_env, sample_header, sample_order, sample_paid_row, sample_paid}
use ix_gateway.Gateway.{
  Request, create_merchant, issue_api_key, create_payment_intent, webhook, refund_payment_intent,
  run, start,
}
use ix_gateway.Gateway.Responses.{answer}
use ix_gateway.Gateway.Responses.Told.{Tells, answer-Tells}
use ix_gateway.Gateway.Worker.{IsClean, run_forever, run_forever-IsClean}
use ix_gateway.Gateway.Life.{IsAtRest, run-Carried, run-appends}

abbrev after_payment : List (ℕ × Request)
after_payment =
    (0, create_merchant (some "admin") "Bolt" "shop@bolt.io")
    ∷ (1, issue_api_key (some "admin") "mer_0" "till")
    ∷ (2, webhook (some "t=1") "{}")
    ∷ (3, create_payment_intent sample_header sample_order)
    ∷ (
      4,
      refund_payment_intent sample_header "pi_local_0"
          (record { amount = some (pos 200); idempotency_key = "refund-0001"; reason = none }),
    )
    ∷ []

-- What the history leaves: the refunded amounts and the number of entries.
abbrev left_over : List ℤ × ℕ
left_over = (
  map (λ p. p.amount_refunded) (run sample_env after_payment sample_paid).committed.payment_intents,
  length (run sample_env after_payment sample_paid).committed.ledger_entries,
)

sample_paid-IsAtRest : IsAtRest sample_paid
sample_paid-IsAtRest = record { rests = refl; distinct = (refl, tt) }

run-Carried_example :
    Carried sample_paid_row (run sample_env after_payment sample_paid).committed.payment_intents
run-Carried_example =
    run-Carried sample_env after_payment sample_paid sample_paid_row sample_paid-IsAtRest (inl refl)

run-appends_example :
    (es : List LedgerEntry) × ((run sample_env after_payment sample_paid).committed.ledger_entries
      ≡ sample_paid.committed.ledger_entries ++ es)
run-appends_example = run-appends sample_env after_payment sample_paid sample_paid-IsAtRest

-- A refund without credentials.
abbrev stray_refund : Request
stray_refund =
    refund_payment_intent none "pi_local_0"
      (record { amount = none; idempotency_key = "refund-0002"; reason = none })

-- A pass before the history and one after it.
run_forever-IsClean_example :
    All
      (IsClean sample_env)
      (run_forever sample_env ((50, after_payment) ∷ (60, []) ∷ []) (run sample_env [] start))
    × (length
          (run_forever sample_env ((50, after_payment) ∷ (60, []) ∷ []) (run sample_env [] start))
        ≡ 2)
run_forever-IsClean_example =
    run_forever-IsClean sample_env [] ((50, after_payment) ∷ (60, []) ∷ [])

answer-Tells_example :
    Tells stray_refund
      (tables sample_paid.committed)
      (answer sample_env (λ _. none) stray_refund sample_paid)
answer-Tells_example = answer-Tells sample_env (λ _. none) stray_refund sample_paid refl

-- A revoked key, beside a paid intent.
abbrev revoked_key : ApiKey
revoked_key = record {
  id = "ak_old";
  merchant_id = "mer_0";
  key_prefix = "gw_live_00000000";
  key_hash = "sha:gw_live_00000000cafe";
  name = "old till";
  is_active = false;
  last_used_at = none;
  created_at = 0;
}

abbrev with_revoked : Session
with_revoked = record sample_paid {
  db = record sample_paid.db { api_keys = revoked_key ∷ [] };
  committed = record sample_paid.committed { api_keys = revoked_key ∷ [] };
}

abbrev old_credentials : Credentials
old_credentials = record { scheme = "Bearer"; credentials = "gw_live_00000000cafe" }

-- A new key is issued.
abbrev new_till : List (ℕ × Request)
new_till = (1, issue_api_key (some "admin") "mer_0" "till") ∷ []

run-Rejects_example :
    require_api_key sample_env (some old_credentials) (run sample_env new_till with_revoked)
    ≡ (raised (app unauthorized_error), run sample_env new_till with_revoked)
unfolding run ix_gateway.Gateway.serve ix_gateway.Db.get_db ix_gateway.Gateway.handle
    ix_gateway.Api.issue_api_key ix_gateway.Auth.require_admin_api_key
    ix_gateway.Merchants.get_merchant ix_gateway.ApiKeys.create_api_key
    ix_gateway.ApiKeys.generate_key ix_gateway.ApiKeys.extract_lookup_prefix
    ix_gateway.ApiKeys.add_key ix_gateway.Db.token_hex ix_gateway.Db.uuid4_hex
    ix_gateway.Schemas.check_key_name
run-Rejects_example =
    run-Rejects sample_env new_till with_revoked revoked_key old_credentials refl (refl, tt)
      (inl refl) refl (inr refl, (inl refl, tt))

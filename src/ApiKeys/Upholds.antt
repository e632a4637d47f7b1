-- ===== src/ApiKeys/Upholds.antt =====
-- An invariant of the payment service under the calls on API keys.
use ix_gateway.Prelude.{List, String, Bool-cases, any, find, select, not, inl, inr, ◌==◌, ◌+◌}
use ix_gateway.Env.{Env}
use ix_gateway.Db.{Session, uuid4_hex, token_hex}
use ix_gateway.Db.Query.{query_rule}
use ix_gateway.ApiKeys.{
  generate_key, extract_lookup_prefix, match_candidate, new_key, add_key, save_key,
  key_prefix_literal, create_api_key, revoke_api_key, verify_api_key,
}
use ix_gateway.Models.{PaymentIntent, LedgerEntry}
use ix_gateway.Payment.Upholds.{
  OnPayments, Invariant, Meets, Upholds, Upholds-raised, or_raise_rule, raise_if_rule,
}
use ix_gateway.Prelude.Text.{concat}

-- What the other services rely on: the operations of the API key service uphold the invariant.
pub record UpheldByKeys (I : Invariant) (env : Env) : Type 0 where
  pub issues :
      (mid name : String) (s : Session)
      → Meets I s.db
      → Meets I s.committed
      → Upholds I (create_api_key env mid name s)
  pub revokes :
      (kid mid : String) (s : Session)
      → Meets I s.db
      → Meets I s.committed
      → Upholds I (revoke_api_key kid mid s)
  pub verifies :
      (raw : String) (s : Session)
      → Meets I s.db
      → Meets I s.committed
      → Upholds I (verify_api_key env raw s)

-- They leave the tables of the payment service as they are.
module _ {J : List PaymentIntent → List LedgerEntry → Type 0} where
  create_api_key-Upholds :
      (env : Env) (mid name : String) (s : Session)
      → Meets (OnPayments J) s.db
      → Meets (OnPayments J) s.committed
      → Upholds (OnPayments J) (create_api_key env mid name s)
  unfolding create_api_key generate_key token_hex uuid4_hex add_key
  create_api_key-Upholds env mid name s h k =
      let raw = concat key_prefix_literal (env.token_hex s.uuids) in
      or_raise_rule (extract_lookup_prefix raw) _ _ (record s { uuids = s.uuids + 1 }) k
        λ prefix _.
          let row =
            new_key (concat "ak_" (env.uuid_hex (s.uuids + 1))) mid prefix (env.sha256_hex raw) name
              s.now in
          elim (Bool-cases (any (λ q. q.id == row.id) s.db.api_keys)) [
            | inl taken ↦ rw taken (Upholds-raised _ _ k)
            | inr free ↦ rw free (record { books = (h, h) })
          ]

  revoke_api_key-Upholds :
      (kid mid : String) (s : Session)
      → Meets (OnPayments J) s.db
      → Meets (OnPayments J) s.committed
      → Upholds (OnPayments J) (revoke_api_key kid mid s)
  unfolding revoke_api_key save_key
  revoke_api_key-Upholds kid mid s h k =
      query_rule (Upholds (OnPayments J)) _ s.db.api_keys _ s (Upholds-raised _ _ k)
        (λ row _ _. record { books = (h, h) }) (Upholds-raised _ _ k)

  verify_api_key-Upholds :
      (env : Env) (raw : String) (s : Session)
      → Meets (OnPayments J) s.db
      → Meets (OnPayments J) s.committed
      → Upholds (OnPayments J) (verify_api_key env raw s)
  unfolding verify_api_key save_key
  verify_api_key-Upholds env raw s h k = raise_if_rule (raw == "") _ _ s k λ _.
      or_raise_rule (extract_lookup_prefix raw) _ _ s k λ prefix _.
        or_raise_rule
          (match_candidate (env.sha256_hex raw)
            (select (λ q. q.key_prefix == prefix) s.db.api_keys))
          _ _ s k
          λ key _. raise_if_rule (not key.is_active) _ _ s k λ _.
            or_raise_rule (find (λ m. m.id == key.merchant_id) s.db.merchants) _ _ s k
              λ m _. raise_if_rule (not m.is_active) _ _ s k (λ _. record { books = (h, h) })

  pub OnPayments-UpheldByKeys : (env : Env) → UpheldByKeys (OnPayments J) env
  OnPayments-UpheldByKeys env = record {
    issues = create_api_key-Upholds env;
    revokes = revoke_api_key-Upholds;
    verifies = verify_api_key-Upholds env;
  }

-- ===== src/Auth/Upholds.antt =====
-- An invariant of the payment service behind the two gates.
use ix_gateway.Prelude.{String, Option, Bool-cases, not, inl, inr, ◌==◌}
use ix_gateway.Prelude.Text.{lower, truthy}
use ix_gateway.Env.{Env}
use ix_gateway.Db.{Session}
use ix_gateway.Auth.{Credentials, require_api_key, require_admin_api_key}
use ix_gateway.ApiKeys.Upholds.{UpheldByKeys}
use ix_gateway.Payment.Upholds.{
  Invariant, Meets, Upholds, Upholds-ok, Upholds-raised, or_raise_rule, raise_if_rule,
}

module _ {I : Invariant} where
  pub require_api_key-Upholds :
      (env : Env) (keys : UpheldByKeys I env) (header : Option Credentials) (s : Session)
      → Meets I s.db
      → Meets I s.committed
      → Upholds I (require_api_key env header s)
  unfolding require_api_key
  require_api_key-Upholds env keys header s h k = or_raise_rule header _ _ s k λ given _.
      raise_if_rule (not (lower given.scheme == "bearer")) _ _ s k
        λ _. keys.verifies given.credentials s h k

  pub require_admin_api_key-Upholds :
      (env : Env) (header : Option String) (s : Session)
      → Meets I s.db
      → Meets I s.committed
      → Upholds I (require_admin_api_key env header s)
  unfolding require_admin_api_key
  require_admin_api_key-Upholds env header s h k = or_raise_rule (truthy header) _ _ s k λ key _.
      elim (Bool-cases (not (key == env.admin_api_key))) [
        | inl wrong ↦ rw wrong (Upholds-raised _ _ k)
        | inr right ↦ rw right (Upholds-ok _ _ h k)
      ]

-- ===== src/Auth.antt =====
-- app/core/auth.py and app/core/security.py: the two gates in front of the routers.
pub mod Upholds
use ix_gateway.Prelude.{String, not, Option, ⊤, ◌==◌}
use ix_gateway.Prelude.Text.{lower, truthy}
use ix_gateway.Errors.{app, unauthorized_error}
use ix_gateway.Models.{Merchant}
use ix_gateway.Env.{Env}
use ix_gateway.Db.{Exec, or_raise, raise_if, ◌>>=◌, ◌>>◌}
use ix_gateway.ApiKeys.{verify_api_key}

-- `HTTPAuthorizationCredentials`: what the framework has read from the Authorization header.
pub record Credentials : Type 0 where
  pub scheme : String
  pub credentials : String

unfoldable pub require_api_key : Env → Option Credentials → Exec Merchant
require_api_key env header = do
  given ← or_raise header (app unauthorized_error)
  raise_if (not (lower given.scheme == "bearer")) (app unauthorized_error)
  verify_api_key env given.credentials

unfoldable pub require_admin_api_key : Env → Option String → Exec ⊤
require_admin_api_key env x_admin_key = do
  key ← or_raise (truthy x_admin_key) (app unauthorized_error)
  raise_if (not (key == env.admin_api_key)) (app unauthorized_error)

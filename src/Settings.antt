-- ===== src/Settings.antt =====
-- app/core/config.py: what the program computes from its settings.
pub mod DatabaseUrl
pub mod Secret
mod Tests
use ix_gateway.Prelude.{
  ℕ, zero, suc, String, Bool, true, false, Option, none, some, if◌then◌else◌, ◌==◌, ltb, ◌/◌, ◌%◌,
  ◌+◌,
}
use Prim.Native.String.{[], ◌∷◌}
use ix_gateway.Prelude.Text.{concat, strip_prefix, take, count}
use ix_gateway.Html.{digit}
use ix_gateway.Prelude.Dict.{is_some}

abbrev pub with_asyncpg : Option String → String → String
with_asyncpg none otherwise = otherwise
with_asyncpg (some rest) otherwise = concat "postgresql+asyncpg://" rest

-- `_force_asyncpg_driver`
unfoldable pub force_asyncpg_driver : String → String
force_asyncpg_driver v =
    if is_some (strip_prefix "postgresql+" v)
    then v
    else with_asyncpg (strip_prefix "postgresql://" v)
        (with_asyncpg (strip_prefix "postgres://" v) v)

pub data AppEnv : Type 0 where
  development staging production test : AppEnv

abbrev pub is_production : AppEnv → Bool
is_production production = true
is_production _ = false

abbrev pub last_digit : Bool → ℕ → (ℕ → String) → String
last_digit true n front = digit n ∷ ""
last_digit false n front = concat (front (n / 10)) (digit (n % 10) ∷ "")

-- `str(n)`; each round writes a digit.
unfoldable pub decimal : (fuel n : ℕ) → String
decimal zero n = ""
decimal (suc fuel) n = last_digit (ltb n 10) n (decimal fuel)

-- What the log says of the webhook secret.
unfoldable pub stripe_webhook_secret_prefix : String → String
stripe_webhook_secret_prefix [] = "<empty>"
stripe_webhook_secret_prefix (c ∷ s) =
    concat (take 10 (c ∷ s))
      (concat "...(len=" (concat (decimal (count (c ∷ s) + 1) (count (c ∷ s))) ")"))

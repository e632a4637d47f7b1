-- ===== src/Settings/Tests.antt =====
-- The validator of the database URL on a managed host's URL.
use ix_gateway.Prelude.{◌≡◌, refl, none}
use ix_gateway.Prelude.Text.{strip_prefix}
use ix_gateway.Settings.{force_asyncpg_driver, decimal, stripe_webhook_secret_prefix}
use ix_gateway.Settings.DatabaseUrl.{Rewrites, force_asyncpg_driver-Rewrites}

force_asyncpg_driver-Rewrites_example :
    Rewrites "postgres://u:p@db/x" (force_asyncpg_driver "postgres://u:p@db/x")
    × (force_asyncpg_driver (force_asyncpg_driver "postgres://u:p@db/x")
        ≡ force_asyncpg_driver "postgres://u:p@db/x")
    × (strip_prefix "postgresql://" (force_asyncpg_driver "postgres://u:p@db/x") ≡ none)
    × (strip_prefix "postgres://" (force_asyncpg_driver "postgres://u:p@db/x") ≡ none)
force_asyncpg_driver-Rewrites_example = force_asyncpg_driver-Rewrites "postgres://u:p@db/x"

rewritten_url : force_asyncpg_driver "postgres://u:p@db/x" ≡ "postgresql+asyncpg://u:p@db/x"
unfolding force_asyncpg_driver
rewritten_url = refl

logged_secret : stripe_webhook_secret_prefix "whsec_0123456789" ≡ "whsec_0123...(len=16)"
unfolding stripe_webhook_secret_prefix decimal
logged_secret = refl

logged_nothing : stripe_webhook_secret_prefix "" ≡ "<empty>"
unfolding stripe_webhook_secret_prefix
logged_nothing = refl

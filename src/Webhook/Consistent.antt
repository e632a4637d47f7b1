-- ===== src/Webhook/Consistent.antt =====
-- The invariant of the books under the webhook handler.
use ix_gateway.Prelude.{String, Option}
use ix_gateway.Env.{Env}
use ix_gateway.Db.{Session}
use ix_gateway.Payment.Safe.{Holds, Safe}
use ix_gateway.Payment.Consistent.{IsConsistent-payments}
use ix_gateway.Webhook.{stripe_webhook}
use ix_gateway.Webhook.Upholds.{stripe_webhook-Upholds}

-- Whatever a delivery holds, the webhook handler keeps the books: if the tables are consistent
-- before it, the committed tables are so after it, and those of the session too if it returns.
pub stripe_webhook-Safe :
    (env : Env) (header : Option String) (body : String) (s : Session)
    → Holds s.db
    → Holds s.committed
    → Safe (stripe_webhook env header body s)
stripe_webhook-Safe env = stripe_webhook-Upholds env (IsConsistent-payments env)

-- ===== src/Settings/Secret.antt =====
-- What the log of the start-up gives away of the webhook secret.
use Prim.Native.String.{[], ◌∷◌}
use ix_gateway.Prelude.{String, ◌≡◌, refl, arith}
use ix_gateway.Prelude.Text.{take, count}
use ix_gateway.Settings.{stripe_webhook_secret_prefix}

-- Two secrets that agree on their first ten characters and in their length are logged alike.
stripe_webhook_secret_prefix_hides :
    (s t : String)
    → take 10 s ≡ take 10 t
    → count s ≡ count t
    → stripe_webhook_secret_prefix s ≡ stripe_webhook_secret_prefix t
unfolding stripe_webhook_secret_prefix
stripe_webhook_secret_prefix_hides [] [] start long = refl
stripe_webhook_secret_prefix_hides [] (d ∷ t) start long =
    let clash : 0 ≡ count (d ∷ t) = long in absurd (omega arith)
stripe_webhook_secret_prefix_hides (c ∷ s) [] start long =
    let clash : count (c ∷ s) ≡ 0 = long in absurd (omega arith)
stripe_webhook_secret_prefix_hides (c ∷ s) (d ∷ t) start long = rw (start, long) refl

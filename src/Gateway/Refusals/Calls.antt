-- ===== src/Gateway/Refusals/Calls.antt =====
-- Calls that commit nothing of a payment when they raise.
use ix_gateway.Prelude.Int.{ℤ}
use ix_gateway.Prelude.{String, Option, none, some, ◌≡◌, refl, ⊤}
use ix_gateway.Errors.{Exn}
use ix_gateway.Env.{Env}
use ix_gateway.Db.{Session, Result, Exec, ok, raised, continue, or_raise, pure, ◌>>=◌}
use ix_gateway.Payment
use ix_gateway.Payment.{PaymentIntentCreate, PaymentIntentConfirm, PaymentIntentCancel}
use ix_gateway.Payment.CreateOutcome.{CreateOutcomes, create_intent-CreateOutcomes}
use ix_gateway.Payment.StatusOutcome.{
  Confirms, Cancels, confirm_intent-Confirms, cancel_intent-Cancels,
}
use ix_gateway.Payment.RefundOutcome.{Outcome, refund_intent-Outcome}
use ix_gateway.Payment.Upholds.{Invariant, Meets, Upholds}
use ix_gateway.Webhook.{Received, stripe_webhook}
use ix_gateway.Webhook.Failure.{stripe_webhook_atomic}

-- What a call that raised has committed of the two tables.
abbrev pub Spares : Invariant → {A : Type 0} → Result A × Session → Type 0
Spares I (ok _, t) = ⊤
Spares I (raised _, t) = Meets I t.committed

pub record Spared (I : Invariant) {A : Type 0} (outcome : Result A × Session) : Type 0 where
  pub spares : Spares I outcome

module _ {I : Invariant} where
  pub bind-Spared :
      {A B : Type 0} (r : Result A) (f : A → Exec B) (s : Session)
      → Upholds I (r, s)
      → ((a : A) → Meets I s.db → Meets I s.committed → Spared I (f a s))
      → Spared I (continue r f s)
  bind-Spared (ok a) f s safe next = next a safe.books.0 safe.books.1
  bind-Spared (raised e) f s safe next = record { spares = safe.books }

  pub or_raise-Spared :
      {A B : Type 0} (o : Option A) (e : Exn) (f : A → Exec B) (s : Session)
      → Meets I s.committed
      → ((a : A) → Spared I (f a s))
      → Spared I ((or_raise o e >>= f) s)
  or_raise-Spared none e f s k next = record { spares = k }
  or_raise-Spared (some a) e f s k next = next a

  pub ignore-Spared :
      {A : Type 0} (o : Result A × Session)
      → Spared I o
      → Spared I (continue o.0 (λ _. pure tt) o.1)
  ignore-Spared (ok a, t) spared = record { spares = tt }
  ignore-Spared (raised e, t) spared = record { spares = spared.spares }

  pub Upholds-Spared : {A : Type 0} (o : Result A × Session) → Upholds I o → Spared I o
  Upholds-Spared (ok a, t) safe = record { spares = tt }
  Upholds-Spared (raised e, t) safe = record { spares = safe.books }

  module _ (env : Env) (s : Session) (k : Meets I s.committed) where
    pub create_intent-Spared :
        (payload : PaymentIntentCreate) (mid : Option String)
        → Spared I (Payment.create_intent env payload mid s)
    create_intent-Spared payload mid = go _ (create_intent-CreateOutcomes env payload mid s)
      where
        go : (o : Result _ × Session) → CreateOutcomes env payload mid s o → Spared I o
        go (ok p, t) done = record { spares = tt }
        go (raised e, t) same = record { spares = rw same k }

    pub confirm_intent-Spared :
        (pid : String) (payload : PaymentIntentConfirm)
        → Spared I (Payment.confirm_intent env pid payload s)
    confirm_intent-Spared pid payload = go _ (confirm_intent-Confirms env pid payload s)
      where
        go : (o : Result _ × Session) → Confirms env pid payload s o → Spared I o
        go (ok p, t) done = record { spares = tt }
        go (raised e, t) (_, same) = record { spares = rw same k }

    pub cancel_intent-Spared :
        (pid : String) (payload : PaymentIntentCancel)
        → Spared I (Payment.cancel_intent env pid payload s)
    cancel_intent-Spared pid payload = go _ (cancel_intent-Cancels env pid payload s)
      where
        go : (o : Result _ × Session) → Cancels env pid payload s o → Spared I o
        go (ok p, t) done = record { spares = tt }
        go (raised e, t) same = record { spares = rw same k }

    pub refund_intent-Spared :
        (pid key : String) (amount : Option ℤ) (reason : Option String)
        → Spared I (Payment.refund_intent env pid key amount reason s)
    refund_intent-Spared pid key amount reason =
        go _ (refund_intent-Outcome env pid key amount reason s)
      where
        go : (o : Result _ × Session) → Outcome env pid key amount reason s o → Spared I o
        go (ok p, t) done = record { spares = tt }
        go (raised e, t) (_, same) = record { spares = rw same k }

    pub stripe_webhook-Spared :
        (header : Option String) (body : String) → Spared I (stripe_webhook env header body s)
    stripe_webhook-Spared header body = go (stripe_webhook env header body s) refl
      where
        go : (o : Result Received × Session) → stripe_webhook env header body s ≡ o → Spared I o
        go (ok r, t) done = record { spares = tt }
        go (raised e, t) failed = record {
          spares = rw (stripe_webhook_atomic env header body s e t failed) k;
        }

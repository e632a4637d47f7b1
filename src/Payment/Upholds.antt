-- ===== src/Payment/Upholds.antt =====
-- An invariant of the two tables that the payment service writes, and rules for the calls that
-- uphold it. What other services write leaves both tables as they are.
use ix_gateway.Prelude.{String, Bool, true, false, Option, none, some, List, ◌≡◌, refl, ⊤}
use ix_gateway.Prelude.Int.{ℤ}
use ix_gateway.Errors.{Exn}
use ix_gateway.Models.{PaymentIntent, LedgerEntry, ApiKey}
use ix_gateway.Env.{Env}
use ix_gateway.Db.{Db, Session, Result, Exec, ok, raised, raise_if, or_raise, continue, ◌>>=◌}
use ix_gateway.Payment.{
  PaymentIntentCreate, PaymentIntentConfirm, PaymentIntentCancel, create_intent, confirm_intent,
  cancel_intent, refund_intent, apply_succeeded_event,
}

abbrev pub Invariant : Type 1
Invariant = List PaymentIntent → List LedgerEntry → List ApiKey → Type 0

abbrev pub Meets : Invariant → Db → Type 0
Meets I d = I d.payment_intents d.ledger_entries d.api_keys

-- An invariant of intents and entries, and one of API keys.
abbrev pub OnPayments : (List PaymentIntent → List LedgerEntry → Type 0) → Invariant
OnPayments J ps es ks = J ps es

abbrev pub OnKeys : (List ApiKey → Type 0) → Invariant
OnKeys K ps es ks = K ks

-- The committed tables meet the invariant, and those of the session if the call has returned.
abbrev pub Kept : Invariant → {A : Type 0} → Result A × Session → Type 0
Kept I (ok _, s) = Meets I s.db × Meets I s.committed
Kept I (raised _, s) = Meets I s.committed

pub record Upholds (I : Invariant) {A : Type 0} (outcome : Result A × Session) : Type 0 where
  pub books : Kept I outcome

module _ {I : Invariant} where
  pub Upholds-ok :
      {A : Type 0} (a : A) (s : Session) → Meets I s.db → Meets I s.committed → Upholds I (ok a, s)
  Upholds-ok a s h k = record { books = (h, k) }

  pub Upholds-raised :
      {A : Type 0} (e : Exn) (s : Session) → Meets I s.committed → Upholds I {A = A} (raised e, s)
  Upholds-raised e s k = record { books = k }

  module _ {A B : Type 0} where
    pub continue_rule :
        (r : Result A) (f : A → Exec B) (s : Session)
        → Meets I s.committed
        → ((a : A) → r ≡ ok a → Upholds I (f a s))
        → Upholds I (continue r f s)
    continue_rule (ok a) f s k next = next a refl
    continue_rule (raised e) f s k next = Upholds-raised e s k

    pub bind_rule :
        (r : Result A) (f : A → Exec B) (s : Session)
        → Upholds I (r, s)
        → ((a : A) → Meets I s.db → Meets I s.committed → Upholds I (f a s))
        → Upholds I (continue r f s)
    bind_rule (ok a) f s safe next = next a safe.books.0 safe.books.1
    bind_rule (raised e) f s safe next = Upholds-raised e s safe.books

    pub or_raise_rule :
        (o : Option A) (e : Exn) (f : A → Exec B) (s : Session)
        → Meets I s.committed
        → ((a : A) → o ≡ some a → Upholds I (f a s))
        → Upholds I ((or_raise o e >>= f) s)
    or_raise_rule none e f s k next = Upholds-raised e s k
    or_raise_rule (some a) e f s k next = next a refl

  pub raise_if_rule :
      {B : Type 0} (c : Bool) (e : Exn) (f : ⊤ → Exec B) (s : Session)
      → Meets I s.committed
      → (c ≡ false → Upholds I (f tt s))
      → Upholds I ((raise_if c e >>= f) s)
  raise_if_rule true e f s k next = Upholds-raised e s k
  raise_if_rule false e f s k next = next refl

-- What the other services rely on: the operations of the payment service uphold the invariant.
pub record UpheldByPayments (I : Invariant) (env : Env) : Type 0 where
  pub creates :
      (payload : PaymentIntentCreate) (merchant_id : Option String) (s : Session)
      → Meets I s.db
      → Meets I s.committed
      → Upholds I (create_intent env payload merchant_id s)
  pub confirms :
      (pid : String) (payload : PaymentIntentConfirm) (s : Session)
      → Meets I s.db
      → Meets I s.committed
      → Upholds I (confirm_intent env pid payload s)
  pub cancels :
      (pid : String) (payload : PaymentIntentCancel) (s : Session)
      → Meets I s.db
      → Meets I s.committed
      → Upholds I (cancel_intent env pid payload s)
  pub refunds :
      (pid key : String) (amount : Option ℤ) (reason : Option String) (s : Session)
      → Meets I s.db
      → Meets I s.committed
      → Upholds I (refund_intent env pid key amount reason s)
  pub captures :
      (sid : String) (amount : ℤ) (s : Session)
      → Meets I s.db
      → Meets I s.committed
      → Upholds I (apply_succeeded_event env sid amount s)

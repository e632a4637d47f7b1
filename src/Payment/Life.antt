-- ===== src/Payment/Life.antt =====
-- The life of the payment intents and of their ledger, as the services promise it: rows are added
-- and changed one at a time, and each change has its transfer in the ledger.
pub mod Lasting
pub mod Rows
pub mod Refines
use ix_gateway.Prelude.{
  String, true, false, List, [], ◌∷◌, ◌++◌, ◌≡◌, refl, sym, ap, ◌⊎◌, inl, inr, map, ◌==◌,
  map-append,
}
use ix_gateway.Prelude.Int.{ℤ, pos, ◌+ℤ◌, ◌≤ℤ◌, ◌<ℤ◌}
use ix_gateway.Prelude.Dict.{mem}
use ix_gateway.Prelude.Dict.Distinct.{IsDistinct, IsDistinct-append}
use ix_gateway.Models.{PaymentIntent, LedgerEntry, debit, credit, is_succeeded, is_terminal}
use ix_gateway.Payment.{
  payments_authorised, payments_captured, customer_pending, customer_account, some,
}

-- The table of intents and that of ledger entries.
abbrev pub Tables : Type 0
Tables = List PaymentIntent × List LedgerEntry

abbrev pub ids : List PaymentIntent → List String
ids ps = map (λ p. p.id) ps

-- What an intent keeps for good.
pub record IsSameOrder (p q : PaymentIntent) : Type 0 where
  pub id : q.id ≡ p.id
  pub stripe_payment_intent_id : q.stripe_payment_intent_id ≡ p.stripe_payment_intent_id
  pub idempotency_key : q.idempotency_key ≡ p.idempotency_key
  pub amount : q.amount ≡ p.amount
  pub currency : q.currency ≡ p.currency
  pub merchant_id : q.merchant_id ≡ p.merchant_id
  pub customer_id : q.customer_id ≡ p.customer_id
  pub created_at : q.created_at ≡ p.created_at

-- The two entries of a transfer on behalf of an intent.
pub record Transfers (from to : String) (amount : ℤ) (p : PaymentIntent) (es : List LedgerEntry)
    : Type 0 where
  pub out : LedgerEntry
  pub into : LedgerEntry
  pub entries : es ≡ out ∷ into ∷ []
  pub accounts : (out.account ≡ from) × (into.account ≡ to)
  pub directions : (out.direction ≡ debit) × (into.direction ≡ credit)
  pub amounts : (out.amount ≡ amount) × (into.amount ≡ amount)
  pub owner : (out.payment_intent_id ≡ some p.id) × (into.payment_intent_id ≡ some p.id)
  pub transaction : out.transaction_id ≡ into.transaction_id
  pub currency : out.currency ≡ into.currency

-- One row `p` of the first table is `q` in the second, which is the same otherwise.
abbrev pub Swaps : (p q : PaymentIntent) → List PaymentIntent → List PaymentIntent → Type 0
Swaps p q [] ys = ⊥
Swaps p q (x ∷ xs) [] = ⊥
Swaps p q (x ∷ xs) (y ∷ ys) = ((x ≡ p) × (y ≡ q) × (ys ≡ xs)) ⊎ ((y ≡ x) × Swaps p q xs ys)

-- The steps of an intent's life.
pub data Step (b c : Tables) : Type 0 where
  opens :
      (p : PaymentIntent) (es : List LedgerEntry)
      → mem p.id (ids b.0) ≡ false
      → p.amount_received ≡ pos 0
      → p.amount_refunded ≡ pos 0
      → pos 0 <ℤ p.amount
      → Transfers (customer_pending p.customer_id) payments_authorised p.amount p es
      → c.0 ≡ b.0 ++ p ∷ []
      → c.1 ≡ b.1 ++ es
      → Step b c
  confirms :
      (p q : PaymentIntent)
      → is_terminal p.status ≡ false
      → IsSameOrder p q
      → q.amount_received ≡ p.amount_received
      → q.amount_refunded ≡ p.amount_refunded
      → Swaps p q b.0 c.0
      → c.1 ≡ b.1
      → Step b c
  cancels :
      (p q : PaymentIntent) (es : List LedgerEntry)
      → is_succeeded p.status ≡ false
      → IsSameOrder p q
      → q.amount_received ≡ p.amount_received
      → q.amount_refunded ≡ p.amount_refunded
      → Transfers payments_authorised (customer_pending p.customer_id) p.amount p es
      → Swaps p q b.0 c.0
      → c.1 ≡ b.1 ++ es
      → Step b c
  captures :
      (p q : PaymentIntent) (es : List LedgerEntry)
      → is_succeeded p.status ≡ false
      → IsSameOrder p q
      → is_succeeded q.status ≡ true
      → pos 0 <ℤ q.amount_received
      → q.amount_refunded ≡ p.amount_refunded
      → Transfers payments_authorised payments_captured q.amount_received p es
      → Swaps p q b.0 c.0
      → c.1 ≡ b.1 ++ es
      → Step b c
  refunds :
      (p q : PaymentIntent) (amount : ℤ) (es : List LedgerEntry)
      → is_succeeded p.status ≡ true
      → IsSameOrder p q
      → q.status ≡ p.status
      → q.amount_received ≡ p.amount_received
      → q.amount_refunded ≡ p.amount_refunded +ℤ amount
      → pos 0 <ℤ amount
      → q.amount_refunded ≤ℤ q.amount_received
      → Transfers payments_captured (customer_account p.customer_id) amount p es
      → Swaps p q b.0 c.0
      → c.1 ≡ b.1 ++ es
      → Step b c

pub data Reach (b : Tables) : Tables → Type 0 where
  here : Reach b b
  later : {c d : Tables} → Reach b c → Step c d → Reach b d

-- A change of a row that keeps its id keeps the ids of the table.
ids-Swaps :
    (p q : PaymentIntent) (ps qs : List PaymentIntent)
    → q.id ≡ p.id
    → Swaps p q ps qs
    → ids qs ≡ ids ps
ids-Swaps p q [] qs same w = elim w [ ]
ids-Swaps p q (x ∷ xs) [] same w = elim w [ ]
ids-Swaps p q (x ∷ xs) (y ∷ ys) same (inl (e, f, rest)) = rw (e, f, rest, same) refl
ids-Swaps p q (x ∷ xs) (y ∷ ys) same (inr (e, w)) = rw (e, ids-Swaps p q xs ys same w) refl

-- No step gives two intents one id.
pub Step-IsDistinct : {b c : Tables} → Step b c → IsDistinct (ids b.0) → IsDistinct (ids c.0)
Step-IsDistinct {b} {c} (opens p es new _ _ _ _ e _) d =
    rw (e, map-append (λ r. r.id) b.0 (p ∷ [])) (IsDistinct-append (ids b.0) p.id new d)
Step-IsDistinct {b} {c} (confirms p q _ same _ _ w _) d = rw (ids-Swaps p q b.0 c.0 same.id w) d
Step-IsDistinct {b} {c} (cancels p q _ _ same _ _ _ w _) d = rw (ids-Swaps p q b.0 c.0 same.id w) d
Step-IsDistinct {b} {c} (captures p q _ _ same _ _ _ _ w _) d =
    rw (ids-Swaps p q b.0 c.0 same.id w) d
Step-IsDistinct {b} {c} (refunds p q _ _ _ same _ _ _ _ _ _ w _) d =
    rw (ids-Swaps p q b.0 c.0 same.id w) d

-- ===== src/Payment/Books.antt =====
-- The books: what the table of intents and the ledger have to do with one another, and how a
-- booking keeps it.
pub mod Booking
use ix_gateway.Prelude.{
  ℕ, String, Bool, true, false, ◌&&◌, Option, none, some, List, [], ◌∷◌, ◌++◌, ◌≡◌, refl, ◌∙◌, ◌⊎◌,
  inl, inr, any, All, if◌then◌else◌, ◌==◌, eq_iff, arith, Bool-cases,
}
use ix_gateway.Prelude.Int.{ℤ, pos, ◌+ℤ◌, ◌-ℤ◌, ◌≤ℤ◌, int_laws}
use ix_gateway.Prelude.Dict.{==-false_symm}
use ix_gateway.Models.{Metadata, PaymentIntent, LedgerEntry, is_succeeded}
use ix_gateway.Env.{Env}
use ix_gateway.Ledger.{pair, is_value, entries_of, sum_signed}
use ix_gateway.Ledger.Sums.{net, net-append}
use ix_gateway.Payment.{payments_captured, replace_intent}

-- An entry of an intent in the account of captured payments.
abbrev pub is_captured : String → LedgerEntry → Bool
is_captured pid e = is_value e.payment_intent_id pid && e.account == payments_captured

-- The captured position of an intent: credits less debits.
abbrev pub captured : String → List LedgerEntry → ℤ
captured pid es = net (is_captured pid) es

-- An intent's row agrees with the ledger: what is captured is what was received less what was
-- refunded, no more is refunded than received, and before success nothing is received.
abbrev pub IsSettled : List LedgerEntry → PaymentIntent → Type 0
IsSettled es p =
    (captured p.id es ≡ p.amount_received -ℤ p.amount_refunded)
    × (pos 0 ≤ℤ p.amount_refunded)
    × (p.amount_refunded ≤ℤ p.amount_received)
    × ((is_succeeded p.status ≡ true) ⊎ (p.amount_received ≡ pos 0))

-- The foreign key of an entry names a row of the table, or nothing.
abbrev pub has_row : List PaymentIntent → Option String → Bool
has_row ps none = true
has_row ps (some pid) = any (λ p. p.id == pid) ps

-- The invariant of the two tables. Entries are balanced in every selection by currency and intent.
pub record IsConsistent (ps : List PaymentIntent) (es : List LedgerEntry) : Type 0 where
  pub balanced :
      (keep : String → Option String → Bool)
      → net (λ e. keep e.currency e.payment_intent_id) es ≡ pos 0
  pub settled : All (IsSettled es) ps
  pub referred : All (λ e. has_row ps e.payment_intent_id ≡ true) es

module _ (env : Env) (n now : ℕ) (txn currency from to pid : String) (amount : ℤ)
    (description : Option String) (metadata : Metadata) where
  abbrev pub rows : List LedgerEntry
  rows = entries_of env n now txn currency (some pid) description metadata (pair from to amount)

  -- What a pair adds to the captured position of an intent.
  abbrev pub moved : ℤ
  moved =
      (if to == payments_captured then amount else pos 0)
      -ℤ (if from == payments_captured then amount else pos 0)

  pub captured-rows_self : captured pid rows ≡ moved
  unfolding entries_of sum_signed
  captured-rows_self = grind (int_laws, eq_iff pid pid)

  pub captured-rows_ne : (q : String) → (q == pid) ≡ false → captured q rows ≡ pos 0
  unfolding entries_of sum_signed
  captured-rows_ne q h = rw (==-false_symm q pid h) refl

  pub net-rows :
      (keep : String → Option String → Bool)
      → net (λ e. keep e.currency e.payment_intent_id) rows ≡ pos 0
  unfolding entries_of sum_signed
  net-rows keep = elim (Bool-cases (keep currency (some pid))) [
    | inl kept ↦ rw kept (grind int_laws)
    | inr left ↦ rw left refl
  ]

module _ (env : Env) (n now : ℕ) (txn currency from to pid : String) (amount : ℤ)
    (description : Option String) (metadata : Metadata) (es : List LedgerEntry) where
  pub captured-book :
      captured pid (es ++ rows env n now txn currency from to pid amount description metadata)
      ≡ captured pid es +ℤ moved env n now txn currency from to pid amount description metadata
  captured-book = cc (
    net-append (is_captured pid) es
        (rows env n now txn currency from to pid amount description metadata),
    captured-rows_self env n now txn currency from to pid amount description metadata,
  )

pub +ℤ-zero : (a : ℤ) → a +ℤ pos 0 ≡ a
+ℤ-zero a = grind int_laws

-- Rewriting a row of the same id leaves every reference in place.
any-replace_intent :
    (pid : String) (p : PaymentIntent) (ps : List PaymentIntent)
    → any (λ q. q.id == pid) (replace_intent p ps) ≡ any (λ q. q.id == pid) ps
any-replace_intent pid p [] = refl
any-replace_intent pid p (q ∷ ps) = elim (Bool-cases (q.id == p.id)) [
  | inl same ↦ rw (same, (eq_iff q.id p.id).0 same, any-replace_intent pid p ps) refl
  | inr other ↦ rw (other, any-replace_intent pid p ps) refl
]

has_row-replace_intent :
    (p : PaymentIntent) (ps : List PaymentIntent) (pid : Option String)
    → has_row (replace_intent p ps) pid ≡ has_row ps pid
has_row-replace_intent p ps none = refl
has_row-replace_intent p ps (some pid) = any-replace_intent pid p ps

pub All-has_row :
    (p : PaymentIntent) (ps : List PaymentIntent) (es : List LedgerEntry)
    → All (λ e. has_row ps e.payment_intent_id ≡ true) es
    → All (λ e. has_row (replace_intent p ps) e.payment_intent_id ≡ true) es
All-has_row p ps [] h = tt
All-has_row p ps (e ∷ es) (x, h) =
    (has_row-replace_intent p ps e.payment_intent_id ∙ x, All-has_row p ps es h)

pub IsSettled-add :
    (es new : List LedgerEntry) (q : PaymentIntent)
    → captured q.id new ≡ pos 0
    → IsSettled es q
    → IsSettled (es ++ new) q
IsSettled-add es new q none_new h = (
  cc (net-append (is_captured q.id) es new, none_new, h.0, +ℤ-zero (captured q.id es)),
  h.1,
  h.2,
  h.3,
)

module _ (es new : List LedgerEntry) (p : PaymentIntent) where
  pub IsSettled-replace_intent :
      ((q : String) → (q == p.id) ≡ false → captured q new ≡ pos 0)
      → IsSettled (es ++ new) p
      → (ps : List PaymentIntent) → All (IsSettled es) ps
      → All (IsSettled (es ++ new)) (replace_intent p ps)
  IsSettled-replace_intent others own [] h = tt
  IsSettled-replace_intent others own (q ∷ ps) (x, h) = elim (Bool-cases (q.id == p.id)) [
    | inl same ↦ rw same (own, IsSettled-replace_intent others own ps h)
    | inr other ↦
        rw other
          (IsSettled-add es new q (others q.id other) x, IsSettled-replace_intent others own ps h)
  ]

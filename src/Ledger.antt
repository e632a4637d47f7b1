-- ===== src/Ledger.antt =====
-- app/services/ledger.py: the double-entry ledger, its single writer and its readers.
pub mod Sums
pub mod Record
pub mod Balances
use ix_gateway.Prelude.{
  ℕ, ◌+◌, String, Bool, true, false, not, ◌&&◌, Option, none, some, List, [], ◌∷◌, ◌++◌, length,
  any, select, ⊤, ltb, leb, ◌==◌, if◌then◌else◌,
}
use ix_gateway.Prelude.Int.{ℤ, pos, ◌+ℤ◌, ◌-ℤ◌, leb_ℤ, eqb_ℤ}
use ix_gateway.Prelude.Text.{lower, truthy, concat}
use ix_gateway.Errors.{ledger, too_few_legs, unbalanced, not_positive}
use ix_gateway.Models.{Metadata, LedgerEntry, LedgerEntryDirection, debit, credit}
use ix_gateway.Env.{Env}
use ix_gateway.Db.{Db, Session, Exec, ok, pure, gets, raise_if, uuid4_hex, ◌>>=◌, ◌>>◌}

pub record LedgerLeg : Type 0 where
  pub account : String
  pub direction : LedgerEntryDirection
  pub amount : ℤ

-- The legs of every transaction of the program: a debit and a credit of one amount.
abbrev pub pair : (from to : String) → ℤ → List LedgerLeg
pair from to amount =
    record { account = from; direction = debit; amount = amount }
    ∷ record { account = to; direction = credit; amount = amount }
    ∷ []

abbrev pub same_direction : LedgerEntryDirection → LedgerEntryDirection → Bool
same_direction debit debit = true
same_direction credit credit = true
same_direction _ _ = false

-- `sum(leg.amount for leg in legs if leg.direction == d)`
unfoldable pub sum_legs : LedgerEntryDirection → List LedgerLeg → ℤ
sum_legs d [] = pos 0
sum_legs d (leg ∷ legs) =
    let rest = sum_legs d legs in
    if same_direction leg.direction d then leg.amount +ℤ rest else rest

-- Credits count up and debits down.
abbrev pub signed : LedgerEntryDirection → ℤ → ℤ
signed credit amount = amount
signed debit amount = pos 0 -ℤ amount

unfoldable pub sum_signed : List LedgerEntry → ℤ
sum_signed [] = pos 0
sum_signed (e ∷ es) = signed e.direction e.amount +ℤ sum_signed es

-- A comparison with a nullable column.
abbrev pub is_value : Option String → String → Bool
is_value none v = false
is_value (some x) v = x == v

module _ (env : Env) where
  -- The rows of a transaction; the n-th UUID and those after it make their ids.
  unfoldable pub entries_of :
      ℕ
      → (now : ℕ) (txn currency : String) (pid description : Option String) → Metadata
      → List LedgerLeg
      → List LedgerEntry
  entries_of n now txn currency pid description metadata [] = []
  entries_of n now txn currency pid description metadata (leg ∷ legs) =
      record {
        id = concat "le_" (env.uuid_hex n);
        transaction_id = txn;
        account = leg.account;
        direction = leg.direction;
        amount = leg.amount;
        currency = currency;
        payment_intent_id = pid;
        description = description;
        entry_metadata = metadata;
        created_at = now;
      }
      ∷ entries_of (n + 1) now txn currency pid description metadata legs

  -- `transaction_id or f"tx_{uuid.uuid4().hex}"`
  unfoldable pub transaction_id_or_new : Option String → Exec String
  transaction_id_or_new none = do hex ← uuid4_hex env; pure (concat "tx_" hex)
  transaction_id_or_new (some t) = pure t

  -- `session.add_all(entries)` and `session.flush()`; whether the texts fit their columns is left out.
  unfoldable pub add_entries :
      (txn currency : String) (pid description : Option String)
      → Metadata
      → List LedgerLeg
      → Exec (List LedgerEntry)
  add_entries txn currency pid description metadata legs s =
      let entries = entries_of s.uuids s.now txn currency pid description metadata legs in
      (
        ok entries,
        record s {
          db = record s.db { ledger_entries = s.db.ledger_entries ++ entries };
          uuids = s.uuids + length legs;
        },
      )

  unfoldable pub record_transaction :
      List LedgerLeg
      → (currency : String) (pid description : Option String) → Metadata
      → (transaction_id : Option String) → Exec (List LedgerEntry)
  unfolding transaction_id_or_new add_entries
  record_transaction legs currency pid description metadata transaction_id = do
    raise_if (ltb (length legs) 2) (ledger too_few_legs)
    raise_if (not (eqb_ℤ (sum_legs debit legs) (sum_legs credit legs))) (ledger unbalanced)
    raise_if (any (λ leg. leb_ℤ leg.amount (pos 0)) legs) (ledger not_positive)
    txn ← transaction_id_or_new (truthy transaction_id)
    add_entries txn (lower currency) pid description metadata legs

-- Credits less debits of one account in one currency.
unfoldable pub get_balance : String → String → Exec ℤ
get_balance account currency = gets λ s.
    sum_signed
      (select (λ e. e.account == account && e.currency == lower currency) s.db.ledger_entries)

-- `order_by(created_at.asc())`; rows of one time stay in the order of their insertion.
unfoldable pub insert_by_time : LedgerEntry → List LedgerEntry → List LedgerEntry
insert_by_time e [] = e ∷ []
insert_by_time e (x ∷ xs) =
    let rest = insert_by_time e xs in if leb e.created_at x.created_at then e ∷ x ∷ xs else x ∷ rest

unfoldable pub order_by_time : List LedgerEntry → List LedgerEntry
unfolding insert_by_time
order_by_time [] = []
order_by_time (e ∷ es) = insert_by_time e (order_by_time es)

unfoldable pub list_entries_for_intent : String → Exec (List LedgerEntry)
list_entries_for_intent pid =
    gets (λ s. order_by_time (select (λ e. is_value e.payment_intent_id pid) s.db.ledger_entries))

-- ===== src/Ledger/Balances.antt =====
-- app/services/ledger.py: the balances of all accounts, by currency.
pub mod Nets
pub mod Groups
pub mod Nested
use ix_gateway.Prelude.{
  String, Bool, true, false, ◌&&◌, ◌||◌, not, Option, none, some, List, [], ◌∷◌, any, select, ◌==◌,
  if◌then◌else◌,
}
use ix_gateway.Prelude.Int.{ℤ, ◌+ℤ◌}
use ix_gateway.Prelude.Dict.{get, set_key, leb_text}
use ix_gateway.Models.{PaymentIntent, LedgerEntry}
use ix_gateway.Db.{Db, Session, Exec, gets}
use ix_gateway.Ledger.{signed, is_value}

-- A row of the query: an account in a currency.
pub record BalanceRow : Type 0 where
  pub currency : String
  pub account : String
  pub balance : ℤ

abbrev pub is_owner : Option String → PaymentIntent → String → Bool
is_owner none p merchant = false
is_owner (some pid) p merchant = (p.id == pid) && is_value p.merchant_id merchant

-- The join with the intents of a merchant. An intent's id is a primary key, so that an entry is
-- joined with one intent at most. Without a merchant there is no join.
abbrev pub is_scoped : List PaymentIntent → Option String → Option String → Bool
is_scoped ps none pid = true
is_scoped ps (some merchant) pid = any (λ p. is_owner pid p merchant) ps

abbrev pub in_group : LedgerEntry → BalanceRow → Bool
in_group e r = (r.currency == e.currency) && (r.account == e.account)

-- `group_by(currency, account)` with `sum(signed)`
unfoldable pub add_entry : LedgerEntry → List BalanceRow → List BalanceRow
add_entry e [] =
    record { currency = e.currency; account = e.account; balance = signed e.direction e.amount }
    ∷ []
add_entry e (r ∷ rs) =
    let rest = add_entry e rs in
    if in_group e r
    then record r { balance = r.balance +ℤ signed e.direction e.amount } ∷ rs
    else r ∷ rest

unfoldable pub group_entries : List LedgerEntry → List BalanceRow → List BalanceRow
unfolding add_entry
group_entries [] rs = rs
group_entries (e ∷ es) rs = group_entries es (add_entry e rs)

-- `order_by(currency.asc(), account.asc())`
abbrev pub row_before : BalanceRow → BalanceRow → Bool
row_before r q =
    if r.currency == q.currency
    then leb_text r.account q.account
    else leb_text r.currency q.currency

unfoldable pub insert_row : BalanceRow → List BalanceRow → List BalanceRow
insert_row r [] = r ∷ []
insert_row r (q ∷ qs) =
    let rest = insert_row r qs in if row_before r q then r ∷ q ∷ qs else q ∷ rest

unfoldable pub order_rows : List BalanceRow → List BalanceRow
unfolding insert_row
order_rows [] = []
order_rows (r ∷ rs) = insert_row r (order_rows rs)

abbrev pub or_empty : Option (List (String × ℤ)) → List (String × ℤ)
or_empty none = []
or_empty (some accounts) = accounts

-- `grouped.setdefault(currency, {})`
abbrev pub accounts_in : String → List (String × List (String × ℤ)) → List (String × ℤ)
accounts_in currency grouped = or_empty (get currency grouped)

-- The loop over the rows.
unfoldable pub nest :
    List BalanceRow → List (String × List (String × ℤ)) → List (String × List (String × ℤ))
nest [] grouped = grouped
nest (r ∷ rs) grouped =
    nest rs
      (set_key r.currency (set_key r.account r.balance (accounts_in r.currency grouped)) grouped)

abbrev pub balance_rows : Option String → Db → List BalanceRow
balance_rows merchant d = order_rows (
    group_entries
      (select (λ e. is_scoped d.payment_intents merchant e.payment_intent_id) d.ledger_entries) [])

unfoldable pub get_balances_by_currency : Option String → Exec (List (String × List (String × ℤ)))
get_balances_by_currency merchant = gets (λ s. nest (balance_rows merchant s.db) [])

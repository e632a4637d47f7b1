-- ===== src/Api/Dashboard.antt =====
-- app/api/dashboard.py: the balance and the list of transactions of a merchant.
pub mod Order
pub mod Bounds
pub mod Pages
pub mod Balance
use ix_gateway.Prelude.{
  ℕ, ◌+◌, ◌-◌, ◌*◌, String, Bool, true, false, ◌&&◌, ◌||◌, Option, none, some, List, [], ◌∷◌,
  length, select, take, drop, map, leb, ltb, ◌==◌, if◌then◌else◌,
}
use ix_gateway.Prelude.Int.{ℤ, pos, negsuc}
use ix_gateway.Prelude.Text.{lower, count}
use ix_gateway.Prelude.Dict.{total, sorted_items}
use ix_gateway.Errors.{validation_error}
use ix_gateway.Models.{PaymentIntent, PaymentIntentStatus, Merchant, status_is}
use ix_gateway.Env.{Env}
use ix_gateway.Db.{Session, Exec, pure, gets, or_raise, ◌>>=◌}
use ix_gateway.Ledger.{is_value}
use ix_gateway.Ledger.Balances.{get_balances_by_currency}
use ix_gateway.Auth.{Credentials, require_api_key}
use ix_gateway.Schemas.Views.{PaginatedTransactions, AccountBalance, CurrencyBalance, read_intent}

abbrev pub account_balances : List (String × ℤ) → List AccountBalance
account_balances [] = []
account_balances ((account, balance) ∷ d) =
    record { account = account; balance = balance } ∷ account_balances d

abbrev pub currency_balances : List (String × List (String × ℤ)) → List CurrencyBalance
currency_balances [] = []
currency_balances ((currency, accounts) ∷ d) =
    record {
      currency = currency;
      net = total accounts;
      accounts = account_balances (sorted_items accounts);
    }
    ∷ currency_balances d

-- The query string of `list_transactions`, with the defaults filled in.
pub record TransactionQuery : Type 0 where
  pub page : ℤ
  pub page_size : ℤ
  pub status_filter : Option PaymentIntentStatus
  pub currency : Option String

abbrev in_range : ℕ → Option ℕ → ℤ → Option ℕ
in_range low none (pos n) = if leb low n then some n else none
in_range low (some high) (pos n) = if leb low n && leb n high then some n else none
in_range low high (negsuc n) = none

abbrev three_letters : Option String → Bool
three_letters none = true
three_letters (some c) = leb 3 (count c) && leb (count c) 3

abbrev both : Option ℕ → Option ℕ → Bool → Option (ℕ × ℕ)
both none size fine = none
both (some page) none fine = none
both (some page) (some size) fine = if fine then some (page, size) else none

-- The checks of `Query(...)`: the page and its size.
unfoldable pub check_query : TransactionQuery → Option (ℕ × ℕ)
check_query q =
    both (in_range 1 none q.page) (in_range 1 (some 500) q.page_size) (three_letters q.currency)

abbrev pub status_fits : Option PaymentIntentStatus → PaymentIntent → Bool
status_fits none p = true
status_fits (some status) p = status_is p.status status

abbrev pub currency_fits : Option String → PaymentIntent → Bool
currency_fits none p = true
currency_fits (some currency) p = p.currency == lower currency

-- The conditions of the query `base`.
abbrev pub fits : Merchant → TransactionQuery → PaymentIntent → Bool
fits merchant q p =
    is_value p.merchant_id merchant.id
    && status_fits q.status_filter p
    && currency_fits q.currency p

-- `order_by(created_at.desc())` does not order rows of one time; `ties` says how they are placed.
module _ (ties : PaymentIntent → PaymentIntent → Bool) where
  abbrev pub is_before : PaymentIntent → PaymentIntent → Bool
  is_before p q = ltb q.created_at p.created_at || (leb q.created_at p.created_at && ties p q)

  unfoldable pub insert_newest : PaymentIntent → List PaymentIntent → List PaymentIntent
  insert_newest p [] = p ∷ []
  insert_newest p (q ∷ qs) =
      let rest = insert_newest p qs in if is_before p q then p ∷ q ∷ qs else q ∷ rest

  unfoldable pub newest_first : List PaymentIntent → List PaymentIntent
  unfolding insert_newest
  newest_first [] = []
  newest_first (p ∷ ps) = insert_newest p (newest_first ps)

module _ (env : Env) where
  -- `offset` and `limit` of the query for the rows, and the count of all.
  unfoldable pub transactions_page :
      Merchant → TransactionQuery → (page page_size : ℕ) → Exec PaginatedTransactions
  transactions_page merchant q page page_size = gets λ s.
      let base = select (fits merchant q) s.db.payment_intents in
      let offset = (page - 1) * page_size in
      let rows = newest_first (env.ties page_size offset) base in
      record {
        items = map read_intent (take page_size (drop offset rows));
        page = page;
        page_size = page_size;
        total = length base;
      }

  unfoldable pub get_balance : Option Credentials → Exec (List CurrencyBalance)
  get_balance header = do
    merchant ← require_api_key env header
    grouped ← get_balances_by_currency (some merchant.id)
    pure (currency_balances (sorted_items grouped))

  unfoldable pub list_transactions :
      Option Credentials → TransactionQuery → Exec PaginatedTransactions
  list_transactions header q = do
    merchant ← require_api_key env header
    (page, page_size) ← or_raise (check_query q) validation_error
    transactions_page merchant q page page_size

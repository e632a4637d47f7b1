-- ===== src/Api/Dashboard/Balance.antt =====
-- The balance that a merchant sees, against the ledger.
use mathlib.Core.Path.{subst}
use ix_gateway.Prelude.{String, ◌&&◌, Option, some, List, [], ◌∷◌, ◌≡◌, ◌∙◌, sym, ap, All, ◌==◌}
use ix_gateway.Prelude.Int.{ℤ, pos}
use ix_gateway.Prelude.Dict.{total, sorted_items}
use ix_gateway.Prelude.Dict.Items.{Items, Items-get, Items-sorted_items}
use ix_gateway.Models.{Merchant}
use ix_gateway.Env.{Env}
use ix_gateway.Db.{Db, Session, Result, ok, raised}
use ix_gateway.Db.Query.{gate_cases}
use ix_gateway.Auth.{Credentials, require_api_key}
use ix_gateway.ApiKeys.Upholds.{OnPayments-UpheldByKeys}
use ix_gateway.Auth.Upholds.{require_api_key-Upholds}
use ix_gateway.Payment.Safe.{Holds, Safe}
use ix_gateway.Ledger.Sums.{net}
use ix_gateway.Ledger.Balances.{is_scoped, balance_rows, or_empty, nest, get_balances_by_currency}
use ix_gateway.Ledger.Balances.Nested.{IsDistinct-nest, total-accounts_in}
use ix_gateway.Schemas.Views.{CurrencyBalance}
use ix_gateway.Api.Dashboard.{currency_balances, get_balance}

-- A currency's part of the answer is the net of a merchant's entries in it.
abbrev pub IsNet : Db → Merchant → CurrencyBalance → Type 0
IsNet d m c =
    c.net
    ≡ net
        (λ e.
          is_scoped d.payment_intents (some m.id) e.payment_intent_id && e.currency == c.currency)
        d.ledger_entries

module _ (d : Db) (m : Merchant) where
  abbrev Sums : String → List (String × ℤ) → Type 0
  Sums c accounts =
      total accounts
      ≡ net (λ e. is_scoped d.payment_intents (some m.id) e.payment_intent_id && e.currency == c)
          d.ledger_entries

  All-currency_balances :
      (g : List (String × List (String × ℤ))) → Items Sums g → All (IsNet d m) (currency_balances g)
  All-currency_balances [] h = tt
  All-currency_balances ((c, accounts) ∷ g) (p, h) = (p, All-currency_balances g h)

  -- The whole answer.
  All-IsNet :
      All (IsNet d m) (currency_balances (sorted_items (nest (balance_rows (some m.id) d) [])))
  All-IsNet =
      let g = nest (balance_rows (some m.id) d) [] in
      All-currency_balances (sorted_items g) (
        Items-sorted_items Sums g (
          Items-get Sums g (IsDistinct-nest (balance_rows (some m.id) d) [] tt) λ c accounts found.
            sym (ap (λ o. total (or_empty o)) found) ∙ total-accounts_in c (some m.id) d))

-- What the balance route answers: the merchant that it has authenticated sees a net for each
-- currency, which is that of the entries of the merchant's intents in the ledger, and no error comes
-- but from the gate.
abbrev pub ShowsNets :
    Env → Option Credentials → Session → Result (List CurrencyBalance) × Session → Type 0
ShowsNets env header s (raised e, t) = (require_api_key env header s).0 ≡ raised e
ShowsNets env header s (ok cs, t) =
    (m : Merchant) × ((require_api_key env header s).0 ≡ ok m) × All (IsNet t.db m) cs

-- The balance route raises only what its gate raises. When it answers, it has authenticated a
-- merchant, and the net of every currency in the answer is the sum, credits less debits, of the
-- ledger entries in that currency that belong to the merchant's intents.
pub get_balance-ShowsNets :
    (env : Env) (header : Option Credentials) (s : Session)
    → ShowsNets env header s (get_balance env header s)
unfolding get_balance get_balances_by_currency
get_balance-ShowsNets env header s =
    let (r, t) = require_api_key env header s in
    gate_cases (ShowsNets env header s) r _ t (λ e refused. refused)
      λ m authenticated. (m, authenticated, All-IsNet t.db m)

-- Whatever a merchant's part of consistent books, it balances in each currency.
All-zero :
    (d : Db) (m : Merchant) (cs : List CurrencyBalance)
    → Holds d
    → All (IsNet d m) cs
    → All (λ c. c.net ≡ pos 0) cs
All-zero d m [] h shown = tt
All-zero d m (c ∷ cs) h (p, shown) = (
  p
      ∙ h.balanced
          (λ currency pid. is_scoped d.payment_intents (some m.id) pid && currency == c.currency),
  All-zero d m cs h shown,
)

abbrev pub ShowsZero :
    Env → Option Credentials → Session → Result (List CurrencyBalance) × Session → Type 0
ShowsZero env header s (raised e, t) = (require_api_key env header s).0 ≡ raised e
ShowsZero env header s (ok cs, t) = All (λ c. c.net ≡ pos 0) cs

-- Over consistent books the balance route raises only what its gate raises, and every net in the
-- balance that it answers is 0.
pub get_balance-ShowsZero :
    (env : Env) (header : Option Credentials) (s : Session)
    → Holds s.db
    → Holds s.committed
    → ShowsZero env header s (get_balance env header s)
unfolding get_balance get_balances_by_currency
get_balance-ShowsZero env header s h k =
    let (r, t) = require_api_key env header s in
    gate_cases (ShowsZero env header s) r _ t (λ e refused. refused)
      λ m authenticated.
        let safe : Safe (ok m, t) =
          subst (λ x. Safe (x, t)) authenticated
            (require_api_key-Upholds env (OnPayments-UpheldByKeys env) header s h k) in
        All-zero t.db m _ safe.books.0 (All-IsNet t.db m)

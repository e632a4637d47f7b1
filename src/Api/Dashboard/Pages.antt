-- ===== src/Api/Dashboard/Pages.antt =====
-- The list of transactions, page by page.
use ix_gateway.Api.Dashboard.Order.{
  IsNewestFirst, All-newest_first, newest_first-IsNewestFirst, count_of, count_of-newest_first,
  length-newest_first, HasDistinctTimes, newest_first_any,
}
use ix_gateway.Api.Dashboard.Bounds.{check_query-bounds}
use ix_gateway.Prelude.{
  ℕ, zero, suc, ◌+◌, ◌-◌, ◌*◌, ◌≤◌, Bool, true, ◌&&◌, Option, none, List, [], ◌∷◌, ◌++◌, ◌≡◌, refl,
  ◌∙◌, sym, ap, inl, inr, All, length, select, take, drop, map, leb, if◌then◌else◌, arith, take_all,
  map-append, take_sum, length-map, All-map, ◌⊎◌, length-take, All-take, All-drop, length-drop,
  All-select_test,
}
use ix_gateway.Errors.{validation_error}
use ix_gateway.Auth.{Credentials, require_api_key}
use ix_gateway.Db.Query.{gate_cases}
use ix_gateway.Prelude.{Option-cases}
use ix_gateway.Models.{PaymentIntent, Merchant}
use ix_gateway.Env.{Env}
use ix_gateway.Db.{Session, Result, ok, raised}
use ix_gateway.Ledger.{is_value}
use ix_gateway.Schemas.Views.{PaymentIntentRead, PaginatedTransactions, read_intent}
use ix_gateway.Api.Dashboard.{
  TransactionQuery, fits, newest_first, transactions_page, list_transactions, check_query,
  status_fits, currency_fits,
}

abbrev pub least : ℕ → ℕ → ℕ
least m n = if leb m n then m else n

first_true : (a b : Bool) → (a && b) ≡ true → a ≡ true
first_true a b h = ground arith

All-own :
    (m : Merchant) (q : TransactionQuery) (ps : List PaymentIntent)
    → All (λ p. fits m q p ≡ true) ps
    → All (λ p. is_value p.merchant_id m.id ≡ true) ps
All-own m q [] h = tt
All-own m q (p ∷ ps) (x, h) = (
  first_true (is_value p.merchant_id m.id) (status_fits q.status_filter p) (
      first_true (is_value p.merchant_id m.id && status_fits q.status_filter p)
        (currency_fits q.currency p) x),
  All-own m q ps h,
)

abbrev items_of : Result PaginatedTransactions → List PaymentIntentRead
items_of (ok v) = v.items
items_of (raised e) = []

module _ (env : Env) (merchant : Merchant) (q : TransactionQuery) (page_size : ℕ)
    (s : Session) where
  -- The items of the first so many pages, one after another.
  abbrev pub read_pages : ℕ → List PaymentIntentRead
  read_pages zero = []
  read_pages (suc n) =
      read_pages n ++ items_of (transactions_page env merchant q (suc n) page_size s).0

  abbrev chosen : List PaymentIntent
  chosen = select (fits merchant q) s.db.payment_intents

  -- The rows as a query orders them.
  abbrev listed : (offset : ℕ) → List PaymentIntent
  listed offset = newest_first (env.ties page_size offset) chosen

  length-listed : (offset : ℕ) → length (listed offset) ≡ length chosen
  length-listed offset = length-newest_first (env.ties page_size offset) chosen

  module _ (distinct : HasDistinctTimes chosen) where
    listed_any : (offset : ℕ) → listed offset ≡ listed 0
    listed_any offset =
        newest_first_any (env.ties page_size offset) (env.ties page_size 0) chosen distinct

    read_pages-take : (n : ℕ) → read_pages n ≡ map read_intent (take (n * page_size) (listed 0))
    unfolding transactions_page
    read_pages-take zero =
        let e : 0 * page_size ≡ 0 = omega arith in
        sym (ap (λ k. map read_intent (take k (listed 0))) e)
    read_pages-take (suc n) =
        let e : suc n * page_size ≡ n * page_size + page_size = omega arith in
        let off : suc n - 1 ≡ n = omega arith in
        let page = take page_size (drop (n * page_size) (listed 0)) in
        ap
          (λ l.
            l
            ++ map read_intent (
                take page_size (drop ((suc n - 1) * page_size) (listed ((suc n - 1) * page_size)))))
          (read_pages-take n)
        ∙ ap
            (λ k.
              map read_intent (take (n * page_size) (listed 0))
              ++ map read_intent (take page_size (drop (k * page_size) (listed (k * page_size)))))
            off
        ∙ ap
            (λ l.
              map read_intent (take (n * page_size) (listed 0))
              ++ map read_intent (take page_size (drop (n * page_size) l)))
            (listed_any (n * page_size))
        ∙ sym (map-append read_intent (take (n * page_size) (listed 0)) page)
        ∙ sym (ap (map read_intent) (take_sum (n * page_size) page_size (listed 0)))
        ∙ sym (ap (λ k. map read_intent (take k (listed 0))) e)

    -- If no two intents that fit the query have one creation time, then enough pages, one after
    -- another, are all of them: newest first, and each as often as in the table. Each page may place
    -- rows of one time as it likes.
    pub read_pages_all :
        (n : ℕ)
        → length chosen ≤ n * page_size
        → (ps : List PaymentIntent) × (read_pages n ≡ map read_intent ps)
          × IsNewestFirst ps
          × ((test : PaymentIntent → Bool) → count_of test ps ≡ count_of test chosen)
    read_pages_all n enough = (
      listed 0,
      read_pages-take n
          ∙ ap (map read_intent)
              (take_all (n * page_size) (listed 0) (rw (length-listed 0) enough)),
      newest_first-IsNewestFirst (env.ties page_size 0) chosen,
      λ test. count_of-newest_first (env.ties page_size 0) test chosen,
    )

  -- A page has as many items as are left, up to its size.
  length-page :
      (page : ℕ)
      → length (
          map read_intent
            (take page_size (drop ((page - 1) * page_size) (listed ((page - 1) * page_size)))))
        ≡ least page_size
            (length (select (fits merchant q) s.db.payment_intents) - (page - 1) * page_size)
  length-page page =
      let offset = (page - 1) * page_size in
      length-map read_intent (take page_size (drop offset (listed offset)))
      ∙ length-take page_size (drop offset (listed offset))
      ∙ ap (least page_size)
          (length-drop offset (listed offset) ∙ ap (λ n. n - offset) (length-listed offset))

  All-page :
      (page : ℕ)
      → All
          (λ v. is_value v.merchant_id merchant.id ≡ true)
          (map read_intent
            (take page_size (drop ((page - 1) * page_size) (listed ((page - 1) * page_size)))))
  All-page page =
      let offset = (page - 1) * page_size in
      let own = λ (p : PaymentIntent). is_value p.merchant_id merchant.id ≡ true in
      All-map _ read_intent (take page_size (drop offset (listed offset))) (
        All-take own page_size (drop offset (listed offset)) (
          All-drop own offset (listed offset) (
            All-newest_first (env.ties page_size offset) own
              (select (fits merchant q) s.db.payment_intents)
              (All-own merchant q (select (fits merchant q) s.db.payment_intents)
                (All-select_test (fits merchant q) s.db.payment_intents)))))

-- What the route for the list of transactions answers, or that its gate or the checks of the query
-- have refused it.
abbrev pub ListsOwn :
    Env
    → Option Credentials
    → TransactionQuery
    → Session
    → Result PaginatedTransactions × Session
    → Type 0
ListsOwn env header q s (raised e, t) =
    ((require_api_key env header s).0 ≡ raised e)
    ⊎ ((e ≡ validation_error) × (check_query q ≡ none))
ListsOwn env header q s (ok v, t) =
    (m : Merchant) × ((require_api_key env header s).0 ≡ ok m)
    × (1 ≤ v.page)
    × (1 ≤ v.page_size)
    × (v.page_size ≤ 500)
    × (v.total ≡ length (select (fits m q) t.db.payment_intents))
    × (length v.items ≡ least v.page_size (v.total - (v.page - 1) * v.page_size))
    × All (λ i. is_value i.merchant_id m.id ≡ true) v.items

-- The list of transactions is refused by the gate, or because the query is out of range; else it
-- has authenticated a merchant, the page and its size are in range, the total is the number of the
-- merchant's intents that fit the query, the page has as many items as are left for it, up to its
-- size, and all of them are the merchant's.
pub list_transactions-ListsOwn :
    (env : Env) (header : Option Credentials) (q : TransactionQuery) (s : Session)
    → ListsOwn env header q s (list_transactions env header q s)
unfolding list_transactions transactions_page
list_transactions-ListsOwn env header q s =
    let (r, t) = require_api_key env header s in
    let Post = ListsOwn env header q s in
    gate_cases Post r _ t (λ e refused. inl refused)
      λ m authenticated. elim (Option-cases (check_query q)) [
        | inl refused ↦ rw refused (inr (refl, refused))
        | inr ((page, page_size), checked) ↦
            let (low, size, high) = check_query-bounds q page page_size checked in
            rw checked (
              m,
              authenticated,
              low,
              size,
              high,
              refl,
              length-page env m q page_size t page,
              All-page env m q page_size t page,
            )
      ]

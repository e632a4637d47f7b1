-- ===== src/StripeClient/Pages.antt =====
-- The listing of balance transactions against a Stripe that serves a list page by page.
use mathlib.Core.Option.{some-injective}
use mathlib.Core.Path.{subst}
use ix_gateway.Prelude.{
  length-drop, ℕ, zero, suc, ◌<◌, String, Bool, true, false, Option, none, some, List, [], ◌∷◌,
  ◌++◌, ◌≡◌, refl, sym, ◌∙◌, ap, All, length, take, drop, take-append-drop, append_assoc,
  append_nil, if◌then◌else◌, ◌==◌, eq_refl, arith, length-drop,
}
use ix_gateway.Env.{StripeReply, BalanceTransaction, BalanceQuery, BalancePage, answered}
use ix_gateway.Db.{ok}
use ix_gateway.StripeClient.{last, walk_pages, walk_types, list_balance_transactions}

-- The items behind a cursor.
abbrev pub after : Option String → List BalanceTransaction → List BalanceTransaction
after none xs = xs
after (some id) [] = []
after (some id) (x ∷ xs) = if x.id == id then xs else after (some id) xs

abbrev pub is_more : List BalanceTransaction → Bool
is_more [] = false
is_more (x ∷ xs) = true

-- Cursor pagination: a page has the next items up to the limit, and says whether there are more.
abbrev pub page_of : ℕ → List BalanceTransaction → BalancePage
page_of limit rest = record { items = take limit rest; has_more = is_more (drop limit rest) }

-- No two items of a list have the same id.
abbrev pub IsDistinct : List BalanceTransaction → Type 0
IsDistinct [] = Unit
IsDistinct (x ∷ xs) = All (λ y. (x.id == y.id) ≡ false) xs × IsDistinct xs

last-All :
    (P : BalanceTransaction → Type 0) (xs : List BalanceTransaction) (w : BalanceTransaction)
    → All P xs
    → last xs ≡ some w
    → P w
last-All P [] w h e = cc
last-All P (x ∷ []) w (p, h) e = subst P (some-injective x w e) p
last-All P (x ∷ y ∷ xs) w (p, h) e = last-All P (y ∷ xs) w h e

All-front :
    (P : BalanceTransaction → Type 0) (xs ys : List BalanceTransaction)
    → All P (xs ++ ys)
    → All P xs
All-front P [] ys h = tt
All-front P (x ∷ xs) ys (p, h) = (p, All-front P xs ys h)

-- What lies behind the last item of a front part is the rest.
after-last :
    (xs ys : List BalanceTransaction) (w : BalanceTransaction)
    → IsDistinct (xs ++ ys)
    → last xs ≡ some w
    → after (some w.id) (xs ++ ys) ≡ ys
after-last [] ys w d e = cc
after-last (x ∷ []) ys w d e =
    rw (ap (λ (b : BalanceTransaction). b.id) (sym (some-injective x w e)), eq_refl x.id) refl
after-last (x ∷ y ∷ xs) ys w (apart, d) e =
    rw
      (last-All (λ z. (x.id == z.id) ≡ false) (y ∷ xs) w
        (All-front (λ z. (x.id == z.id) ≡ false) (y ∷ xs) ys apart) e)
      (after-last (y ∷ xs) ys w d e)

last-append :
    (xs ys : List BalanceTransaction) (w : BalanceTransaction)
    → last ys ≡ some w
    → last (xs ++ ys) ≡ some w
last-append [] ys w e = e
last-append (x ∷ []) [] w e = cc
last-append (x ∷ []) (y ∷ ys) w e = e
last-append (x ∷ z ∷ xs) ys w e = last-append (z ∷ xs) ys w e

last_cons :
    (x : BalanceTransaction) (xs : List BalanceTransaction)
    → (w : BalanceTransaction) × (last (x ∷ xs) ≡ some w)
last_cons x [] = (x, refl)
last_cons x (y ∷ xs) = last_cons y xs

module _ (pages : BalanceQuery → StripeReply BalancePage) (limit : ℕ) (xs : List BalanceTransaction)
    (distinct : IsDistinct xs) where
  -- The next round: its query starts behind the page, where the rest is.
  next_round :
      (front page rest : List BalanceTransaction) (w : BalanceTransaction)
      → xs ≡ front ++ (page ++ rest)
      → last page ≡ some w
      → (xs ≡ (front ++ page) ++ rest) × (after (some w.id) xs ≡ rest)
  next_round front page rest w split e =
      let split' : xs ≡ (front ++ page) ++ rest = split ∙ sym (append_assoc front page rest) in
      (
        split',
        rw split' (
            after-last (front ++ page) rest w (subst IsDistinct split' distinct)
              (last-append front page w e)),
      )

  -- Behind a front part, enough fuel lists the rest.
  walk_rest :
      (fuel : ℕ) (query : BalanceQuery) (front rest collected : List BalanceTransaction)
      → ((cursor : Option String)
          → pages (record query { starting_after = cursor })
            ≡ answered (page_of (suc limit) (after cursor xs)))
      → xs ≡ front ++ rest
      → after query.starting_after xs ≡ rest
      → length rest < fuel
      → walk_pages pages fuel query collected ≡ some (ok (collected ++ rest))
  unfolding walk_pages
  walk_rest zero query front rest collected serves split here enough = elim enough [ ]
  walk_rest (suc fuel) query front [] collected serves split here enough =
      rw (serves query.starting_after, here) refl
  walk_rest (suc fuel) query front (z ∷ zs) collected serves split here enough =
      let page = z ∷ take limit zs in
      let joined : page ++ drop limit zs ≡ z ∷ zs = ap (λ l. z ∷ l) (take-append-drop limit zs) in
      go (drop limit zs) refl λ w e.
        let (split', here') =
          next_round front page (drop limit zs) w (split ∙ ap (λ l. front ++ l) (sym joined)) e in
        walk_rest fuel (record query { starting_after = some w.id }) (front ++ page) (drop limit zs)
          (collected ++ page) serves split' here' (omega (arith, length-drop limit zs))
        ∙ ap (λ l. some (ok l))
            (append_assoc collected page (drop limit zs) ∙ ap (λ l. collected ++ l) joined)
    where
      go :
          (rest : List BalanceTransaction)
          → drop limit zs ≡ rest
          → ((w : BalanceTransaction)
              → last (z ∷ take limit zs) ≡ some w
              → walk_pages pages fuel
                  (record query { starting_after = some w.id })
                  (collected ++ z ∷ take limit zs)
                ≡ some (ok (collected ++ z ∷ zs)))
          → walk_pages pages (suc fuel) query collected ≡ some (ok (collected ++ z ∷ zs))
      go [] none_left next =
          let whole : take limit zs ≡ zs =
            sym (append_nil (take limit zs)) ∙ (rw none_left at (take-append-drop limit zs)) in
          rw (serves query.starting_after, here, none_left, whole) refl
      go (t ∷ ts) some_left next =
          let (w, e) = last_cons z (take limit zs) in
          rw
            (
              serves query.starting_after ∙ ap (λ l. answered (page_of (suc limit) l)) here,
              some_left,
              e,
            )
            (next w e)

  pub walk_pages-all :
      (fuel : ℕ) (query : BalanceQuery) (collected : List BalanceTransaction)
      → ((cursor : Option String)
          → pages (record query { starting_after = cursor })
            ≡ answered (page_of (suc limit) (after cursor xs)))
      → query.starting_after ≡ none
      → length xs < fuel
      → walk_pages pages fuel query collected ≡ some (ok (collected ++ xs))
  walk_pages-all fuel query collected serves first enough =
      walk_rest fuel query [] xs collected serves refl (rw first refl) enough

-- Stripe serves, for each type of a query, a list of its transactions in pages of 100.
abbrev pub Serves :
    (BalanceQuery → StripeReply BalancePage)
    → (created_gte created_lt : ℕ) → (type : Option String) → List BalanceTransaction
    → Type 0
Serves pages created_gte created_lt type xs =
    (cursor : Option String)
    → pages (record {
      created_gte = created_gte;
      created_lt = created_lt;
      type = type;
      starting_after = cursor;
    })
      ≡ answered (page_of 100 (after cursor xs))

-- If Stripe serves a list of charges and a list of refunds in pages of 100 items, each without a
-- repeated id, and the fuel is more than the length of either, the listing of both types ends and is
-- all the charges and then all the refunds.
pub list_balance_transactions-all :
    (pages : BalanceQuery → StripeReply BalancePage) (fuel created_gte created_lt : ℕ)
    (charges refunds : List BalanceTransaction)
    → IsDistinct charges
    → IsDistinct refunds
    → Serves pages created_gte created_lt (some "charge") charges
    → Serves pages created_gte created_lt (some "refund") refunds
    → length charges < fuel
    → length refunds < fuel
    → list_balance_transactions pages fuel created_gte created_lt ("charge" ∷ "refund" ∷ [])
      ≡ some (ok (charges ++ refunds))
unfolding list_balance_transactions walk_types
list_balance_transactions-all pages fuel gte lt charges refunds dc dr sc sr fc fr =
    rw
      (
        walk_pages-all pages 99 charges dc fuel (query_of (some "charge")) [] sc refl fc,
        walk_pages-all pages 99 refunds dr fuel (query_of (some "refund")) charges sr refl fr,
      )
      refl
  where
    query_of : Option String → BalanceQuery
    query_of type = record {
      created_gte = gte;
      created_lt = lt;
      type = type;
      starting_after = none;
    }

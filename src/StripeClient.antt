-- ===== src/StripeClient.antt =====
-- app/services/stripe_client.py: the calls of `StripeClient`. A call that changes something is one
-- request to Stripe with the idempotency key forwarded; an error of Stripe's raises
-- `stripe.StripeError`. The listing of balance transactions is a request for each page.
pub mod Pages
use ix_gateway.Prelude.{
  ℕ, zero, suc, String, Option, none, some, List, [], ◌∷◌, ◌++◌, if◌then◌else◌,
}
use ix_gateway.Prelude.Int.{ℤ}
use ix_gateway.Prelude.Text.{truthy}
use ix_gateway.Errors.{stripe_error, index_error}
use ix_gateway.Models.{Metadata}
use ix_gateway.Env.{
  Env, StripeCall, StripeIntent, StripeReply, BalanceTransaction, BalanceQuery, BalancePage,
  create_intent_call, confirm_intent_call, cancel_intent_call, create_refund_call, answered,
  failed_call,
}
use ix_gateway.Db.{Session, Result, Exec, ok, raised}

abbrev pub reply_result : {A : Type 0} → StripeReply A → Result A
reply_result (answered a) = ok a
reply_result (failed_call text) = raised (stripe_error text)

-- The call is on Stripe's side whether it is answered or fails.
abbrev pub sent : StripeCall → Session → Session
sent c s = record s { calls = c ∷ s.calls }

module _ (env : Env) where
  unfoldable pub create_payment_intent :
      ℤ → String → String → Option String → Option String → Metadata → Exec StripeIntent
  create_payment_intent amount currency key customer description metadata s =
      let c = create_intent_call amount currency customer description metadata key in
      (reply_result (env.intents s.calls c), sent c s)

  unfoldable pub confirm_payment_intent : String → String → String → Exec StripeIntent
  confirm_payment_intent sid payment_method key s =
      let c = confirm_intent_call sid payment_method key in
      (reply_result (env.intents s.calls c), sent c s)

  -- An empty `cancellation_reason` is not passed on.
  unfoldable pub cancel_payment_intent : String → String → Option String → Exec StripeIntent
  cancel_payment_intent sid key reason s =
      let c = cancel_intent_call sid key (truthy reason) in
      (reply_result (env.intents s.calls c), sent c s)

  -- The id of the refund.
  unfoldable pub create_refund : String → Option ℤ → String → Option String → Exec String
  create_refund sid amount key reason s =
      let c = create_refund_call sid key amount (truthy reason) in
      (reply_result (env.refunds s.calls c), sent c s)

-- The last item of a page, `page.data[-1]`.
abbrev pub last : List BalanceTransaction → Option BalanceTransaction
last [] = none
last (b ∷ []) = some b
last (b ∷ c ∷ rest) = last (c ∷ rest)

-- Reading pages: `none` is a loop that has used up its fuel.
abbrev pub Listing : Type 0
Listing = Option (Result (List BalanceTransaction))

-- The end of the loop's body: `break`, or the next round from the last item.
abbrev pub after_page : (String → Listing) → List BalanceTransaction → BalancePage → Listing
after_page again collected page =
    if page.has_more
    then elim (last page.items) [ none ↦ some (raised index_error) | some b ↦ again b.id ]
    else some (ok collected)

abbrev pub on_page : (BalancePage → Listing) → StripeReply BalancePage → Listing
on_page next (answered page) = next page
on_page next (failed_call text) = some (raised (stripe_error text))

abbrev pub and_then : Listing → (List BalanceTransaction → Listing) → Listing
and_then none next = none
and_then (some (ok collected)) next = next collected
and_then (some (raised e)) next = some (raised e)

-- The pages that Stripe has: its answers to queries at one time.
module _ (pages : BalanceQuery → StripeReply BalancePage) where
  -- `while True`
  unfoldable pub walk_pages : ℕ → BalanceQuery → List BalanceTransaction → Listing
  walk_pages zero query collected = none
  walk_pages (suc fuel) query collected =
      on_page
        (λ page.
          after_page
            (λ id.
              walk_pages fuel (record query { starting_after = some id }) (collected ++ page.items))
            (collected ++ page.items) page)
        (pages query)

  -- `for t in types`
  unfoldable pub walk_types : ℕ → BalanceQuery → List String → List BalanceTransaction → Listing
  unfolding walk_pages
  walk_types fuel query [] collected = some (ok collected)
  walk_types fuel query (t ∷ types) collected =
      and_then (walk_pages fuel (record query { type = some t }) collected)
        (walk_types fuel query types)

  -- An empty list of types counts as none.
  pub list_balance_transactions : ℕ → (created_gte created_lt : ℕ) → List String → Listing
  list_balance_transactions fuel created_gte created_lt types =
      let query : BalanceQuery = record {
        created_gte = created_gte;
        created_lt = created_lt;
        type = none;
        starting_after = none;
      } in
      elim types [ [] ↦ walk_pages fuel query [] | t ∷ ts ↦ walk_types fuel query (t ∷ ts) [] ]

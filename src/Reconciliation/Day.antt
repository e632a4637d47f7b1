-- ===== src/Reconciliation/Day.antt =====
-- app/workers/reconciliation.py: a day of our payment intents against Stripe's balance transactions.
pub mod Sums
pub mod Exact
pub mod Balance
pub mod Complete
use ix_gateway.Prelude.{
  ℕ, ◌+◌, ◌-◌, ◌*◌, ◌/◌, String, Bool, true, ◌&&◌, Option, none, some, List, [], ◌∷◌, ◌++◌, any,
  length, select, ltb, leb, ⊤, ◌==◌, if◌then◌else◌,
}
use ix_gateway.Prelude.Int.{ℤ, pos, ◌+ℤ◌, ◌-ℤ◌, eqb_ℤ}
use ix_gateway.Prelude.Text.{concat}
use ix_gateway.Prelude.Dict.{get, set_key, keys, union, sorted, total}
use ix_gateway.Errors.{integrity_error}
use ix_gateway.Models.{
  PaymentIntent, Mismatch, missing_stripe, missing_internal, amount_mismatch, ReconciliationRun,
  is_succeeded,
}
use ix_gateway.Env.{
  Env, IntentRef, Source, BalanceTransaction, no_ref, text_ref, dict_ref, plain, expanded,
}
use ix_gateway.Db.{
  Session, Result, Exec, ok, raised, pure, gets, session_scope, uuid4_hex, ◌>>=◌, ◌>>◌,
}
use ix_gateway.StripeClient.{Listing, list_balance_transactions}

abbrev ref_id : IntentRef → Option String
ref_id no_ref = none
ref_id (text_ref pi) = some pi
ref_id (dict_ref pi) = pi

abbrev source_id : Source → Option String
source_id plain = none
source_id (expanded ref) = ref_id ref

-- `_bt_payment_intent_id`
unfoldable pub bt_payment_intent_id : BalanceTransaction → Option String
bt_payment_intent_id bt = source_id bt.source

abbrev or_zero : Option ℤ → ℤ
or_zero none = pos 0
or_zero (some n) = n

abbrev add_amount : Option String → ℤ → List (String × ℤ) → List (String × ℤ)
add_amount none amount d = d
add_amount (some pi) amount d = set_key pi (or_zero (get pi d) +ℤ amount) d

-- The loop that nets Stripe's side.
unfoldable pub stripe_by_pi : List BalanceTransaction → List (String × ℤ) → List (String × ℤ)
unfolding bt_payment_intent_id
stripe_by_pi [] d = d
stripe_by_pi (bt ∷ bts) d = stripe_by_pi bts (add_amount (bt_payment_intent_id bt) bt.amount d)

abbrev start_of : ℕ → ℕ
start_of day = day * 86400

abbrev has_id : Option String → Bool
has_id none = Bool.false
has_id (some id) = true

-- The query of the internal side.
unfoldable pub day_intents : (day : ℕ) → List PaymentIntent → List PaymentIntent
day_intents day = select (λ p.
    has_id p.stripe_payment_intent_id
    && leb (start_of day) p.updated_at
    && ltb p.updated_at (start_of day + 86400))

abbrev set_intent :
    Option String → PaymentIntent → List (String × PaymentIntent) → List (String × PaymentIntent)
set_intent none i d = d
set_intent (some pi) i d = set_key pi i d

-- The comprehension `{i.stripe_payment_intent_id: i for i in …}`
unfoldable pub internal_intents :
    List PaymentIntent → List (String × PaymentIntent) → List (String × PaymentIntent)
internal_intents [] d = d
internal_intents (i ∷ is) d = internal_intents is (set_intent i.stripe_payment_intent_id i d)

-- The net amounts of those that are succeeded.
unfoldable pub internal_by_pi : List (String × PaymentIntent) → List (String × ℤ)
internal_by_pi [] = []
internal_by_pi ((pi, i) ∷ d) =
    let rest = internal_by_pi d in
    if is_succeeded i.status then (pi, i.amount_received -ℤ i.amount_refunded) ∷ rest else rest

-- The body of the loop over the ids.
unfoldable pub compare_amounts : String → (s_amt i_amt : Option ℤ) → List Mismatch
compare_amounts pi none i_amt = missing_stripe pi i_amt ∷ []
compare_amounts pi (some s) none = missing_internal pi s ∷ []
compare_amounts pi (some s) (some i) =
    if eqb_ℤ s i then [] else amount_mismatch pi s i (s -ℤ i) ∷ []

unfoldable pub classify : List String → (stripe internal : List (String × ℤ)) → List Mismatch
unfolding compare_amounts
classify [] stripe internal = []
classify (pi ∷ ids) stripe internal =
    compare_amounts pi (get pi stripe) (get pi internal) ++ classify ids stripe internal

-- The row that `ReconciliationRun(...)` builds.
abbrev pub new_run :
    (stripe internal : List (String × ℤ)) → (day : ℕ) → String → ℕ → ReconciliationRun
new_run stripe internal day hex now =
    let mismatches = classify (sorted (union (keys stripe) (keys internal))) stripe internal in
    record {
      id = concat "rr_" hex;
      run_date = day;
      total_stripe = total stripe;
      total_internal = total internal;
      mismatches_count = length mismatches;
      mismatches = mismatches;
      created_at = now;
    }

-- `session.add(run)` and `session.flush()`
unfoldable pub add_run : ReconciliationRun → Exec ⊤
add_run r s =
    if any (λ q. q.id == r.id) s.db.reconciliation_runs then (raised integrity_error, s) else (
      ok tt,
      record s { db = record s.db { reconciliation_runs = s.db.reconciliation_runs ++ r ∷ [] } },
    )

-- The internal side of a day.
abbrev pub internal_side : (day : ℕ) → Session → List (String × ℤ)
internal_side day s = internal_by_pi (internal_intents (day_intents day s.db.payment_intents) [])

module _ (env : Env) where
  unfoldable pub compare_sides : (day : ℕ) → List BalanceTransaction → Exec ReconciliationRun
  compare_sides day bts = do
    internal ← gets (internal_side day)
    hex ← uuid4_hex env
    now ← gets (λ s. s.now)
    let r = new_run (stripe_by_pi bts []) internal day hex now
    add_run r
    pure r

  -- The block under `session_scope`.
  unfoldable pub record_run : (day : ℕ) → List BalanceTransaction → Exec ReconciliationRun
  unfolding compare_sides
  record_run day bts = session_scope (compare_sides day bts)

  abbrev on_listing : (day : ℕ) → Session → Listing → Option (Result ReconciliationRun × Session)
  on_listing day s none = none
  on_listing day s (some (raised e)) = some (raised e, s)
  on_listing day s (some (ok bts)) = some (record_run day bts s)

  -- `none` is a listing that has used up its fuel.
  pub reconcile_day : (fuel day : ℕ) → Session → Option (Result ReconciliationRun × Session)
  reconcile_day fuel day s = on_listing day s (
      list_balance_transactions (env.balance_page s.calls) fuel (start_of day)
        (start_of day + 86400) ("charge" ∷ "refund" ∷ []))

  pub reconcile_yesterday : (fuel : ℕ) → Session → Option (Result ReconciliationRun × Session)
  reconcile_yesterday fuel s = reconcile_day fuel ((s.now - 86400) / 86400) s

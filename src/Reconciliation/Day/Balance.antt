-- ===== src/Reconciliation/Day/Balance.antt =====
-- The mismatches of a reconciliation against its totals.
use ix_gateway.Reconciliation.Day.Sums.{sum_over, sum_over-total}
use mathlib.Core.Path.{subst}
use ix_gateway.Prelude.Text.{concat}
use ix_gateway.Prelude.{
  String, Bool, true, false, ◌||◌, Option, none, some, List, [], ◌∷◌, ◌++◌, ◌≡◌, refl, ◌∙◌, inl,
  inr, Bool-cases, ◌==◌, arith, ℕ, any,
}
use ix_gateway.Prelude.Int.{ℤ, pos, ◌+ℤ◌, ◌-ℤ◌, eqb_ℤ, eqb_ℤ→eq, int_laws}
use ix_gateway.Prelude.Dict.{get, keys, mem, union, sorted, mem-union, mem-sorted, total}
use ix_gateway.Prelude.Dict.Distinct.{
  IsDistinct, IsDistinct-sorted, IsDistinct-union, IsDistinct-set_key, first_false, second_false,
  both_false,
}
use ix_gateway.Models.{
  PaymentIntent, Mismatch, missing_stripe, missing_internal, amount_mismatch, ReconciliationRun,
  is_succeeded,
}
use ix_gateway.Env.{Env, BalanceTransaction}
use ix_gateway.Db.{Session, Result, ok, raised, uuid4_hex, session_scope}
use ix_gateway.Reconciliation.Day.{
  or_zero, compare_amounts, classify, bt_payment_intent_id, stripe_by_pi, internal_intents,
  internal_by_pi, internal_side, day_intents, add_run, compare_sides, record_run, add_amount,
  set_intent,
}

-- How much of Stripe's side over ours a mismatch accounts for.
abbrev pub impact : Mismatch → ℤ
impact (missing_stripe pi i) = pos 0 -ℤ or_zero i
impact (missing_internal pi s) = s
impact (amount_mismatch pi s i d) = d

abbrev pub imbalance : List Mismatch → ℤ
imbalance [] = pos 0
imbalance (m ∷ ms) = impact m +ℤ imbalance ms

imbalance-append : (ms ns : List Mismatch) → imbalance (ms ++ ns) ≡ imbalance ms +ℤ imbalance ns
imbalance-append [] ns = grind int_laws
imbalance-append (m ∷ ms) ns = rw (imbalance-append ms ns) (grind int_laws)

same_sides : (s i : ℤ) → eqb_ℤ s i ≡ true → pos 0 ≡ s -ℤ i
same_sides s i h = rw (eqb_ℤ→eq s i h) (grind int_laws)

imbalance-compare_amounts :
    (pi : String) (s i : Option ℤ) → imbalance (compare_amounts pi s i) ≡ or_zero s -ℤ or_zero i
unfolding compare_amounts
imbalance-compare_amounts pi none i = grind int_laws
imbalance-compare_amounts pi (some s) none = grind int_laws
imbalance-compare_amounts pi (some s) (some i) = elim (Bool-cases (eqb_ℤ s i)) [
  | inl same ↦ rw same (same_sides s i same)
  | inr other ↦ rw other (grind int_laws)
]

imbalance-classify :
    (ids : List String) (a b : List (String × ℤ))
    → imbalance (classify ids a b) ≡ sum_over ids a -ℤ sum_over ids b
unfolding classify
imbalance-classify [] a b = grind int_laws
imbalance-classify (k ∷ ids) a b =
    imbalance-append (compare_amounts k (get k a) (get k b)) (classify ids a b)
    ∙ rw (imbalance-compare_amounts k (get k a) (get k b), imbalance-classify ids a b)
        (grind int_laws)

-- A day's sides have no key twice.
IsDistinct-add_amount :
    (pi : Option String) (n : ℤ) (d : List (String × ℤ))
    → IsDistinct (keys d)
    → IsDistinct (keys (add_amount pi n d))
IsDistinct-add_amount none n d h = h
IsDistinct-add_amount (some pi) n d h = IsDistinct-set_key pi (or_zero (get pi d) +ℤ n) d h

IsDistinct-stripe_by_pi :
    (bts : List BalanceTransaction) (d : List (String × ℤ))
    → IsDistinct (keys d)
    → IsDistinct (keys (stripe_by_pi bts d))
unfolding stripe_by_pi
IsDistinct-stripe_by_pi [] d h = h
IsDistinct-stripe_by_pi (bt ∷ bts) d h =
    IsDistinct-stripe_by_pi bts (add_amount (bt_payment_intent_id bt) bt.amount d)
      (IsDistinct-add_amount (bt_payment_intent_id bt) bt.amount d h)

IsDistinct-set_intent :
    (pi : Option String) (i : PaymentIntent) (d : List (String × PaymentIntent))
    → IsDistinct (keys d)
    → IsDistinct (keys (set_intent pi i d))
IsDistinct-set_intent none i d h = h
IsDistinct-set_intent (some pi) i d h = IsDistinct-set_key pi i d h

IsDistinct-internal_intents :
    (is : List PaymentIntent) (d : List (String × PaymentIntent))
    → IsDistinct (keys d)
    → IsDistinct (keys (internal_intents is d))
unfolding internal_intents
IsDistinct-internal_intents [] d h = h
IsDistinct-internal_intents (i ∷ is) d h =
    IsDistinct-internal_intents is (set_intent i.stripe_payment_intent_id i d)
      (IsDistinct-set_intent i.stripe_payment_intent_id i d h)

stays_absent :
    (k : String) (d : List (String × PaymentIntent))
    → mem k (keys d) ≡ false
    → mem k (keys (internal_by_pi d)) ≡ false
unfolding internal_by_pi
stays_absent k [] h = refl
stays_absent k ((pi, i) ∷ d) h =
    let rest = stays_absent k d (second_false (pi == k) (mem k (keys d)) h) in
    elim (Bool-cases (is_succeeded i.status)) [
      | inl paid ↦ rw paid (
          both_false (pi == k) (mem k (keys (internal_by_pi d)))
            (first_false (pi == k) (mem k (keys d)) h) rest)
      | inr unpaid ↦ rw unpaid rest
    ]

IsDistinct-internal_by_pi :
    (d : List (String × PaymentIntent)) → IsDistinct (keys d) → IsDistinct (keys (internal_by_pi d))
unfolding internal_by_pi
IsDistinct-internal_by_pi [] h = tt
IsDistinct-internal_by_pi ((pi, i) ∷ d) (apart, h) = elim (Bool-cases (is_succeeded i.status)) [
  | inl paid ↦ rw paid (stays_absent pi d apart, IsDistinct-internal_by_pi d h)
  | inr unpaid ↦ rw unpaid (IsDistinct-internal_by_pi d h)
]

IsDistinct-internal_side : (day : ℕ) (s : Session) → IsDistinct (keys (internal_side day s))
IsDistinct-internal_side day s =
    IsDistinct-internal_by_pi (internal_intents (day_intents day s.db.payment_intents) [])
      (IsDistinct-internal_intents (day_intents day s.db.payment_intents) [] tt)

imbalance-sides :
    (a b : List (String × ℤ))
    → IsDistinct (keys a)
    → IsDistinct (keys b)
    → imbalance (classify (sorted (union (keys a) (keys b))) a b) ≡ total a -ℤ total b
imbalance-sides a b da db =
    let ids = sorted (union (keys a) (keys b)) in
    let distinct : IsDistinct ids =
      IsDistinct-sorted (union (keys a) (keys b)) (IsDistinct-union (keys a) (keys b) da) in
    imbalance-classify ids a b
    ∙ rw
        (
          sum_over-total ids a distinct da
              λ k h. mem-ids k ∙ left (mem k (keys a)) (mem k (keys b)) h,
          sum_over-total ids b distinct db
              λ k h. mem-ids k ∙ right (mem k (keys a)) (mem k (keys b)) h,
        )
        refl
  where
    mem-ids :
        (k : String) → mem k (sorted (union (keys a) (keys b))) ≡ (mem k (keys a) || mem k (keys b))
    mem-ids k = mem-sorted k (union (keys a) (keys b)) ∙ mem-union k (keys a) (keys b)

    left : (x y : Bool) → x ≡ true → (x || y) ≡ true
    left x y h = ground arith

    right : (x y : Bool) → y ≡ true → (x || y) ≡ true
    right x y h = ground arith

abbrev Balances : Result ReconciliationRun → Type 0
Balances (raised e) = Unit
Balances (ok r) = imbalance r.mismatches ≡ r.total_stripe -ℤ r.total_internal

record_run-Balances :
    (env : Env) (day : ℕ) (bts : List BalanceTransaction) (s : Session)
    → Balances (record_run env day bts s).0
unfolding record_run session_scope compare_sides uuid4_hex add_run
record_run-Balances env day bts s =
    let hex = env.uuid_hex s.uuids in
    elim (Bool-cases (any (λ q. q.id == concat "rr_" hex) s.db.reconciliation_runs)) [
      | inl taken ↦ rw taken tt
      | inr fresh ↦ rw fresh (
          imbalance-sides (stripe_by_pi bts []) (internal_side day s)
            (IsDistinct-stripe_by_pi bts [] tt) (IsDistinct-internal_side day s))
    ]

-- In a run that a pass returns, the mismatches account for the difference of the totals: what
-- each says of an id, summed over all of them, is Stripe's total less ours.
pub record_run-imbalance :
    (env : Env) (day : ℕ) (bts : List BalanceTransaction) (s : Session) (r : ReconciliationRun)
    → (record_run env day bts s).0 ≡ ok r
    → imbalance r.mismatches ≡ r.total_stripe -ℤ r.total_internal
record_run-imbalance env day bts s r returned =
    subst Balances returned (record_run-Balances env day bts s)

-- ===== src/Payment/Life/Rows.antt =====
-- Rows of the table of intents: with one row for each id, a write changes one row.
use mathlib.Core.Path.{subst}
use ix_gateway.Prelude.{
  true, false, List, [], ◌∷◌, ◌≡◌, refl, sym, ◌∙◌, inl, inr, Row, ◌==◌, any, ◌||◌, arith, eq_refl,
  Bool-cases,
}
use ix_gateway.Models.{PaymentIntent}
use ix_gateway.Db.{Db}
use ix_gateway.Payment.{replace_intent, conflicts, same_value, Bool}
use ix_gateway.Prelude.Dict.{or_true, eq_of_==}
use ix_gateway.Prelude.Dict.Distinct.{first_false, second_false}
use ix_gateway.Payment.Life.{Swaps, ids, mem, IsDistinct}

-- A key that is not in the list stays out of the way of a replacement.
replace_intent-absent :
    (q : PaymentIntent) (ps : List PaymentIntent)
    → mem q.id (ids ps) ≡ false
    → replace_intent q ps ≡ ps
replace_intent-absent q [] h = refl
replace_intent-absent q (x ∷ xs) h =
    rw
      (
        first_false (x.id == q.id) (mem q.id (ids xs)) h,
        replace_intent-absent q xs (second_false (x.id == q.id) (mem q.id (ids xs)) h),
      )
      refl

mem-Row : (p : PaymentIntent) (ps : List PaymentIntent) → Row p ps → mem p.id (ids ps) ≡ true
mem-Row p [] row = elim row [ ]
mem-Row p (x ∷ xs) (inl e) = rw (e, eq_refl p.id) refl
mem-Row p (x ∷ xs) (inr row) = rw (mem-Row p xs row) (or_true (x.id == p.id))

-- With one row for each id, a replacement is a change of one row.
pub Swaps-replace_intent :
    (p q : PaymentIntent) (ps : List PaymentIntent)
    → IsDistinct (ids ps)
    → Row p ps
    → q.id ≡ p.id
    → Swaps p q ps (replace_intent q ps)
Swaps-replace_intent p q [] d row same = elim row [ ]
Swaps-replace_intent p q (x ∷ xs) (apart, d) (inl e) same =
    let found : (x.id == q.id) ≡ true = rw (same, e) (eq_refl p.id) in
    let gone : mem q.id (ids xs) ≡ false = rw (same, sym e) apart in
    inl (e, rw found refl, replace_intent-absent q xs gone)
Swaps-replace_intent p q (x ∷ xs) (apart, d) (inr row) same = elim (Bool-cases (x.id == q.id)) [
  | inl found ↦
      let clash : true ≡ false =
        sym (mem-Row p xs row)
        ∙ (subst (λ k. mem k (ids xs) ≡ false) (eq_of_== x.id q.id found ∙ same) apart) in
      cc
  | inr other ↦ inr (rw other refl, Swaps-replace_intent p q xs d row same)
]

first_and_rest : (a b c m : Bool) → ((a || b || c) || m) ≡ false → (a ≡ false) × (m ≡ false)
first_and_rest a b c m h = ground arith

-- A row that repeats no unique column has an id of its own.
pub mem-fresh :
    (p : PaymentIntent) (ps : List PaymentIntent)
    → any (conflicts p) ps ≡ false
    → mem p.id (ids ps) ≡ false
mem-fresh p [] h = refl
mem-fresh p (x ∷ xs) h =
    let (apart, rest) =
      first_and_rest (x.id == p.id) (x.idempotency_key == p.idempotency_key)
        (same_value x.stripe_payment_intent_id p.stripe_payment_intent_id) (any (conflicts p) xs)
        h in
    rw (apart, mem-fresh p xs rest) refl

module _ (p new : PaymentIntent) (s t : Db) where
  -- The same for a row that is written under a name of its own.
  pub swapped :
      (q : PaymentIntent)
      → IsDistinct (ids s.payment_intents)
      → Row p s.payment_intents
      → new.id ≡ p.id
      → t.payment_intents ≡ replace_intent q s.payment_intents
      → q ≡ new
      → Swaps p new s.payment_intents t.payment_intents
  swapped q d row same table e =
      rw (table, e) (Swaps-replace_intent p new s.payment_intents d row same)

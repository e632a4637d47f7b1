-- ===== src/Payment/Life/Lasting.antt =====
-- What lasts over the life of the intents.
use mathlib.Core.Path.{subst}
use ix_gateway.Prelude.{
  true, false, List, [], ◌∷◌, ◌++◌, ◌≡◌, refl, sym, ◌∙◌, ap, ◌⊎◌, inl, inr, Row, append_assoc,
  append_nil, arith, Bool-cases, ℕ,
}
use ix_gateway.Prelude.Int.{◌≤ℤ◌, int_laws}
use ix_gateway.Models.{PaymentIntent, LedgerEntry, is_succeeded, is_terminal, PaymentIntentStatus}
use ix_gateway.Payment.Life.{
  Tables, IsSameOrder, Swaps, Step, opens, confirms, cancels, captures, refunds, Reach, here, later,
  ℤ,
}

-- A later state `q` of the row `p`: of the same order, with no refund taken back, and still paid,
-- with the same receipt, if `p` is paid.
pub record Carries (p q : PaymentIntent) : Type 0 where
  pub order : IsSameOrder p q
  pub refunded : p.amount_refunded ≤ℤ q.amount_refunded
  pub receipt :
      (is_succeeded p.status ≡ false)
      ⊎ ((is_succeeded q.status ≡ true) × (q.amount_received ≡ p.amount_received))

-- A row that carries `p` on is in the table.
pub record Carried (p : PaymentIntent) (ps : List PaymentIntent) : Type 0 where
  pub now : PaymentIntent
  pub row : Row now ps
  pub carries : Carries p now

-- What the service writes in a row leaves the order as it is.
pub written_order :
    (p : PaymentIntent) (status : PaymentIntentStatus) (received refunded : ℤ) (now : ℕ)
    → IsSameOrder p (record p {
      status = status;
      amount_received = received;
      amount_refunded = refunded;
      updated_at = now;
    })
written_order p status received refunded now = record {
  id = refl;
  stripe_payment_intent_id = refl;
  idempotency_key = refl;
  amount = refl;
  currency = refl;
  merchant_id = refl;
  customer_id = refl;
  created_at = refl;
}

IsSameOrder-trans : {p q r : PaymentIntent} → IsSameOrder p q → IsSameOrder q r → IsSameOrder p r
IsSameOrder-trans a b = record {
  id = b.id ∙ a.id;
  stripe_payment_intent_id = b.stripe_payment_intent_id ∙ a.stripe_payment_intent_id;
  idempotency_key = b.idempotency_key ∙ a.idempotency_key;
  amount = b.amount ∙ a.amount;
  currency = b.currency ∙ a.currency;
  merchant_id = b.merchant_id ∙ a.merchant_id;
  customer_id = b.customer_id ∙ a.customer_id;
  created_at = b.created_at ∙ a.created_at;
}

Carries-self : (p : PaymentIntent) → Carries p p
Carries-self p = record {
  order = written_order p p.status p.amount_received p.amount_refunded p.updated_at;
  refunded = omega arith;
  receipt = elim (Bool-cases (is_succeeded p.status)) [
    | inl paid ↦ inr (paid, refl)
    | inr unpaid ↦ inl unpaid
  ];
}

Carries-trans : {p q r : PaymentIntent} → Carries p q → Carries q r → Carries p r
Carries-trans {p} {q} {r} a b = record {
  order = IsSameOrder-trans a.order b.order;
  refunded = omega (arith, a.refunded, b.refunded);
  receipt = join a.receipt b.receipt;
}
  where
    join :
        (is_succeeded p.status ≡ false)
          ⊎ ((is_succeeded q.status ≡ true) × (q.amount_received ≡ p.amount_received))
        → (is_succeeded q.status ≡ false)
          ⊎ ((is_succeeded r.status ≡ true) × (r.amount_received ≡ q.amount_received))
        → (is_succeeded p.status ≡ false)
          ⊎ ((is_succeeded r.status ≡ true) × (r.amount_received ≡ p.amount_received))
    join (inl unpaid) _ = inl unpaid
    join (inr (paid, e)) (inl unpaid) = let clash : true ≡ false = sym paid ∙ unpaid in cc
    join (inr (paid, e)) (inr (still, f)) = inr (still, f ∙ e)

-- A row of the table is still there after a change of one row, or it is the row that is changed.
Row-Swaps :
    (r p q : PaymentIntent) (ps qs : List PaymentIntent)
    → Row r ps
    → Swaps p q ps qs
    → Row r qs ⊎ ((r ≡ p) × Row q qs)
Row-Swaps r p q [] qs row w = elim w [ ]
Row-Swaps r p q (x ∷ xs) [] row w = elim w [ ]
Row-Swaps r p q (x ∷ xs) (y ∷ ys) (inl e) (inl (f, g, _)) = inr (sym e ∙ f, inl g)
Row-Swaps r p q (x ∷ xs) (y ∷ ys) (inr row) (inl (_, _, rest)) =
    inl (inr (subst (λ l. Row r l) (sym rest) row))
Row-Swaps r p q (x ∷ xs) (y ∷ ys) (inl e) (inr (f, _)) = inl (inl (f ∙ e))
Row-Swaps r p q (x ∷ xs) (y ∷ ys) (inr row) (inr (_, w)) = elim (Row-Swaps r p q xs ys row w) [
  | inl there ↦ inl (inr there)
  | inr (e, there) ↦ inr (e, inr there)
]

Row-append_left : {A : Type 0} (a : A) (xs ys : List A) → Row a xs → Row a (xs ++ ys)
Row-append_left a [] ys r = elim r [ ]
Row-append_left a (x ∷ xs) ys (inl e) = inl e
Row-append_left a (x ∷ xs) ys (inr r) = inr (Row-append_left a xs ys r)

carry_on :
    (p q r : PaymentIntent) (ps qs : List PaymentIntent)
    → Row r ps
    → Swaps p q ps qs
    → Carries p q
    → Carried r qs
carry_on p q r ps qs row w carries = elim (Row-Swaps r p q ps qs row w) [
  | inl there ↦ record { now = r; row = there; carries = Carries-self r }
  | inr (e, there) ↦ record {
    now = q;
    row = there;
    carries = subst (λ x. Carries x q) (sym e) carries;
  }
]

unpaid-Carries :
    (p q : PaymentIntent)
    → is_succeeded p.status ≡ false
    → IsSameOrder p q
    → q.amount_refunded ≡ p.amount_refunded
    → Carries p q
unpaid-Carries p q unpaid same e = record {
  order = same;
  refunded = rw e (omega arith);
  receipt = inl unpaid;
}

open_unpaid : (p : PaymentIntent) → is_terminal p.status ≡ false → is_succeeded p.status ≡ false
open_unpaid p h = ground arith

-- Each step carries every row on.
Step-Carried : {b c : Tables} (r : PaymentIntent) → Step b c → Row r b.0 → Carried r c.0
Step-Carried {b} {c} r (opens p _ _ _ _ _ _ e _) row = record {
  now = r;
  row = rw e (Row-append_left r b.0 (p ∷ []) row);
  carries = Carries-self r;
}
Step-Carried {b} {c} r (confirms p q unended same _ e w _) row =
    carry_on p q r b.0 c.0 row w (unpaid-Carries p q (open_unpaid p unended) same e)
Step-Carried {b} {c} r (cancels p q _ unpaid same _ e _ w _) row =
    carry_on p q r b.0 c.0 row w (unpaid-Carries p q unpaid same e)
Step-Carried {b} {c} r (captures p q _ unpaid same _ _ e _ w _) row =
    carry_on p q r b.0 c.0 row w (unpaid-Carries p q unpaid same e)
Step-Carried {b} {c} r (refunds p q n _ paid same status e f positive _ _ w _) row =
    carry_on p q r b.0 c.0 row w
      (record { order = same; refunded = rw f (grind int_laws); receipt = inr (rw status paid, e) })

pub Reach-Carried : {b c : Tables} (r : PaymentIntent) → Reach b c → Row r b.0 → Carried r c.0
Reach-Carried r here row = record { now = r; row = row; carries = Carries-self r }
Reach-Carried r (later steps step) row =
    let before = Reach-Carried r steps row in
    let after = Step-Carried before.now step before.row in
    record {
      now = after.now;
      row = after.row;
      carries = Carries-trans before.carries after.carries;
    }

-- Each step only adds to the ledger.
Step-appends : {b c : Tables} → Step b c → (es : List LedgerEntry) × (c.1 ≡ b.1 ++ es)
Step-appends (opens _ es _ _ _ _ _ _ e) = (es, e)
Step-appends {b} (confirms _ _ _ _ _ _ _ e) = ([], e ∙ sym (append_nil b.1))
Step-appends (cancels _ _ es _ _ _ _ _ _ e) = (es, e)
Step-appends (captures _ _ es _ _ _ _ _ _ _ e) = (es, e)
Step-appends (refunds _ _ _ es _ _ _ _ _ _ _ _ _ e) = (es, e)

pub Reach-appends : {b c : Tables} → Reach b c → (es : List LedgerEntry) × (c.1 ≡ b.1 ++ es)
Reach-appends {b} here = ([], sym (append_nil b.1))
Reach-appends {b} (later steps step) =
    let (es, e) = Reach-appends steps in
    let (more, f) = Step-appends step in
    (es ++ more, f ∙ ap (λ l. l ++ more) e ∙ append_assoc b.1 es more)

-- ===== src/Payment/Books/Booking.antt =====
-- The three changes that the program makes to the books, each of which keeps them consistent: an
-- intent's row alone, a row with a booking, and a new row with a booking.
use mathlib.Core.List.{append-nil}
use ix_gateway.Prelude.{
  ℕ, String, Bool, true, false, ◌||◌, Option, none, some, List, [], ◌∷◌, ◌++◌, ◌≡◌, refl, ap, any,
  All, All-append, ◌==◌, eq_iff, eq_refl, arith, Bool-cases, inl, inr,
}
use ix_gateway.Prelude.Dict.{or_true}
use ix_gateway.Prelude.Int.{ℤ, pos}
use ix_gateway.Models.{Metadata, PaymentIntent, LedgerEntry}
use ix_gateway.Env.{Env}
use ix_gateway.Ledger.{entries_of, sum_signed, is_value}
use ix_gateway.Ledger.Sums.{net, net-append}
use ix_gateway.Payment.{conflicts, replace_intent}
use ix_gateway.Payment.Books.{
  IsConsistent, IsSettled, captured, has_row, rows, net-rows, captured-rows_ne,
  IsSettled-replace_intent, All-has_row, IsSettled-add, +ℤ-zero,
}

pub update-IsConsistent :
    (p : PaymentIntent) (ps : List PaymentIntent) (es : List LedgerEntry)
    → IsConsistent ps es
    → IsSettled es p
    → IsConsistent (replace_intent p ps) es
unfolding sum_signed
update-IsConsistent p ps es c own = record {
  balanced = c.balanced;
  settled =
      rw (append-nil es) at
        (IsSettled-replace_intent es [] p (λ q h. refl) (rw (append-nil es) own) ps c.settled);
  referred = All-has_row p ps es c.referred;
}

unknown_value :
    (pid : String) (ps : List PaymentIntent) (o : Option String)
    → any (λ p. p.id == pid) ps ≡ false
    → has_row ps o ≡ true
    → is_value o pid ≡ false
unknown_value pid ps none h k = refl
unknown_value pid ps (some q) h k = elim (Bool-cases (q == pid)) [
  | inl same ↦ cc (h, k, ap (λ (x : String). any (λ p. p.id == x) ps) ((eq_iff q pid).0 same))
  | inr other ↦ other
]

-- An intent without a row has no entries.
captured_unknown :
    (pid : String) (ps : List PaymentIntent) (es : List LedgerEntry)
    → any (λ p. p.id == pid) ps ≡ false
    → All (λ e. has_row ps e.payment_intent_id ≡ true) es
    → captured pid es ≡ pos 0
unfolding sum_signed
captured_unknown pid ps [] h k = refl
captured_unknown pid ps (e ∷ es) h (x, k) =
    rw (unknown_value pid ps e.payment_intent_id h x) (captured_unknown pid ps es h k)

any-concat :
    (pid : String) (p : PaymentIntent) (ps : List PaymentIntent)
    → any (λ q. q.id == pid) (ps ++ p ∷ []) ≡ (any (λ q. q.id == pid) ps || p.id == pid)
any-concat pid p [] = ground arith
any-concat pid p (q ∷ ps) = ground (arith, any-concat pid p ps)

has_row-concat :
    (p : PaymentIntent) (ps : List PaymentIntent) (o : Option String)
    → has_row ps o ≡ true
    → has_row (ps ++ p ∷ []) o ≡ true
has_row-concat p ps none h = refl
has_row-concat p ps (some pid) h = rw (any-concat pid p ps, h)

All-has_row-concat :
    (p : PaymentIntent) (ps : List PaymentIntent) (es : List LedgerEntry)
    → All (λ e. has_row ps e.payment_intent_id ≡ true) es
    → All (λ e. has_row (ps ++ p ∷ []) e.payment_intent_id ≡ true) es
All-has_row-concat p ps [] h = tt
All-has_row-concat p ps (e ∷ es) (x, h) =
    (has_row-concat p ps e.payment_intent_id x, All-has_row-concat p ps es h)

-- The flush that accepts a row has found its id in no other.
pub fresh_id :
    (p : PaymentIntent) (ps : List PaymentIntent)
    → any (conflicts p) ps ≡ false
    → any (λ q. q.id == p.id) ps ≡ false
fresh_id p [] h = refl
fresh_id p (q ∷ ps) h = ground (arith, fresh_id p ps)

All-IsSettled :
    (es new : List LedgerEntry) (p : PaymentIntent)
    → ((q : String) → (q == p.id) ≡ false → captured q new ≡ pos 0)
    → (ps : List PaymentIntent) → any (λ q. q.id == p.id) ps ≡ false
    → All (IsSettled es) ps
    → All (IsSettled (es ++ new)) ps
All-IsSettled es new p others [] h k = tt
All-IsSettled es new p others (q ∷ ps) h (x, k) = (
  IsSettled-add es new q (others q.id (ground arith)) x,
  All-IsSettled es new p others ps (ground arith) k,
)

module _ (env : Env) (n now : ℕ) (txn currency from to : String) (amount : ℤ)
    (description : Option String) (metadata : Metadata) (p : PaymentIntent) where
  abbrev new : List LedgerEntry
  new = rows env n now txn currency from to p.id amount description metadata

  balanced_book :
      (es : List LedgerEntry) (keep : String → Option String → Bool)
      → net (λ e. keep e.currency e.payment_intent_id) es ≡ pos 0
      → net (λ e. keep e.currency e.payment_intent_id) (es ++ new) ≡ pos 0
  balanced_book es keep h = cc (
    net-append (λ e. keep e.currency e.payment_intent_id) es new,
    net-rows env n now txn currency from to p.id amount description metadata keep,
    h,
    +ℤ-zero (pos 0),
  )

  referred_new :
      (ps : List PaymentIntent)
      → has_row ps (some p.id) ≡ true
      → All (λ e. has_row ps e.payment_intent_id ≡ true) new
  unfolding entries_of
  referred_new ps h = (h, (h, tt))

  pub book-IsConsistent :
      (ps : List PaymentIntent) (es : List LedgerEntry)
      → IsConsistent ps es
      → has_row ps (some p.id) ≡ true
      → IsSettled (es ++ new) p
      → IsConsistent (replace_intent p ps) (es ++ new)
  book-IsConsistent ps es c known own = record {
    balanced = λ keep. balanced_book es keep (c.balanced keep);
    settled =
        IsSettled-replace_intent es new p
          (captured-rows_ne env n now txn currency from to p.id amount description metadata) own ps
          c.settled;
    referred = All-has_row p ps (es ++ new) (
        All-append (λ e. has_row ps e.payment_intent_id ≡ true) es new c.referred
          (referred_new ps known));
  }

  pub insert-IsConsistent :
      (ps : List PaymentIntent) (es : List LedgerEntry)
      → IsConsistent ps es
      → any (conflicts p) ps ≡ false
      → (captured p.id es ≡ pos 0 → IsSettled (es ++ new) p)
      → IsConsistent (ps ++ p ∷ []) (es ++ new)
  insert-IsConsistent ps es c fresh own =
      let free = fresh_id p ps fresh in
      record {
        balanced = λ keep. balanced_book es keep (c.balanced keep);
        settled =
            All-append (IsSettled (es ++ new)) ps (p ∷ [])
              (All-IsSettled es new p
                (captured-rows_ne env n now txn currency from to p.id amount description metadata)
                ps free c.settled)
              (own (captured_unknown p.id ps es free c.referred), tt);
        referred =
            All-append (λ e. has_row (ps ++ p ∷ []) e.payment_intent_id ≡ true) es new
              (All-has_row-concat p ps es c.referred)
              (referred_new (ps ++ p ∷ []) (rw (any-concat p.id p ps, eq_refl p.id) (or_true _)));
      }

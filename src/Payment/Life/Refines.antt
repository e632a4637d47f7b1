-- ===== src/Payment/Life/Refines.antt =====
-- The operations of app/services/payment.py take the steps of an intent's life, and no others.
use ix_gateway.Prelude.{String, List, [], ◌≡◌, refl, sym, ap, inl, inr, Option, none, some, ◌+◌}
use ix_gateway.Prelude.Int.{◌+ℤ◌, ℤ}
use ix_gateway.Models.{PaymentIntent, LedgerEntry, Metadata, succeeded}
use ix_gateway.Env.{Env}
use ix_gateway.Db.{Db, Session, Result, ok, raised}
use ix_gateway.Ledger.{entries_of}
use ix_gateway.Ledger.Record.{pair_entries}
use ix_gateway.Payment.{
  PaymentIntentCreate, PaymentIntentConfirm, customer_pending, payments_authorised, stamped,
  PaymentIntentCancel,
}
use ix_gateway.Payment.CreateOutcome.{CreateOutcomes, create_intent-CreateOutcomes}
use ix_gateway.Payment.StatusOutcome.{
  Confirms, Cancels, confirm_intent-Confirms, cancel_intent-Cancels,
}
use ix_gateway.Payment.CaptureOutcome.{Captures, apply_succeeded_event-Captures}
use ix_gateway.Payment.RefundOutcome.{Outcome, refund_intent-Outcome}
use ix_gateway.Payment.Life.Lasting.{written_order}
use ix_gateway.Payment.Upholds.{
  OnPayments, Meets, Upholds, UpheldByPayments, Upholds-raised, Upholds-ok,
}
use ix_gateway.Payment.Life.{
  Tables, Transfers, Step, opens, confirms, cancels, captures, refunds, Reach, later, ids,
  Step-IsDistinct, IsDistinct,
}
use ix_gateway.Payment.Life.Rows.{swapped, mem-fresh}

abbrev pub tables : Db → Tables
tables d = (d.payment_intents, d.ledger_entries)

-- The tables were reached from `base`, and no two intents have one id.
abbrev pub IsReached : Tables → List PaymentIntent → List LedgerEntry → Type 0
IsReached base ps es = IsDistinct (ids ps) × Reach base (ps, es)

module _ (env : Env) (from to : String) (amount : ℤ) (currency : String)
    (description : Option String) (metadata : Metadata) (s : Session) (p : PaymentIntent) where
  pair_entries-Transfers :
      (source : String) (moved : ℤ)
      → from ≡ source
      → amount ≡ moved
      → Transfers source to moved p
          (pair_entries env from to amount currency (some p.id) description metadata s)
  unfolding entries_of
  pair_entries-Transfers source moved e f = record {
    out = _;
    into = _;
    entries = refl;
    accounts = (e, refl);
    directions = (refl, refl);
    amounts = (f, f);
    owner = (refl, refl);
    transaction = refl;
    currency = refl;
  }

module _ (env : Env) {base : Tables} where
  -- One step from the session's tables.
  stepped :
      (s t : Db)
      → Meets (OnPayments (IsReached base)) s
      → Step (tables s) (tables t)
      → Meets (OnPayments (IsReached base)) t
  stepped s t (d, steps) step = (Step-IsDistinct step d, later steps step)

  CreateOutcomes-Upholds :
      (payload : PaymentIntentCreate) (merchant_id : Option String) (s : Session)
      (o : Result PaymentIntent × Session)
      → CreateOutcomes env payload merchant_id s o
      → Meets (OnPayments (IsReached base)) s.db
      → Meets (OnPayments (IsReached base)) s.committed
      → Upholds (OnPayments (IsReached base)) o
  CreateOutcomes-Upholds payload merchant_id s (raised e, t) same h k =
      Upholds-raised e t (rw same k)
  CreateOutcomes-Upholds payload merchant_id s (ok p, t) (inl (_, _, e)) h k =
      rw e (Upholds-ok _ _ h k)
  CreateOutcomes-Upholds payload merchant_id s (ok p, t) (inr c) h k =
      let amount : p.amount ≡ payload.amount = ap (λ r. r.amount) c.row in
      let after : Meets (OnPayments (IsReached base)) t.db = stepped s.db t.db h (
        opens p
          (pair_entries env (customer_pending payload.customer_id) payments_authorised
            payload.amount payload.currency (some p.id) (some "payment_intent.created") []
            (record s { uuids = s.uuids + 1 }))
          (mem-fresh p s.db.payment_intents c.fresh) (ap (λ r. r.amount_received) c.row)
          (ap (λ r. r.amount_refunded) c.row) (rw amount c.positive)
          (pair_entries-Transfers env _ _ _ _ _ _ (record s { uuids = s.uuids + 1 }) p _ _
            (ap (λ r. customer_pending r.customer_id) (sym c.row)) (sym amount))
          c.table c.booked) in
      Upholds-ok p t after (rw c.committed after)

  Confirms-Upholds :
      (pid : String) (payload : PaymentIntentConfirm) (s : Session)
      (o : Result PaymentIntent × Session)
      → Confirms env pid payload s o
      → Meets (OnPayments (IsReached base)) s.db
      → Meets (OnPayments (IsReached base)) s.committed
      → Upholds (OnPayments (IsReached base)) o
  Confirms-Upholds pid payload s (raised e, t) (_, same) h k = Upholds-raised e t (rw same k)
  Confirms-Upholds pid payload s (ok q, t) (p, row, named, inl (_, _, e)) h k =
      rw e (Upholds-ok _ _ h k)
  Confirms-Upholds pid payload s (ok q, t) (p, row, named, inr (unended, f, silent)) h k =
      let after : Meets (OnPayments (IsReached base)) t.db = stepped s.db t.db h (
        confirms p (stamped s.now p (record p { status = f.status })) unended
          (written_order p f.status p.amount_received p.amount_refunded _) refl refl
          (swapped p _ s.db t.db q h.0 row refl f.table f.row) silent) in
      Upholds-ok q t after (rw f.committed after)

  Cancels-Upholds :
      (pid : String) (payload : PaymentIntentCancel) (s : Session)
      (o : Result PaymentIntent × Session)
      → Cancels env pid payload s o
      → Meets (OnPayments (IsReached base)) s.db
      → Meets (OnPayments (IsReached base)) s.committed
      → Upholds (OnPayments (IsReached base)) o
  Cancels-Upholds pid payload s (raised e, t) same h k = Upholds-raised e t (rw same k)
  Cancels-Upholds pid payload s (ok q, t) (p, row, named, inl (_, _, e)) h k =
      rw e (Upholds-ok _ _ h k)
  Cancels-Upholds pid payload s (ok q, t) (p, row, named, inr (_, unpaid, f, booked)) h k =
      let after : Meets (OnPayments (IsReached base)) t.db = stepped s.db t.db h (
        cancels p (stamped s.now p (record p { status = f.status })) _ unpaid
          (written_order p f.status p.amount_received p.amount_refunded _) refl refl
          (pair_entries-Transfers env _ _ _ _ _ _ s p _ _ refl refl)
          (swapped p _ s.db t.db q h.0 row refl f.table f.row) booked) in
      Upholds-ok q t after (rw f.committed after)

  Captures-Upholds :
      (sid : String) (amount : ℤ) (s : Session) (o : Result (Option PaymentIntent) × Session)
      → Captures env sid amount s o
      → Meets (OnPayments (IsReached base)) s.db
      → Meets (OnPayments (IsReached base)) s.committed
      → Upholds (OnPayments (IsReached base)) o
  Captures-Upholds sid amount s (raised e, t) (same, _) h k = Upholds-raised e t (rw same k)
  Captures-Upholds sid amount s (ok none, t) (e, _) h k = rw e (Upholds-ok _ _ h k)
  Captures-Upholds sid amount s (ok (some q), t) (p, row, named, inl (_, _, e)) h k =
      rw e (Upholds-ok _ _ h k)
  Captures-Upholds sid amount s (ok (some q), t) (p, row, named, inr c) h k =
      let after : Meets (OnPayments (IsReached base)) t.db = stepped s.db t.db h (
        captures p (stamped s.now p (record p { status = succeeded; amount_received = amount })) _
          c.unpaid (written_order p succeeded amount p.amount_refunded _) refl c.positive refl
          (pair_entries-Transfers env _ _ _ _ _ _ s p _ _ refl refl)
          (swapped p _ s.db t.db q h.0 row refl c.table c.row) c.booked) in
      Upholds-ok (some q) t after (rw c.pending k)

  Outcome-Upholds :
      (pid key : String) (amount : Option ℤ) (reason : Option String) (s : Session)
      (o : Result PaymentIntent × Session)
      → Outcome env pid key amount reason s o
      → Meets (OnPayments (IsReached base)) s.db
      → Meets (OnPayments (IsReached base)) s.committed
      → Upholds (OnPayments (IsReached base)) o
  Outcome-Upholds pid key amount reason s (raised e, t) (_, same) h k =
      Upholds-raised e t (rw same k)
  Outcome-Upholds pid key amount reason s (ok q, t) f h k =
      let p = f.before in
      let after : Meets (OnPayments (IsReached base)) t.db = stepped s.db t.db h (
        refunds p (stamped s.now p (record p { amount_refunded = p.amount_refunded +ℤ f.moved }))
          f.moved _ f.paid
          (written_order p p.status p.amount_received (p.amount_refunded +ℤ f.moved) _) refl refl
          refl f.positive f.covered (pair_entries-Transfers env _ _ _ _ _ _ s p _ _ refl refl)
          (swapped p _ s.db t.db q h.0 f.found refl f.table f.after) f.booked) in
      Upholds-ok q t after (rw f.committed after)

  -- The operations of the service reach what is reached by the steps.
  pub IsReached-payments : UpheldByPayments (OnPayments (IsReached base)) env
  IsReached-payments = record {
    creates = λ payload mid s.
        CreateOutcomes-Upholds payload mid s _ (create_intent-CreateOutcomes env payload mid s);
    confirms = λ pid payload s.
        Confirms-Upholds pid payload s _ (confirm_intent-Confirms env pid payload s);
    cancels =
        λ pid payload s. Cancels-Upholds pid payload s _ (cancel_intent-Cancels env pid payload s);
    refunds = λ pid key n reason s.
        Outcome-Upholds pid key n reason s _ (refund_intent-Outcome env pid key n reason s);
    captures = λ sid n s. Captures-Upholds sid n s _ (apply_succeeded_event-Captures env sid n s);
  }

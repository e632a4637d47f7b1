-- ===== src/Payment/Settle.antt =====
-- The arithmetic of the three kinds of booking, as it meets an intent's row.
use ix_gateway.Prelude.{false, true, ◌≡◌, ◌⊎◌, inl, inr}
use ix_gateway.Prelude.Int.{ℤ, pos, ◌+ℤ◌, ◌-ℤ◌, ◌≤ℤ◌, leb_ℤ, ltb_ℤ, int_laws}
use ix_gateway.Models.{PaymentIntent, is_succeeded}

pub settle_capture :
    (after before received refunded amount : ℤ)
    → after ≡ before +ℤ (amount -ℤ pos 0)
    → before ≡ received -ℤ refunded
    → pos 0 ≤ℤ refunded
    → refunded ≤ℤ received
    → received ≡ pos 0
    → leb_ℤ amount (pos 0) ≡ false
    → (after ≡ amount -ℤ refunded) × (refunded ≤ℤ amount)
settle_capture after before received refunded amount a b l m e high = grind int_laws

pub settle_beside :
    (after before received refunded : ℤ)
    → after ≡ before +ℤ (pos 0 -ℤ pos 0)
    → before ≡ received -ℤ refunded
    → after ≡ received -ℤ refunded
settle_beside after before received refunded a b = grind int_laws

pub settle_refund :
    (after before received refunded amount : ℤ)
    → after ≡ before +ℤ (pos 0 -ℤ amount)
    → before ≡ received -ℤ refunded
    → pos 0 ≤ℤ refunded
    → leb_ℤ amount (pos 0) ≡ false
    → ltb_ℤ (received -ℤ refunded) amount ≡ false
    → (after ≡ received -ℤ (refunded +ℤ amount))
      × (pos 0 ≤ℤ refunded +ℤ amount)
      × (refunded +ℤ amount ≤ℤ received)
settle_refund after before received refunded amount a b l high fits = grind int_laws

pub not_received :
    (p : PaymentIntent)
    → is_succeeded p.status ≡ false
    → (is_succeeded p.status ≡ true) ⊎ (p.amount_received ≡ pos 0)
    → p.amount_received ≡ pos 0
not_received p unpaid (inl paid) = cc
not_received p unpaid (inr zero_received) = zero_received

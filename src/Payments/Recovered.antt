-- ===== src/Payments/Recovered.antt =====
-- `reconcileOrder` of backend/src/modules/payments/payments.service.ts and the table of bookings.
use tuljai_stays.Base.{
  ℕ, ◌≡◌, Bool, true, ◌||◌, Option, none, some, List, ◌==◌, find, if◌then◌else◌, Bool-cases, inl,
  inr,
}
use tuljai_stays.Base.Results.{Result, ok, err}
use tuljai_stays.Store.{Db, Config}
use tuljai_stays.Store.Status.{intent_confirmed, needs_recovery}
use tuljai_stays.Store.Rows.{Booking, PaymentIntent, CreateBookingDto}
use tuljai_stays.Bookings.Defs.{Fresh}
use tuljai_stays.Bookings.Exclusive.{has_id}
use tuljai_stays.Bookings.Invariant.{Inv, IsFresh, create_prepaid_booking-Inv}
use tuljai_stays.Payments.Gateway.{Gateway, GatewayPayment, is_captured}
use tuljai_stays.Payments.Verify.{Verified, check_payment}
use tuljai_stays.Payments.Allocated.{verify_booking_payment-Inv}
use tuljai_stays.Payments.Reconcile.{
  mark_mismatch, fail_reconciliation, recover, settle_for, settle_payment, reconcile_captured,
  read_payments, reconcile_intent, reconcile_order, mismatch, payer, payment_of,
}

recover-Inv :
    (i : PaymentIntent) (p : GatewayPayment) (out : Result (Unit {0}) × Db)
    → Inv out.1.bookings
    → Inv (recover i p out).1.bookings
unfolding fail_reconciliation
recover-Inv i p (ok _, db) v = v
recover-Inv i p (err e, db) v = v

-- The stay of a booking is the same in the check of a payment and in the transaction.
abbrev pub SameStay : Gateway → Db → Db → Type 0
SameStay gateway seen current =
    (booking_id pilgrim_user_id order_id payment_id : ℕ) (v : Verified) (b : Booking)
    → check_payment gateway booking_id pilgrim_user_id
        (record { order_id = order_id; payment_id = payment_id; signature = 0 }) true seen
      ≡ ok v
    → find (has_id v.booking.id) current.bookings ≡ some b
    → b.stay ≡ v.booking.stay

module _ (gateway : Gateway) (config : Config) (fresh : Fresh) (skipped : ℕ → Bool)
    (upload : Result (Unit {0})) (order_id : ℕ) (seen : Db) (now : ℕ) (current : Db) (later : ℕ)
    (stays : SameStay gateway seen current) (new : IsFresh fresh.id current.bookings)
    (v : Inv current.bookings) where
  settle_for-Inv :
      (i : PaymentIntent) (p : GatewayPayment) (b : Option ℕ) (d : Option CreateBookingDto)
      → Inv
          (settle_for gateway config fresh skipped upload order_id seen now current later i p b
            d).1.bookings
  settle_for-Inv i p (some booking_id) d =
      verify_booking_payment-Inv gateway skipped booking_id i.pilgrim_user_id
        (record { order_id = order_id; payment_id = p.id; signature = 0 }) true seen current later
        (stays booking_id i.pilgrim_user_id order_id p.id) v
  settle_for-Inv i p none (some dto) =
      create_prepaid_booking-Inv config fresh skipped dto (payer i) upload (payment_of order_id p)
        seen now current later new v
  settle_for-Inv i p none none = v

  captured-Inv :
      (i : PaymentIntent) (o : Option GatewayPayment)
      → Inv
          (reconcile_captured gateway config fresh skipped upload order_id seen now current later i
            o).1.bookings
  unfolding reconcile_captured settle_payment mark_mismatch
  captured-Inv i none = v
  captured-Inv i (some p) = elim (Bool-cases (mismatch order_id p i)) [
    | inl e ↦ rw (e, if◌then◌else◌) v
    | inr e ↦
        rw (e, if◌then◌else◌) (recover-Inv i p _ (settle_for-Inv i p i.booking_id i.guest_details))
  ]

  payments-Inv :
      (i : PaymentIntent) (r : Result (List GatewayPayment))
      → Inv
          (read_payments gateway config fresh skipped upload order_id seen now current later i
            r).1.bookings
  payments-Inv i (err e) = v
  payments-Inv i (ok payments) = captured-Inv i (find is_captured payments)

  intent-Inv :
      (o : Option PaymentIntent)
      → Inv
          (reconcile_intent gateway config fresh skipped upload order_id seen now current later
            o).1.bookings
  unfolding reconcile_intent
  intent-Inv none = v
  intent-Inv (some i) = elim (Bool-cases (intent_confirmed i.status || needs_recovery i.status)) [
    | inl e ↦ rw (e, if◌then◌else◌) v
    | inr e ↦ rw (e, if◌then◌else◌) (payments-Inv i (gateway.get_order_payments order_id))
  ]

-- reconcileOrder keeps the bookings table exclusive, with distinct identifiers and one booking at
-- most for each hold, whatever the gateway answers, if the identifier that it draws is fresh and
-- the stay of a booking does not change between the check of its payment and the transaction.
pub reconcile_order-Inv :
    (gateway : Gateway) (config : Config) (fresh : Fresh) (skipped : ℕ → Bool)
    (upload : Result (Unit {0})) (order_id : ℕ) (seen : Db) (now : ℕ) (current : Db) (later : ℕ)
    → SameStay gateway seen current
    → IsFresh fresh.id current.bookings
    → Inv current.bookings
    → Inv
        (reconcile_order gateway config fresh skipped upload order_id seen now current
          later).1.bookings
unfolding reconcile_order
reconcile_order-Inv gateway config fresh skipped upload order_id seen now current later stays new
      v =
    intent-Inv gateway config fresh skipped upload order_id seen now current later stays new v
      (find (λ i. i.provider_order_id == order_id) seen.payment_intents)

-- ===== src/Payments/Status.antt =====
-- `paymentStatus` of backend/src/modules/payments/payments.service.ts: what a guest may do about an
-- order, after the gateway was asked. The texts that it returns for the screen are left out.
use tuljai_stays.Base.{
  ℕ, Bool, ◌&&◌, not, Option, none, some, List, ◌==◌, ltb, is_none, if◌then◌else◌, find, any,
  update_where,
}
use tuljai_stays.Base.Results.{Result, ok, err, not_found, other, or_throw}
use tuljai_stays.Store.{Db, Config, AuthenticatedUser}
use tuljai_stays.Store.Status.{IntentStatus, intent_pending, needs_recovery, lock_active}
use tuljai_stays.Store.Rows.{BookingLock, PaymentIntent, LastError}
use tuljai_stays.Bookings.Defs.{Fresh}
use tuljai_stays.Payments.Gateway.{Gateway, GatewayPayment, is_under_way}
use tuljai_stays.Payments.Reconcile.{reconcile_order}

-- `retryCheckout` is reduced to the hold that it offers.
pub record PaymentState : Type 0 where
  pub status : IntentStatus
  pub booking_id : Option ℕ
  pub recovery_required : Bool
  pub retry_checkout : Option BookingLock

abbrev state_of : PaymentIntent → Option BookingLock → PaymentState
state_of i retry = record {
  status = i.status;
  booking_id = i.booking_id;
  recovery_required = needs_recovery i.status;
  retry_checkout = retry;
}

abbrev pub by_id : ℕ → Db → Result PaymentIntent
by_id id db = or_throw (find (λ i. i.id == id) db.payment_intents) other

-- A hold that ended is no proof that the payment failed.
unfoldable pub surface : PaymentIntent → Db → Db
surface i db = record db {
  payment_intents =
      update_where (λ x. x.id == i.id && intent_pending x.status)
        (λ x. record x {
          status = IntentStatus.recovery_required;
          last_error = some LastError.hold_expired_payment_status_uncertain;
        })
        db.payment_intents;
}

abbrev pub report : Option BookingLock → Result PaymentIntent × Db → Result PaymentState × Db
report retry (err e, db) = (err e, db)
report retry (ok i, db) = (ok (state_of i retry), db)

module _ (now : ℕ) (user : AuthenticatedUser) where
  abbrev offered : List GatewayPayment → BookingLock → Option BookingLock
  offered payments lock = if any (λ p. is_under_way p.status) payments then none else some lock

  abbrev pub retry_hold :
      PaymentIntent → List GatewayPayment → Option BookingLock → Db → Result PaymentState × Db
  retry_hold i payments none db =
      let marked = surface i db in report none (by_id i.id marked, marked)
  retry_hold i payments (some lock) db = (ok (state_of i (offered payments lock)), db)

  abbrev own_live_hold : ℕ → BookingLock → Bool
  own_live_hold lock_code l =
      l.lock_code == lock_code
      && l.pilgrim_user_id == user.id
      && lock_active l.status
      && ltb now l.expires_at

  abbrev pub ask_gateway :
      PaymentIntent → Db → Result (List GatewayPayment) → Result PaymentState × Db
  ask_gateway i db (err e) = (err e, db)
  ask_gateway i db (ok payments) =
      retry_hold i payments (find (own_live_hold i.lock_code) db.booking_locks) db

  unfoldable pub report_latest :
      Result (List GatewayPayment) → Result PaymentIntent → Db → Result PaymentState × Db
  unfolding surface
  report_latest payments (err e) db = (err e, db)
  report_latest payments (ok i) db =
      if intent_pending i.status && not (is_none i.guest_details) && is_none i.booking_id
      then ask_gateway i db payments
      else (ok (state_of i none), db)

module _ (gateway : Gateway) (config : Config) (fresh : Fresh) (skipped : ℕ → Bool)
    (upload : Result (Unit {0})) (order_id : ℕ) (user : AuthenticatedUser) (now later : ℕ) where
  abbrev pub reconciled : PaymentIntent → Result (Unit {0}) × Db → Result PaymentState × Db
  reconciled i (err e, db) = (err e, db)
  reconciled i (ok _, db) =
      report_latest later user (gateway.get_order_payments order_id) (by_id i.id db) db

  unfoldable pub status_found : Db → Db → Option PaymentIntent → Result PaymentState × Db
  unfolding reconcile_order report_latest
  status_found seen current none = (err not_found, current)
  status_found seen current (some i) =
      reconciled i
        (reconcile_order gateway config fresh skipped upload order_id seen now current later)

  unfoldable pub payment_status : Db → Db → Result PaymentState × Db
  unfolding status_found
  payment_status seen current = status_found seen current (
      find (λ i. i.provider_order_id == order_id && i.pilgrim_user_id == user.id)
        seen.payment_intents)

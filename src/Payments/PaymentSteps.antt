-- ===== src/Payments/PaymentSteps.antt =====
-- The operations of backend/src/modules/payments/payments.service.ts on intents that exist, as
-- steps from any caller, gateway and clock, in any order and number.
use tuljai_stays.Base.{ℕ, Bool, find, ◌==◌, ◌&&◌}
use tuljai_stays.Base.Results.{Result}
use tuljai_stays.Store.{Db, Config, AuthenticatedUser}
use tuljai_stays.Store.Rows.{CreateBookingDto}
use tuljai_stays.Bookings.Defs.{Fresh}
use tuljai_stays.Bookings.Prepaid.{Payment, create_prepaid_booking, check_prepaid}
use tuljai_stays.Payments.Gateway.{Gateway, PaymentVerificationInput}
use tuljai_stays.Payments.Verify.{check_payment, verify_booking_payment}
use tuljai_stays.Payments.Reconcile.{Webhook, receive_webhook, reconcile_order}
use tuljai_stays.Payments.Pending.{Round, reconcile_pending, due_intents}
use tuljai_stays.Payments.Confirm.{
  prepare_prepaid_intent, check_prepare, confirm_prepaid_booking, check_request,
}
use tuljai_stays.Payments.Status.{payment_status}
use tuljai_stays.Payments.Confirmed.{Confirmed, verify_checked-Confirmed, prepaid_checked-Confirmed}
use tuljai_stays.Payments.Retried.{
  reconcile_order-Confirmed, reconcile_each-Confirmed, receive_webhook-Confirmed,
}
use tuljai_stays.Payments.Settled.{
  prepare_checked-Confirmed, confirm_requested-Confirmed, status_found-Confirmed,
}

-- A request reads `seen`, which another request may have replaced by the time it writes.
pub data PaymentStep (db : Db) : Db → Type 0 where
  prepares :
      (fresh_id now : ℕ) (dto : CreateBookingDto) (user : AuthenticatedUser)
      (upload : Result (Unit {0})) (seen : Db)
      → PaymentStep db (prepare_prepaid_intent fresh_id now dto user upload seen db).1
  confirms :
      (gateway : Gateway) (config : Config) (fresh : Fresh) (skipped : ℕ → Bool)
      (upload : Result (Unit {0})) (dto : CreateBookingDto) (user : AuthenticatedUser)
      (input : PaymentVerificationInput) (intent_id now later : ℕ) (seen : Db)
      → PaymentStep db
          (confirm_prepaid_booking gateway config fresh skipped upload dto user input intent_id now
            later seen db).1
  books :
      (config : Config) (fresh : Fresh) (skipped : ℕ → Bool) (dto : CreateBookingDto)
      (user : AuthenticatedUser) (upload : Result (Unit {0})) (payment : Payment) (seen : Db)
      (now later : ℕ)
      → PaymentStep db
          (create_prepaid_booking config fresh skipped dto user upload payment seen now db later).1
  verifies :
      (gateway : Gateway) (skipped : ℕ → Bool) (booking_id pilgrim_user_id : ℕ)
      (input : PaymentVerificationInput) (reconciling : Bool) (seen : Db) (later : ℕ)
      → PaymentStep db
          (verify_booking_payment gateway skipped booking_id pilgrim_user_id input reconciling seen
            db later).1
  receives : (w : Webhook) (now : ℕ) → PaymentStep db (receive_webhook w now db).1
  reconciles :
      (gateway : Gateway) (config : Config) (fresh : Fresh) (skipped : ℕ → Bool)
      (upload : Result (Unit {0})) (order_id : ℕ) (seen : Db) (now later : ℕ)
      → PaymentStep db
          (reconcile_order gateway config fresh skipped upload order_id seen now db later).1
  retries :
      (gateway : Gateway) (config : Config) (rounds : ℕ → Round) (now : ℕ) (seen : Db)
      → PaymentStep db (reconcile_pending gateway config rounds now seen db)
  asks :
      (gateway : Gateway) (config : Config) (fresh : Fresh) (skipped : ℕ → Bool)
      (upload : Result (Unit {0})) (order_id : ℕ) (user : AuthenticatedUser) (now later : ℕ)
      (seen : Db)
      → PaymentStep db
          (payment_status gateway config fresh skipped upload order_id user now later seen db).1

pub data PaymentRun (db : Db) : Db → Type 0 where
  at_start : PaymentRun db db
  then_step : {t u : Db} → PaymentRun db t → PaymentStep t u → PaymentRun db u

PaymentStep-Confirmed : (k : ℕ) {t u : Db} → PaymentStep t u → Confirmed k t → Confirmed k u
unfolding prepare_prepaid_intent confirm_prepaid_booking create_prepaid_booking
    verify_booking_payment reconcile_pending payment_status
PaymentStep-Confirmed k {t} (prepares fresh_id now dto user upload seen) h =
    prepare_checked-Confirmed k fresh_id now dto user t (check_prepare seen now dto user upload) h
PaymentStep-Confirmed k {t}
      (confirms gateway config fresh skipped upload dto user input intent_id now later seen) h =
    confirm_requested-Confirmed k gateway config fresh skipped upload dto user input intent_id now
      later seen t (check_request gateway config fresh skipped upload dto user input) h
PaymentStep-Confirmed k {t} (books config fresh skipped dto user upload payment seen now later) h =
    prepaid_checked-Confirmed k config fresh skipped dto user upload payment t later
      (check_prepaid seen now dto user upload payment) h
PaymentStep-Confirmed k {t}
      (verifies gateway skipped booking_id pilgrim_user_id input reconciling seen later) h =
    verify_checked-Confirmed k gateway skipped booking_id pilgrim_user_id input reconciling t later
      (check_payment gateway booking_id pilgrim_user_id input reconciling seen) h
PaymentStep-Confirmed k {t} (receives w now) h = receive_webhook-Confirmed k w now t h
PaymentStep-Confirmed k {t} (reconciles gateway config fresh skipped upload order_id seen now later)
      h =
    reconcile_order-Confirmed k gateway config fresh skipped upload order_id seen now t later h
PaymentStep-Confirmed k {t} (retries gateway config rounds now seen) h =
    reconcile_each-Confirmed k gateway config rounds (due_intents now seen) t h
PaymentStep-Confirmed k {t} (asks gateway config fresh skipped upload order_id user now later seen)
      h =
    status_found-Confirmed k gateway config fresh skipped upload order_id user now later seen t
      (find (λ i. i.provider_order_id == order_id && i.pilgrim_user_id == user.id)
        seen.payment_intents)
      h

-- Once the intent of an order is confirmed it stays confirmed through every sequence of preparations,
-- confirmations, prepaid bookings, verifications, webhooks, reconciliations, retry rounds and status
-- requests, whatever the gateway answers and however old the rows are that a request has read.
pub PaymentRun-Confirmed : (k : ℕ) {t u : Db} → PaymentRun t u → Confirmed k t → Confirmed k u
PaymentRun-Confirmed k at_start h = h
PaymentRun-Confirmed k (then_step r s) h = PaymentStep-Confirmed k s (PaymentRun-Confirmed k r h)

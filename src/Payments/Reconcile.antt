-- ===== src/Payments/Reconcile.antt =====
-- Recovery of payments whose outcome the application did not see: `receiveWebhook`,
-- `reconcileOrder` and `reconcilePending` of backend/src/modules/payments/payments.service.ts.
use tuljai_stays.Base.{
  ℕ, Bool, true, false, ◌&&◌, ◌||◌, not, Option, none, some, List, [], ◌∷◌, ◌==◌, ltb,
  if◌then◌else◌, find, any, update_where,
}
use tuljai_stays.Base.Results.{Result, ok, err, Exception, bad_request, conflict}
use tuljai_stays.Store.{Db, Config, AuthenticatedUser, pilgrim}
use tuljai_stays.Store.Status.{IntentStatus, intent_pending, intent_confirmed, needs_recovery}
use tuljai_stays.Store.Rows.{CreateBookingDto, PaymentIntent, WebhookEvent, LastError}
use tuljai_stays.Bookings.Defs.{Fresh}
use tuljai_stays.Bookings.Prepaid.{Payment, create_prepaid_booking}
use tuljai_stays.Payments.Gateway.{Gateway, GatewayPayment, is_captured}
use tuljai_stays.Payments.Verify.{verify_booking_payment, requires_review, review_status}

-- The parts of a webhook that are read. `verified` is the answer of the signature check, an
-- error where the secret is missing; an event or a
-- reference that is missing, or longer than is stored, is absent.
pub record Webhook : Type 0 where
  pub verified : Result Bool
  pub event_id : Option ℕ
  pub is_object : Bool
  pub event_type : ℕ
  pub payment_id : Option ℕ
  pub order_id : Option ℕ

-- 'payment.captured', 'order.paid' and 'payment.failed' are 0, 1 and 2
abbrev pub is_payment_event : ℕ → Bool
is_payment_event e = ltb e 3

-- `createMany` with `skipDuplicates`
abbrev pub record_event : WebhookEvent → List WebhookEvent → List WebhookEvent
record_event e events = if any (λ x. x.id == e.id) events then events else e ∷ events

abbrev pub wake : ℕ → ℕ → PaymentIntent → Bool
wake order_id now i = i.provider_order_id == order_id && intent_pending i.status

unfoldable pub store_event : ℕ → WebhookEvent → Db → Db
store_event now e db = record db {
  payment_webhook_events = record_event e db.payment_webhook_events;
  payment_intents =
      update_where (wake e.provider_order_id now) (λ i. record i { next_check_at = now })
        db.payment_intents;
}

abbrev pub receive_payment : ℕ → ℕ → ℕ → Option ℕ → Option ℕ → Db → Result (Unit {0}) × Db
receive_payment now event_id event_type (some payment_id) (some order_id) db = (
  ok tt,
  store_event now
      (record {
        id = event_id;
        event_type = event_type;
        provider_order_id = order_id;
        provider_payment_id = payment_id;
      })
      db,
)
receive_payment now event_id event_type none _ db = (err bad_request, db)
receive_payment now event_id event_type (some _) none db = (err bad_request, db)

abbrev pub receive_event : Webhook → ℕ → Option ℕ → Db → Result (Unit {0}) × Db
receive_event w now none db = (err bad_request, db)
receive_event w now (some event_id) db =
    if not w.is_object
    then (err bad_request, db)
    else (if is_payment_event w.event_type
        then receive_payment now event_id w.event_type w.payment_id w.order_id db
        else (ok tt, db))

abbrev pub receive_verified : Webhook → ℕ → Db → Result Bool → Result (Unit {0}) × Db
receive_verified w now db (err e) = (err e, db)
receive_verified w now db (ok false) = (err bad_request, db)
receive_verified w now db (ok true) = receive_event w now w.event_id db

unfoldable pub receive_webhook : Webhook → ℕ → Db → Result (Unit {0}) × Db
unfolding store_event
receive_webhook w now db = receive_verified w now db w.verified

-- The pilgrim whom an intent names, as `reconcileOrder` makes it up.
abbrev pub payer : PaymentIntent → AuthenticatedUser
payer i = record { id = i.pilgrim_user_id; roles = pilgrim ∷ [] }

abbrev pub mismatch : ℕ → GatewayPayment → PaymentIntent → Bool
mismatch order_id p i =
    not (p.order_id == order_id) || not (p.currency == i.currency) || not (p.amount == i.amount)

unfoldable pub mark_mismatch : PaymentIntent → Db → Db
mark_mismatch i db = record db {
  payment_intents =
      update_where (λ x. x.id == i.id && intent_pending x.status)
        (λ x. record x {
          status = IntentStatus.recovery_required;
          last_error = some LastError.gateway_amount_mismatch;
        })
        db.payment_intents;
}

-- The `catch` of `reconcileOrder`.
unfoldable pub fail_reconciliation : PaymentIntent → GatewayPayment → Exception → Db → Db
fail_reconciliation i p e db = record db {
  payment_intents =
      update_where (λ x. x.id == i.id && not (intent_confirmed x.status))
        (λ x. record x {
          status = review_status e;
          provider_payment_id = some p.id;
          last_error = some (
              if requires_review e
              then LastError.paid_allocation_requires_review
              else LastError.confirmation_retry_pending);
        })
        db.payment_intents;
}

abbrev pub done {ℓ} : {A : Type ℓ} → Result A → Result (Unit {0})
done (ok _) = ok tt
done (err e) = err e

abbrev pub forget {ℓ} : {A : Type ℓ} → Result A × Db → Result (Unit {0}) × Db
forget (r, db) = (done r, db)

abbrev pub payment_of : ℕ → GatewayPayment → Payment
payment_of order_id p = record {
  provider_order_id = order_id;
  provider_payment_id = p.id;
  amount = p.amount;
  currency = p.currency;
}

abbrev pub recover :
    PaymentIntent → GatewayPayment → Result (Unit {0}) × Db → Result (Unit {0}) × Db
recover i p (ok _, db) = (ok tt, db)
recover i p (err e, db) = (ok tt, fail_reconciliation i p e db)

module _ (gateway : Gateway) (config : Config) (fresh : Fresh) (skipped : ℕ → Bool)
    (upload : Result (Unit {0})) (order_id : ℕ) (seen : Db) (now : ℕ) (current : Db)
    (later : ℕ) where
  -- A booking that exists is confirmed; guest details become one; anything else needs a person.
  abbrev pub settle_for :
      PaymentIntent → GatewayPayment → Option ℕ → Option CreateBookingDto → Result (Unit {0}) × Db
  settle_for i p (some booking_id) _ = forget (
      verify_booking_payment gateway skipped booking_id i.pilgrim_user_id
        (record { order_id = order_id; payment_id = p.id; signature = 0 }) true seen current later)
  settle_for i p none (some dto) = forget (
      create_prepaid_booking config fresh skipped dto (payer i) upload (payment_of order_id p) seen
        now current later)
  settle_for i p none none = (err conflict, current)

  unfoldable pub settle_payment : PaymentIntent → GatewayPayment → Result (Unit {0}) × Db
  unfolding verify_booking_payment create_prepaid_booking fail_reconciliation
  settle_payment i p = recover i p (settle_for i p i.booking_id i.guest_details)

  unfoldable pub reconcile_captured : PaymentIntent → Option GatewayPayment → Result (Unit {0}) × Db
  unfolding settle_payment mark_mismatch
  reconcile_captured i none = (ok tt, current)
  reconcile_captured i (some p) =
      if mismatch order_id p i then (ok tt, mark_mismatch i current) else settle_payment i p

  abbrev pub read_payments : PaymentIntent → Result (List GatewayPayment) → Result (Unit {0}) × Db
  read_payments i (err e) = (err e, current)
  read_payments i (ok payments) = reconcile_captured i (find is_captured payments)

  unfoldable pub reconcile_intent : Option PaymentIntent → Result (Unit {0}) × Db
  unfolding reconcile_captured
  reconcile_intent none = (ok tt, current)
  reconcile_intent (some i) =
      if intent_confirmed i.status || needs_recovery i.status
      then (ok tt, current)
      else read_payments i (gateway.get_order_payments order_id)

  unfoldable pub reconcile_order : Result (Unit {0}) × Db
  unfolding reconcile_intent
  reconcile_order =
      reconcile_intent (find (λ i. i.provider_order_id == order_id) seen.payment_intents)

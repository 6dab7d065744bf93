-- ===== src/Payments/Retried.antt =====
-- Confirmed intents, and what a reconciliation, a round of retries and a webhook make of them
-- (backend/src/modules/payments/payments.service.ts).
use tuljai_stays.Base.{
  ℕ, Bool, true, false, ◌||◌, not, Option, none, some, List, [], ◌∷◌, arith, ◌==◌, find, count, ltb,
  if◌then◌else◌, Bool-cases, inl, inr,
}
use tuljai_stays.Base.Counts.{any-update_where}
use tuljai_stays.Base.Results.{Result, ok, err}
use tuljai_stays.Store.{Db, Config}
use tuljai_stays.Store.Status.{intent_confirmed, needs_recovery}
use tuljai_stays.Store.Rows.{PaymentIntent, CreateBookingDto, WebhookEvent}
use tuljai_stays.Bookings.Defs.{Fresh}
use tuljai_stays.Bookings.Prepaid.{create_prepaid_booking}
use tuljai_stays.Payments.Gateway.{Gateway, GatewayPayment, is_captured}
use tuljai_stays.Payments.Verify.{verify_booking_payment}
use tuljai_stays.Payments.Reconcile.{
  Webhook, receive_webhook, store_event, recover, forget, settle_for, settle_payment,
  reconcile_captured, read_payments, reconcile_intent, reconcile_order, mismatch, receive_event,
  receive_verified, receive_payment, payer, payment_of, is_payment_event,
}
use tuljai_stays.Payments.Pending.{
  Round, claim_intent, claimed_db, claimable, reconcile_round, reconcile_each,
}
use tuljai_stays.Payments.Confirmed.{
  Confirmed, confirmed_with, verify_checked-Confirmed, prepaid_checked-Confirmed,
  mark_mismatch-Confirmed, fail_reconciliation-Confirmed,
}

module _ (k : ℕ) where
  forget-Confirmed :
      {A : Type 0} (out : Result A × Db) → Confirmed k out.1 → Confirmed k (forget out).1
  forget-Confirmed (r, db) h = h

  recover-Confirmed :
      (i : PaymentIntent) (p : GatewayPayment) (out : Result (Unit {0}) × Db)
      → Confirmed k out.1
      → Confirmed k (recover i p out).1
  recover-Confirmed i p (ok _, db) h = h
  recover-Confirmed i p (err e, db) h = fail_reconciliation-Confirmed k i p e db h

  module _ (gateway : Gateway) (config : Config) (fresh : Fresh) (skipped : ℕ → Bool)
      (upload : Result (Unit {0})) (order_id : ℕ) (seen : Db) (now : ℕ) (current : Db) (later : ℕ)
      (h : Confirmed k current) where
    settle_for-Confirmed :
        (i : PaymentIntent) (p : GatewayPayment) (b : Option ℕ) (d : Option CreateBookingDto)
        → Confirmed k
            (settle_for gateway config fresh skipped upload order_id seen now current later i p b
              d).1
    unfolding verify_booking_payment create_prepaid_booking
    settle_for-Confirmed i p (some booking_id) d =
        verify_checked-Confirmed k gateway skipped booking_id i.pilgrim_user_id
          (record { order_id = order_id; payment_id = p.id; signature = 0 }) true current later _ h
    settle_for-Confirmed i p none (some dto) =
        prepaid_checked-Confirmed k config fresh skipped dto (payer i) upload
          (payment_of order_id p) current later _ h
    settle_for-Confirmed i p none none = h

    reconcile_captured-Confirmed :
        (i : PaymentIntent) (o : Option GatewayPayment)
        → Confirmed k
            (reconcile_captured gateway config fresh skipped upload order_id seen now current later
              i o).1
    unfolding reconcile_captured settle_payment
    reconcile_captured-Confirmed i none = h
    reconcile_captured-Confirmed i (some p) = elim (Bool-cases (mismatch order_id p i)) [
      | inl e ↦ rw (e, if◌then◌else◌) (mark_mismatch-Confirmed k i current h)
      | inr e ↦
          rw (e, if◌then◌else◌)
            (recover-Confirmed i p _ (settle_for-Confirmed i p i.booking_id i.guest_details))
    ]

    read_payments-Confirmed :
        (i : PaymentIntent) (r : Result (List GatewayPayment))
        → Confirmed k
            (read_payments gateway config fresh skipped upload order_id seen now current later i
              r).1
    read_payments-Confirmed i (err e) = h
    read_payments-Confirmed i (ok payments) =
        reconcile_captured-Confirmed i (find is_captured payments)

    reconcile_intent-Confirmed :
        (o : Option PaymentIntent)
        → Confirmed k
            (reconcile_intent gateway config fresh skipped upload order_id seen now current later
              o).1
    unfolding reconcile_intent
    reconcile_intent-Confirmed none = h
    reconcile_intent-Confirmed (some i) =
        elim (Bool-cases (intent_confirmed i.status || needs_recovery i.status)) [
          | inl e ↦ rw (e, if◌then◌else◌) h
          | inr e ↦
              rw (e, if◌then◌else◌)
                (read_payments-Confirmed i (gateway.get_order_payments order_id))
        ]

  -- reconcileOrder leaves a confirmed intent confirmed, whatever the gateway says.
  pub reconcile_order-Confirmed :
      (gateway : Gateway) (config : Config) (fresh : Fresh) (skipped : ℕ → Bool)
      (upload : Result (Unit {0})) (order_id : ℕ) (seen : Db) (now : ℕ) (current : Db) (later : ℕ)
      → Confirmed k current
      → Confirmed k
          (reconcile_order gateway config fresh skipped upload order_id seen now current later).1
  unfolding reconcile_order
  reconcile_order-Confirmed gateway config fresh skipped upload order_id seen now current later h =
      reconcile_intent-Confirmed gateway config fresh skipped upload order_id seen now current later
        h (find (λ i. i.provider_order_id == order_id) seen.payment_intents)

  claimed_db-Confirmed :
      (gateway : Gateway) (config : Config) (rounds : ℕ → Round) (i : PaymentIntent) (db : Db)
      → Confirmed k db
      → Confirmed k (claimed_db gateway config rounds i db)
  unfolding claimed_db claim_intent
  claimed_db-Confirmed gateway config rounds i db h =
      any-update_where (confirmed_with k) _ _ (λ x c _. ground arith) db.payment_intents h

  pub reconcile_each-Confirmed :
      (gateway : Gateway) (config : Config) (rounds : ℕ → Round) (is : List PaymentIntent) (db : Db)
      → Confirmed k db
      → Confirmed k (reconcile_each gateway config rounds is db)
  unfolding reconcile_each reconcile_round
  reconcile_each-Confirmed gateway config rounds [] db h = h
  reconcile_each-Confirmed gateway config rounds (i ∷ is) db h =
      let w = claimed_db gateway config rounds i db in
      let claimed = claimed_db-Confirmed gateway config rounds i db h in
      reconcile_each-Confirmed gateway config rounds is _
        (elim (Bool-cases (ltb 0 (count (claimable i) db.payment_intents))) [
          | inl e ↦
              rw (e, if◌then◌else◌)
                (reconcile_order-Confirmed gateway config (rounds i.id).fresh (rounds i.id).skipped
                  (rounds i.id).upload i.provider_order_id w (rounds i.id).now w (rounds i.id).later
                  claimed)
          | inr e ↦ rw (e, if◌then◌else◌) claimed
        ])

  store_event-Confirmed :
      (now : ℕ) (e : WebhookEvent) (db : Db) → Confirmed k db → Confirmed k (store_event now e db)
  unfolding store_event
  store_event-Confirmed now e db h =
      any-update_where (confirmed_with k) _ _ (λ x c _. ground arith) db.payment_intents h

  receive_payment-Confirmed :
      (now event_id event_type : ℕ) (p o : Option ℕ) (db : Db)
      → Confirmed k db
      → Confirmed k (receive_payment now event_id event_type p o db).1
  receive_payment-Confirmed now event_id event_type (some p) (some o) db h =
      store_event-Confirmed now _ db h
  receive_payment-Confirmed now event_id event_type none o db h = h
  receive_payment-Confirmed now event_id event_type (some p) none db h = h

  if-Confirmed :
      {A : Type 0} (b : Bool) (x y : Result A × Db)
      → Confirmed k x.1
      → Confirmed k y.1
      → Confirmed k (if b then x else y).1
  if-Confirmed true x y hx hy = hx
  if-Confirmed false x y hx hy = hy

  receive_event-Confirmed :
      (w : Webhook) (now : ℕ) (e : Option ℕ) (db : Db)
      → Confirmed k db
      → Confirmed k (receive_event w now e db).1
  receive_event-Confirmed w now none db h = h
  receive_event-Confirmed w now (some e) db h = if-Confirmed (not w.is_object) _ _ h (
      if-Confirmed (is_payment_event w.event_type) _ _
        (receive_payment-Confirmed now e w.event_type w.payment_id w.order_id db h) h)

  receive_verified-Confirmed :
      (w : Webhook) (now : ℕ) (db : Db) (r : Result Bool)
      → Confirmed k db
      → Confirmed k (receive_verified w now db r).1
  receive_verified-Confirmed w now db (err e) h = h
  receive_verified-Confirmed w now db (ok false) h = h
  receive_verified-Confirmed w now db (ok true) h = receive_event-Confirmed w now w.event_id db h

  pub receive_webhook-Confirmed :
      (w : Webhook) (now : ℕ) (db : Db) → Confirmed k db → Confirmed k (receive_webhook w now db).1
  unfolding receive_webhook
  receive_webhook-Confirmed w now db h = receive_verified-Confirmed w now db w.verified h

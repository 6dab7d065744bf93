-- ===== src/Payments/Settled.antt =====
-- Confirmed intents, and what preparing and confirming a payment and asking for its status make of
-- them (backend/src/modules/payments/payments.service.ts).
use tuljai_stays.Base.{
  ℕ, ◌≡◌, Bool, true, ◌&&◌, not, Option, none, some, List, arith, any, is_none, if◌then◌else◌,
  Bool-cases, inl, inr,
}
use tuljai_stays.Base.Counts.{any-update_where}
use tuljai_stays.Base.Results.{Result, ok, err}
use tuljai_stays.Store.{Db, Config, AuthenticatedUser}
use tuljai_stays.Store.Status.{intent_pending}
use tuljai_stays.Store.Rows.{
  Booking, BookingLock, PaymentIntent, PaymentCollection, CreateBookingDto,
}
use tuljai_stays.Bookings.Defs.{Fresh}
use tuljai_stays.Bookings.Prepaid.{create_prepaid_booking, check_prepaid}
use tuljai_stays.Payments.Gateway.{Gateway, GatewayPayment, PaymentVerificationInput}
use tuljai_stays.Payments.Verify.{with_order}
use tuljai_stays.Payments.Reconcile.{payment_of}
use tuljai_stays.Payments.Confirm.{
  Preparation, is_ready, to_store, store_details, or_create, prepare_checked,
  prepare_prepaid_intent, fail_confirmation, after_confirm, confirm_details, confirm_once,
  confirm_checked, confirm_prepared, confirm_unless_done, confirm_requested,
}
use tuljai_stays.Payments.Status.{
  surface, report, retry_hold, ask_gateway, report_latest, reconciled, status_found,
}
use tuljai_stays.Payments.Confirmed.{Confirmed, confirmed_with, prepaid_checked-Confirmed}
use tuljai_stays.Payments.Retried.{reconcile_order-Confirmed}

module _ (k : ℕ) where
  or_create-Confirmed :
      (fresh_id now : ℕ) (dto : CreateBookingDto) (user : AuthenticatedUser) (i : PaymentIntent)
      (table : List PaymentIntent)
      → any (confirmed_with k) table ≡ true
      → any (confirmed_with k) (or_create fresh_id now dto user i table) ≡ true
  unfolding any
  or_create-Confirmed fresh_id now dto user i table h =
      elim (Bool-cases (any (with_order i.provider_order_id) table)) [
        | inl e ↦ rw (e, if◌then◌else◌) h
        | inr e ↦ rw (e, if◌then◌else◌) (ground arith)
      ]

  pub prepare_checked-Confirmed :
      (fresh_id now : ℕ) (dto : CreateBookingDto) (user : AuthenticatedUser) (db : Db)
      (c : Result Preparation)
      → Confirmed k db
      → Confirmed k (prepare_checked fresh_id now dto user db c).1
  unfolding prepare_checked store_details
  prepare_checked-Confirmed fresh_id now dto user db (err e) h = h
  prepare_checked-Confirmed fresh_id now dto user db (ok is_ready) h = h
  prepare_checked-Confirmed fresh_id now dto user db (ok (to_store lock order_id amount)) h =
      any-update_where (confirmed_with k) _ _ (λ x c _. ground arith) _
        (or_create-Confirmed fresh_id now dto user _ db.payment_intents h)

  module _ (gateway : Gateway) (config : Config) (fresh : Fresh) (skipped : ℕ → Bool)
      (upload : Result (Unit {0})) (dto : CreateBookingDto) (user : AuthenticatedUser)
      (input : PaymentVerificationInput) where
    after_confirm-Confirmed :
        (out : Result Booking × Db)
        → Confirmed k out.1
        → Confirmed k (after_confirm gateway config fresh skipped upload dto user input out).1
    unfolding fail_confirmation
    after_confirm-Confirmed (ok b, db) h = h
    after_confirm-Confirmed (err e, db) h =
        any-update_where (confirmed_with k) _ _ (λ x c o. ground arith) db.payment_intents h

    confirm_details-Confirmed :
        (now later : ℕ) (p : GatewayPayment) (db : Db) (d : Option CreateBookingDto)
        → Confirmed k db
        → Confirmed k
            (confirm_details gateway config fresh skipped upload dto user input now later p db d).1
    unfolding create_prepaid_booking
    confirm_details-Confirmed now later p db none h = h
    confirm_details-Confirmed now later p db (some details) h =
        let payment = payment_of input.order_id (record p { id = input.payment_id }) in
        prepaid_checked-Confirmed k config fresh skipped details user upload payment db later
          (check_prepaid db now details user upload payment) h

    confirm_once-Confirmed :
        (now later : ℕ) (i : PaymentIntent) (p : GatewayPayment) (db : Db) (b : Option ℕ)
        → Confirmed k db
        → Confirmed k
            (confirm_once gateway config fresh skipped upload dto user input now later i p db b).1
    confirm_once-Confirmed now later i p db (some booking_id) h = h
    confirm_once-Confirmed now later i p db none h =
        after_confirm-Confirmed _ (confirm_details-Confirmed now later p db i.guest_details h)

    confirm_checked-Confirmed :
        (now later : ℕ) (db : Db) (c : Result (PaymentIntent × GatewayPayment))
        → Confirmed k db
        → Confirmed k
            (confirm_checked gateway config fresh skipped upload dto user input now later db c).1
    unfolding confirm_checked
    confirm_checked-Confirmed now later db (err e) h = h
    confirm_checked-Confirmed now later db (ok (i, p)) h =
        confirm_once-Confirmed now later i p db _ h

    confirm_prepared-Confirmed :
        (now later : ℕ) (out : Result (Unit {0}) × Db)
        → Confirmed k out.1
        → Confirmed k
            (confirm_prepared gateway config fresh skipped upload dto user input now later out).1
    unfolding confirm_prepared
    confirm_prepared-Confirmed now later (err e, db) h = h
    confirm_prepared-Confirmed now later (ok _, db) h = confirm_checked-Confirmed now later db _ h

    confirm_unless_done-Confirmed :
        (intent_id now later : ℕ) (seen current : Db) (o : Option PaymentCollection)
        → Confirmed k current
        → Confirmed k
            (confirm_unless_done gateway config fresh skipped upload dto user input intent_id now
              later seen current o).1
    unfolding confirm_unless_done prepare_prepaid_intent
    confirm_unless_done-Confirmed intent_id now later seen current (some c) h = h
    confirm_unless_done-Confirmed intent_id now later seen current none h =
        confirm_prepared-Confirmed now later _
          (prepare_checked-Confirmed intent_id now dto user current _ h)

    pub confirm_requested-Confirmed :
        (intent_id now later : ℕ) (seen current : Db) (c : Result (Unit {0}))
        → Confirmed k current
        → Confirmed k
            (confirm_requested gateway config fresh skipped upload dto user input intent_id now
              later seen current c).1
    unfolding confirm_requested
    confirm_requested-Confirmed intent_id now later seen current (err e) h = h
    confirm_requested-Confirmed intent_id now later seen current (ok _) h =
        confirm_unless_done-Confirmed intent_id now later seen current _ h

  surface-Confirmed : (i : PaymentIntent) (db : Db) → Confirmed k db → Confirmed k (surface i db)
  unfolding surface
  surface-Confirmed i db h =
      any-update_where (confirmed_with k) _ _ (λ x c o. ground arith) db.payment_intents h

  report-Confirmed :
      (retry : Option BookingLock) (out : Result PaymentIntent × Db)
      → Confirmed k out.1
      → Confirmed k (report retry out).1
  report-Confirmed retry (err e, db) h = h
  report-Confirmed retry (ok i, db) h = h

  module _ (now : ℕ) (user : AuthenticatedUser) where
    retry_hold-Confirmed :
        (i : PaymentIntent) (payments : List GatewayPayment) (o : Option BookingLock) (db : Db)
        → Confirmed k db
        → Confirmed k (retry_hold now user i payments o db).1
    retry_hold-Confirmed i payments none db h = report-Confirmed none _ (surface-Confirmed i db h)
    retry_hold-Confirmed i payments (some lock) db h = h

    ask_gateway-Confirmed :
        (i : PaymentIntent) (db : Db) (r : Result (List GatewayPayment))
        → Confirmed k db
        → Confirmed k (ask_gateway now user i db r).1
    ask_gateway-Confirmed i db (err e) h = h
    ask_gateway-Confirmed i db (ok payments) h = retry_hold-Confirmed i payments _ db h

    report_latest-Confirmed :
        (payments : Result (List GatewayPayment)) (r : Result PaymentIntent) (db : Db)
        → Confirmed k db
        → Confirmed k (report_latest now user payments r db).1
    unfolding report_latest
    report_latest-Confirmed payments (err e) db h = h
    report_latest-Confirmed payments (ok i) db h =
        elim (Bool-cases
          (intent_pending i.status && not (is_none i.guest_details) && is_none i.booking_id)) [
            | inl e ↦ rw (e, if◌then◌else◌) (ask_gateway-Confirmed i db payments h)
            | inr e ↦ rw (e, if◌then◌else◌) h
          ]

  module _ (gateway : Gateway) (config : Config) (fresh : Fresh) (skipped : ℕ → Bool)
      (upload : Result (Unit {0})) (order_id : ℕ) (user : AuthenticatedUser) (now later : ℕ) where
    reconciled-Confirmed :
        (i : PaymentIntent) (out : Result (Unit {0}) × Db)
        → Confirmed k out.1
        → Confirmed k
            (reconciled gateway config fresh skipped upload order_id user now later i out).1
    reconciled-Confirmed i (err e, db) h = h
    reconciled-Confirmed i (ok _, db) h = report_latest-Confirmed later user _ _ db h

    pub status_found-Confirmed :
        (seen current : Db) (o : Option PaymentIntent)
        → Confirmed k current
        → Confirmed k
            (status_found gateway config fresh skipped upload order_id user now later seen current
              o).1
    unfolding status_found
    status_found-Confirmed seen current none h = h
    status_found-Confirmed seen current (some i) h = reconciled-Confirmed i _ (
        reconcile_order-Confirmed k gateway config fresh skipped upload order_id seen now current
          later h)

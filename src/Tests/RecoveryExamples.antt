-- ===== src/Tests/RecoveryExamples.antt =====
-- The theorems on captured payments and their recovery, applied.
use mathlib.Core.List.{Perm}
use tuljai_stays.Base.{
  ◌++◌, ◌+◌, update_where, filter, List, ◌≡◌, refl, arith, true, false, none, some, [], ◌∷◌, min,
  find, any, count, length, All, ◌==◌,
}
use tuljai_stays.Base.Results.{ok, err, conflict, ◌>>=◌, commit}
use tuljai_stays.Store.{Db}
use tuljai_stays.Store.Status.{IntentStatus, PaymentMethod, PaymentProvider, CollectionStatus}
use tuljai_stays.Store.Rows.{PaymentIntent, PaymentCollection, Booking}
use tuljai_stays.Bookings.Defs.{lowest_room}
use tuljai_stays.Bookings.Invariant.{Inv}
use tuljai_stays.Payments.Gateway.{
  Gateway, GatewayPayment, GatewayStatus, PaymentVerificationInput, is_captured,
}
use tuljai_stays.Payments.Verify.{
  Verified, verify_booking_payment, check_payment, verify_checked, verify_tx, assign_room,
  after_verify,
}
use tuljai_stays.Payments.Reconcile.{Webhook, receive_webhook, reconcile_order}
use tuljai_stays.Payments.Pending.{claimable, claim_intent, due_intents, is_due}
use tuljai_stays.Payments.Confirm.{
  confirm_prepaid_booking, check_request, confirm_requested, already_confirmed, find_last,
  confirm_unless_done, prepare_prepaid_intent, check_prepare, prepare_checked, confirm_prepared,
  check_confirm, confirm_checked,
}
use tuljai_stays.Bookings.Prepaid.{
  create_prepaid_booking, check_prepaid, prepaid_checked, create_prepaid_tx,
}
use tuljai_stays.Bookings.Exclusive.{has_id}
use tuljai_stays.Payments.Allocated.{verify_booking_payment-Inv}
use tuljai_stays.Tests.BookingExamples.{the_db-Inv}
use tuljai_stays.Payments.Confirmed.{Confirmed}
use tuljai_stays.Payments.PaymentSteps.{
  PaymentRun, at_start, then_step, receives, reconciles, PaymentRun-Confirmed,
}
use tuljai_stays.Payments.Accounted.{Accounted, Stored, Unbooked, reconcile_order-Accounted}
use tuljai_stays.Payments.AllOrNothing.{
  SameStays, confirm_prepaid_booking-Atomic, verify_booking_payment-Atomic,
}
use tuljai_stays.Payments.Pending.{claim_intent-once}
use tuljai_stays.Payments.Recovered.{SameStay, reconcile_order-Inv}
use tuljai_stays.Payments.BackOff.{doubled_wait, claim_intent-doubled_wait}
use tuljai_stays.Payments.DueOrder.{Ordered, AllBefore, due_intents-Ordered}
use tuljai_stays.Tests.Data.{
  the_db, the_config, the_request, the_pilgrim, fresh_booking, second_booking,
}

abbrev the_gateway_payment : GatewayPayment
the_gateway_payment = record {
  id = 770;
  order_id = 77;
  amount = 200000;
  status = GatewayStatus.captured;
  captured = true;
  currency = 0;
}

abbrev the_gateway : Gateway
the_gateway = record {
  verify_payment = λ _. ok true;
  get_payment = λ _. ok the_gateway_payment;
  get_order_payments = λ _. ok (the_gateway_payment ∷ []);
}

abbrev the_verification : PaymentVerificationInput
the_verification = record { order_id = 77; payment_id = 770; signature = 1 }

-- The intent of the hold's order, before the guest has given any details.
abbrev the_intent : PaymentIntent
the_intent = record {
  id = 61;
  lock_code = 330;
  pilgrim_user_id = 5;
  provider_order_id = 77;
  provider_payment_id = none;
  amount = 200000;
  currency = 0;
  guest_details = none;
  booking_id = none;
  status = IntentStatus.pending;
  last_error = none;
  attempts = 2;
  next_check_at = 100;
}

abbrev paying_db : Db
paying_db = record the_db { bookings = []; payment_intents = the_intent ∷ [] }

abbrev paid_db : Db
paid_db = record the_db {
  payment_intents = record the_intent { status = IntentStatus.confirmed } ∷ [];
}

abbrev the_webhook : Webhook
the_webhook = record {
  verified = ok true;
  event_id = some 71;
  is_object = true;
  event_type = 0;
  payment_id = some 770;
  order_id = some 77;
}

abbrev after_webhook : Db
after_webhook = (receive_webhook the_webhook 150 paid_db).1

abbrev after_reconciliation : Db
after_reconciliation =
    (reconcile_order the_gateway the_config fresh_booking (λ _. false) (ok tt) 77 paying_db 200
      after_webhook 210).1

the_run : PaymentRun paid_db after_reconciliation
the_run =
    then_step (then_step at_start (receives the_webhook 150))
      (reconciles the_gateway the_config fresh_booking (λ _. false) (ok tt) 77 paying_db 200 210)

paid_db-Confirmed : Confirmed 77 paid_db
unfolding any
paid_db-Confirmed = refl

PaymentRun-Confirmed_example : Confirmed 77 after_reconciliation
PaymentRun-Confirmed_example = PaymentRun-Confirmed 77 the_run paid_db-Confirmed

the_intent-found : find (λ x. x.provider_order_id == 77) paying_db.payment_intents ≡ some the_intent
unfolding find
the_intent-found = refl

the_payment-captured : find is_captured (the_gateway_payment ∷ []) ≡ some the_gateway_payment
unfolding find
the_payment-captured = refl

paying_db-Stored : Stored the_intent 77 paying_db
unfolding any
paying_db-Stored = refl

paying_db-Unbooked : Unbooked 77 paying_db
unfolding find
paying_db-Unbooked l h = refl

reconcile_order-Accounted_example :
    Accounted the_intent 77
      (reconcile_order the_gateway the_config fresh_booking
        (λ _. false)
        (ok tt)
        77
        paying_db
        200
        paying_db
        210).1
reconcile_order-Accounted_example =
    reconcile_order-Accounted the_gateway the_config fresh_booking (λ _. false) (ok tt) 77 paying_db
      200 paying_db 210 the_intent (the_gateway_payment ∷ []) the_gateway_payment the_intent-found
      refl refl the_payment-captured paying_db-Stored paying_db-Unbooked paying_db-Unbooked

claim_intent-once_example :
    (count (claimable the_intent) (claim_intent 150 the_intent (the_intent ∷ [])) ≡ 0)
    × (claim_intent 151 the_intent (claim_intent 150 the_intent (the_intent ∷ []))
        ≡ claim_intent 150 the_intent (the_intent ∷ []))
claim_intent-once_example = claim_intent-once 150 151 the_intent (the_intent ∷ []) (ground arith)

claim_intent-doubled_wait_example :
    claim_intent 150 the_intent (the_intent ∷ [])
    ≡ update_where
        (claimable the_intent)
        (λ x. record x {
          attempts = x.attempts + 1;
          next_check_at = 150 + doubled_wait the_intent.attempts;
        })
        (the_intent ∷ [])
claim_intent-doubled_wait_example = claim_intent-doubled_wait 150 the_intent (the_intent ∷ [])

due_intents-Ordered_example :
    (length (due_intents 150 paying_db) ≡ min 10 (count (is_due 150) paying_db.payment_intents))
    × All (λ i. is_due 150 i ≡ true) (due_intents 150 paying_db)
    × Ordered (due_intents 150 paying_db)
    × ((rest : List PaymentIntent) × Perm
          (due_intents 150 paying_db ++ rest)
          (filter (is_due 150) paying_db.payment_intents)
        × AllBefore (due_intents 150 paying_db) rest)
due_intents-Ordered_example = due_intents-Ordered 150 paying_db

abbrev the_collection : PaymentCollection
the_collection = record {
  id = 81;
  booking_id = 2;
  method = PaymentMethod.online;
  provider = some PaymentProvider.razorpay;
  amount = 200000;
  status = CollectionStatus.pending;
  provider_order_id = some 77;
  provider_payment_id = none;
  provider_reference = none;
  paid_at = none;
}

-- The booking that waits for the owner, with its order, and no room that is not being taken.
abbrev ordered_db : Db
ordered_db = record the_db { payment_collections = the_collection ∷ [] }

refused :
    (verify_booking_payment the_gateway
      (λ _. true)
      2
      5
      the_verification
      false
      ordered_db
      ordered_db
      210).0
    ≡ err conflict
unfolding verify_booking_payment check_payment verify_checked verify_tx assign_room after_verify
    find any lowest_room commit ◌>>=◌
refused = refl

verify_booking_payment-Atomic_example :
    SameStays ordered_db
      (verify_booking_payment the_gateway
        (λ _. true)
        2
        5
        the_verification
        false
        ordered_db
        ordered_db
        210).1
verify_booking_payment-Atomic_example =
    verify_booking_payment-Atomic the_gateway (λ _. true) 2 5 the_verification false ordered_db
      ordered_db 210 conflict refused

-- The hold's payment with its guest details, when every room is being taken.
abbrev prepared_db : Db
prepared_db = record the_db {
  payment_intents = record the_intent { guest_details = some the_request } ∷ [];
}

no_room :
    (confirm_prepaid_booking the_gateway the_config fresh_booking
      (λ _. true)
      (ok tt)
      the_request
      the_pilgrim
      the_verification
      62
      500
      600
      prepared_db
      prepared_db).0
    ≡ err conflict
unfolding confirm_prepaid_booking check_request confirm_requested already_confirmed find_last
    confirm_unless_done prepare_prepaid_intent check_prepare prepare_checked confirm_prepared
    check_confirm confirm_checked create_prepaid_booking check_prepaid prepaid_checked
    create_prepaid_tx find any count lowest_room commit ◌>>=◌
no_room = refl

confirm_prepaid_booking-Atomic_example :
    SameStays prepared_db
      (confirm_prepaid_booking the_gateway the_config fresh_booking
        (λ _. true)
        (ok tt)
        the_request
        the_pilgrim
        the_verification
        62
        500
        600
        prepared_db
        prepared_db).1
confirm_prepaid_booking-Atomic_example =
    confirm_prepaid_booking-Atomic the_gateway the_config fresh_booking (λ _. true) (ok tt)
      the_request the_pilgrim the_verification 62 500 600 prepared_db prepared_db conflict no_room

checked_payment :
    check_payment the_gateway 2 5 the_verification false ordered_db
    ≡ ok (record { booking = second_booking; collection = the_collection })
unfolding check_payment ◌>>=◌ find
checked_payment = refl

waiting : find (has_id 2) ordered_db.bookings ≡ some second_booking
unfolding find
waiting = refl

kept_stay :
    (v : Verified) (b : Booking)
    → check_payment the_gateway 2 5 the_verification false ordered_db ≡ ok v
    → find (has_id v.booking.id) ordered_db.bookings ≡ some b
    → b.stay ≡ v.booking.stay
kept_stay v b ev eb =
    let first = checked_payment in
    let pv : record { booking = second_booking; collection = the_collection } ≡ v = cc in
    let again : find (has_id v.booking.id) ordered_db.bookings ≡ some second_booking =
      rw (← pv) waiting in
    let pb : second_booking ≡ b = cc in rw (← pv, ← pb) refl

verify_booking_payment-Inv_example :
    Inv
      (verify_booking_payment the_gateway
        (λ _. false)
        2
        5
        the_verification
        false
        ordered_db
        ordered_db
        210).1.bookings
verify_booking_payment-Inv_example =
    verify_booking_payment-Inv the_gateway (λ _. false) 2 5 the_verification false ordered_db
      ordered_db 210 kept_stay the_db-Inv

-- The hold's payment with its guest details, before there is any booking.
abbrev first_db : Db
first_db = record prepared_db { bookings = [] }

first_db-Inv : Inv first_db.bookings
first_db-Inv = record { ids = tt; exclusive = tt; sources = tt }

no_stays : SameStay the_gateway first_db first_db
unfolding find
no_stays booking_id pilgrim_user_id order_id payment_id v b read h = cc

reconcile_order-Inv_example :
    Inv
      (reconcile_order the_gateway the_config fresh_booking
        (λ _. false)
        (ok tt)
        77
        first_db
        500
        first_db
        600).1.bookings
reconcile_order-Inv_example =
    reconcile_order-Inv the_gateway the_config fresh_booking (λ _. false) (ok tt) 77 first_db 500
      first_db 600 no_stays tt first_db-Inv

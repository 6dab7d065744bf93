-- ===== src/Payments/Confirm.antt =====
-- `preparePrepaidIntent` and `confirmPrepaidBooking` of
-- backend/src/modules/payments/payments.service.ts, and what they call of
-- backend/src/modules/bookings/bookings.service.ts.
use tuljai_stays.Base.{
  ℕ, Bool, false, ◌&&◌, ◌||◌, not, Option, none, some, List, [], ◌∷◌, ◌==◌, leb, ltb, is_some_eq,
  is_none, if◌then◌else◌, find, any, update_where,
}
use tuljai_stays.Base.Results.{
  Result, ok, err, Exception, bad_request, other, ◌>>=◌, ◌>>◌, throw_if, or_throw,
}
use tuljai_stays.Store.{Db, Config, AuthenticatedUser, Notice}
use tuljai_stays.Store.Status.{
  IntentStatus, lock_active, intent_pending, intent_confirmed, is_online, is_paid,
}
use tuljai_stays.Store.Rows.{
  Booking, BookingLock, CreateBookingDto, PaymentCollection, PaymentIntent, LastError,
}
use tuljai_stays.Access.{is_admin, assert_can_manage_lodge}
use tuljai_stays.Inventory.Defs.{find_room_type}
use tuljai_stays.Bookings.Defs.{Fresh, find_booking_or_throw}
use tuljai_stays.Bookings.Create.{notify}
use tuljai_stays.Bookings.Prepaid.{create_prepaid_booking}
use tuljai_stays.Payments.Gateway.{Gateway, GatewayPayment, PaymentVerificationInput, is_captured}
use tuljai_stays.Payments.Verify.{requires_review, review_status, with_order}
use tuljai_stays.Payments.Reconcile.{payment_of}

-- `validatePrepaidGuest`
unfoldable pub validate_prepaid_guest :
    Db → CreateBookingDto → Result (Unit {0}) → ℕ → Result (Unit {0})
validate_prepaid_guest db dto upload room_type_id = do
  throw_if (not (is_online dto.payment_method)) bad_request
  room_type ← or_throw (find_room_type db room_type_id) other
  throw_if
      (ltb room_type.capacity_adults dto.number_of_adults
        || ltb room_type.capacity_children dto.number_of_children)
      bad_request
  upload

-- `getBookingById`: the pilgrim, an administrator and the lodge's people may read it.
abbrev can_view : Db → Booking → AuthenticatedUser → Result (Unit {0})
can_view db b user =
    if b.pilgrim_user_id == user.id || is_admin user
    then ok tt
    else assert_can_manage_lodge db user b.lodge_id

unfoldable pub get_booking_by_id : Db → ℕ → AuthenticatedUser → Result Booking
unfolding find_booking_or_throw is_admin assert_can_manage_lodge
get_booking_by_id db id user = do
  booking ← find_booking_or_throw db id
  can_view db booking user
  ok booking

-- What `preparePrepaidIntent` reads: the guest details are ready, or have to be stored for a hold
-- with an order of this amount.
pub data Preparation : Type 0 where
  is_ready : Preparation
  to_store : BookingLock → ℕ → ℕ → Preparation

abbrev intent_state : Option PaymentIntent → Bool
intent_state none = false
intent_state (some i) = intent_confirmed i.status

abbrev has_details : Option PaymentIntent → Bool
has_details none = false
has_details (some i) = not (is_none i.guest_details)

unfoldable pub check_prepare :
    Db → ℕ → CreateBookingDto → AuthenticatedUser → Result (Unit {0}) → Result Preparation
unfolding validate_prepaid_guest
check_prepare seen now dto user upload = do
  lock ←
      or_throw
        (find (λ l. l.lock_code == dto.lock_code && l.pilgrim_user_id == user.id)
          seen.booking_locks)
        bad_request
  order_id ← or_throw lock.provider_order_id bad_request
  amount ← or_throw lock.order_amount bad_request
  let existing = find (with_order order_id) seen.payment_intents
  if intent_state existing
      then ok is_ready
      else (throw_if (not (lock_active lock.status) || leb lock.expires_at now) bad_request
          >> (if has_details existing
              then ok is_ready
              else (validate_prepaid_guest seen dto upload lock.room_type_id
                  >> ok (to_store lock order_id amount))))

module _ (fresh_id now : ℕ) (dto : CreateBookingDto) (user : AuthenticatedUser) where
  abbrev pub new_intent : ℕ → ℕ → ℕ → Option CreateBookingDto → PaymentIntent
  new_intent lock_code order_id amount details = record {
    id = fresh_id;
    lock_code = lock_code;
    pilgrim_user_id = user.id;
    provider_order_id = order_id;
    provider_payment_id = none;
    amount = amount;
    currency = 0;
    guest_details = details;
    booking_id = none;
    status = IntentStatus.pending;
    last_error = none;
    attempts = 0;
    next_check_at = now;
  }

  -- `upsert` with an empty update
  abbrev pub or_create : PaymentIntent → List PaymentIntent → List PaymentIntent
  or_create i table = if any (with_order i.provider_order_id) table then table else i ∷ table

  abbrev pub lacks_details : ℕ → PaymentIntent → Bool
  lacks_details order_id i =
      i.provider_order_id == order_id && is_none i.guest_details && intent_pending i.status

  unfoldable pub store_details : BookingLock → ℕ → ℕ → Db → Db
  store_details lock order_id amount db = record db {
    payment_intents =
        update_where (lacks_details order_id) (λ i. record i { guest_details = some dto })
          (or_create (new_intent lock.lock_code order_id amount (some dto)) db.payment_intents);
  }

  unfoldable pub prepare_checked : Db → Result Preparation → Result (Unit {0}) × Db
  unfolding store_details
  prepare_checked current (err e) = (err e, current)
  prepare_checked current (ok is_ready) = (ok tt, current)
  prepare_checked current (ok (to_store lock order_id amount)) =
      (ok tt, store_details lock order_id amount current)

  unfoldable pub prepare_prepaid_intent : Result (Unit {0}) → Db → Db → Result (Unit {0}) × Db
  unfolding check_prepare prepare_checked
  prepare_prepaid_intent upload seen current =
      prepare_checked current (check_prepare seen now dto user upload)

-- `ORDER BY c.created_at ASC LIMIT 1`, with the newest row first
unfoldable pub find_last : {A : Type 0} → (A → Bool) → List A → Option A
find_last p [] = none
find_last p (x ∷ xs) =
    let rest = find_last p xs in elim rest [ some y ↦ some y | none ↦ if p x then some x else none ]

-- The collection of a payment that was confirmed before, for a booking of the user.
unfoldable pub already_confirmed :
    Db → AuthenticatedUser → PaymentVerificationInput → Option PaymentCollection
unfolding find_last
already_confirmed db user input =
    find_last
      (λ c.
        is_some_eq c.provider_order_id input.order_id
        && is_some_eq c.provider_payment_id input.payment_id
        && is_paid c.status
        && any (λ b. b.id == c.booking_id && b.pilgrim_user_id == user.id) db.bookings)
      db.payment_collections

module _ (gateway : Gateway) (config : Config) (fresh : Fresh) (skipped : ℕ → Bool)
    (upload : Result (Unit {0})) (dto : CreateBookingDto) (user : AuthenticatedUser)
    (input : PaymentVerificationInput) where
  abbrev pub own_open_intent : PaymentIntent → Bool
  own_open_intent i =
      i.provider_order_id == input.order_id
      && i.pilgrim_user_id == user.id
      && not (intent_confirmed i.status)

  unfoldable pub fail_confirmation : Exception → Db → Db
  fail_confirmation e db = record db {
    payment_intents =
        update_where own_open_intent
          (λ i. record i {
            provider_payment_id = some input.payment_id;
            status = review_status e;
            last_error = some (
                if requires_review e
                then LastError.confirmation_requires_review
                else LastError.confirmation_retry_pending);
          })
          db.payment_intents;
  }

  abbrev pub after_confirm : Result Booking × Db → Result Booking × Db
  after_confirm (ok b, db) = (ok b, notify (Notice.payment_successful b.id) db)
  after_confirm (err e, db) = (err e, fail_confirmation e db)

  -- A snapshot that is gone makes `createPrepaidBooking` throw a TypeError.
  abbrev pub confirm_details :
      ℕ → ℕ → GatewayPayment → Db → Option CreateBookingDto → Result Booking × Db
  confirm_details now later p db none = (err other, db)
  confirm_details now later p db (some details) =
      create_prepaid_booking config fresh skipped details user upload
        (payment_of input.order_id (record p { id = input.payment_id })) db now db later

  abbrev pub wrong_hold : PaymentIntent → Bool
  wrong_hold i = not (i.pilgrim_user_id == user.id) || not (i.lock_code == dto.lock_code)

  abbrev pub wrong_amount : PaymentIntent → GatewayPayment → Bool
  wrong_amount i p = not (p.currency == i.currency) || not (p.amount == i.amount)

  abbrev pub confirmed_before : PaymentIntent → Option ℕ
  confirmed_before i = if intent_confirmed i.status then i.booking_id else none

  abbrev pub confirm_once :
      ℕ → ℕ → PaymentIntent → GatewayPayment → Db → Option ℕ → Result Booking × Db
  confirm_once now later i p db (some booking_id) = (get_booking_by_id db booking_id user, db)
  confirm_once now later i p db none =
      after_confirm (confirm_details now later p db i.guest_details)

  unfoldable pub check_confirm : Db → Result (PaymentIntent × GatewayPayment)
  check_confirm db = do
    payment ← gateway.get_payment input.payment_id
    throw_if (not (payment.id == input.payment_id) || not (payment.order_id == input.order_id))
        bad_request
    throw_if (not (is_captured payment)) bad_request
    intent ← or_throw (find (with_order input.order_id) db.payment_intents) other
    throw_if (wrong_hold intent) bad_request
    throw_if (wrong_amount intent payment) bad_request
    ok (intent, payment)

  unfoldable pub confirm_checked :
      ℕ → ℕ → Db → Result (PaymentIntent × GatewayPayment) → Result Booking × Db
  unfolding get_booking_by_id create_prepaid_booking fail_confirmation
  confirm_checked now later db (err e) = (err e, db)
  confirm_checked now later db (ok (i, p)) = confirm_once now later i p db (confirmed_before i)

  unfoldable pub confirm_prepared : ℕ → ℕ → Result (Unit {0}) × Db → Result Booking × Db
  unfolding check_confirm confirm_checked
  confirm_prepared now later (err e, db) = (err e, db)
  confirm_prepared now later (ok _, db) = confirm_checked now later db (check_confirm db)

  unfoldable pub confirm_unless_done :
      ℕ → ℕ → ℕ → Db → Db → Option PaymentCollection → Result Booking × Db
  unfolding prepare_prepaid_intent confirm_prepared get_booking_by_id
  confirm_unless_done intent_id now later seen current (some c) =
      (get_booking_by_id seen c.booking_id user, current)
  confirm_unless_done intent_id now later seen current none =
      confirm_prepared now later (prepare_prepaid_intent intent_id now dto user upload seen current)

  unfoldable pub check_request : Result (Unit {0})
  check_request = do
    throw_if (not (is_online dto.payment_method)) bad_request
    verified ← gateway.verify_payment input
    throw_if (not verified) bad_request

  unfoldable pub confirm_requested : ℕ → ℕ → ℕ → Db → Db → Result (Unit {0}) → Result Booking × Db
  unfolding already_confirmed confirm_unless_done
  confirm_requested intent_id now later seen current (err e) = (err e, current)
  confirm_requested intent_id now later seen current (ok _) =
      confirm_unless_done intent_id now later seen current (already_confirmed seen user input)

  unfoldable pub confirm_prepaid_booking : ℕ → ℕ → ℕ → Db → Db → Result Booking × Db
  unfolding check_request confirm_requested
  confirm_prepaid_booking intent_id now later seen current =
      confirm_requested intent_id now later seen current check_request

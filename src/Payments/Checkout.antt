-- ===== src/Payments/Checkout.antt =====
-- The orders for holds: `createPrepaidOrder`, `createPrepaidHold` and `releasePrepaidHold` of
-- backend/src/modules/payments/payments.service.ts. The order requests and the gateway's orders are
-- written outside the transaction, so they stay when it is rolled back.
use tuljai_stays.Base.{
  ℕ, ◌+◌, ◌*◌, Bool, true, false, ◌&&◌, ◌||◌, not, Option, none, some, List, [], ◌∷◌, ◌==◌,
  is_some_eq, if◌then◌else◌, find, any, update_where,
}
use tuljai_stays.Base.Results.{
  Result, ok, err, bad_request, other, ◌>>=◌, ◌>>◌, throw_if, or_throw, commit,
}
use tuljai_stays.Store.{Db, Config, AuthenticatedUser}
use tuljai_stays.Store.Status.{IntentStatus}
use tuljai_stays.Store.Rows.{BookingLock, PaymentIntent, PaymentSettings}
use tuljai_stays.Bookings.Prepaid.{Resolved, resolve_lock_for_prepay}
use tuljai_stays.Locks.Defs.{CreateBookingLockDto, FreshLock, create_lock, release_lock, attach}
use tuljai_stays.Payments.Order.{
  OrderRequest, GatewayOrder, PaymentOrder, PostOutcome, create_idempotent_payment_order,
}

-- The references `hold:` and a code, and `booking:` and an identifier.
abbrev pub hold_reference : ℕ → ℕ
hold_reference lock_code = 2 * lock_code

abbrev pub booking_reference : ℕ → ℕ
booking_reference booking_id = 2 * booking_id + 1

abbrev enabled : Option PaymentSettings → Bool
enabled none = false
enabled (some s) = s.online_payments_enabled && s.by_razorpay && s.is_displayed

unfoldable pub assert_online_payments_enabled : Db → Result (Unit {0})
assert_online_payments_enabled db = throw_if (not (enabled db.payment_settings)) bad_request

-- The database, and what stands outside its transactions.
pub record Books : Type 0 where
  pub db : Db
  pub requests : List OrderRequest
  pub orders : List GatewayOrder

abbrev pub paise_order : ℕ → ℕ → PaymentOrder
paise_order id amount = record { order_id = id; amount = amount; currency = 0 }

module _ (fresh_id now : ℕ) where
  abbrev pub open_intent : ℕ → ℕ → ℕ → ℕ → Option ℕ → PaymentIntent
  open_intent lock_code pilgrim_user_id order_id amount booking_id = record {
    id = fresh_id;
    lock_code = lock_code;
    pilgrim_user_id = pilgrim_user_id;
    provider_order_id = order_id;
    provider_payment_id = none;
    amount = amount;
    currency = 0;
    guest_details = none;
    booking_id = booking_id;
    status = IntentStatus.pending;
    last_error = none;
    attempts = 0;
    next_check_at = now;
  }

-- `paymentIntent.create`: the order, the code and the booking of an intent are unique.
abbrev same_booking : Option ℕ → PaymentIntent → Bool
same_booking none x = false
same_booking (some id) x = is_some_eq x.booking_id id

abbrev same_intent : PaymentIntent → PaymentIntent → Bool
same_intent i x =
    x.provider_order_id == i.provider_order_id
    || x.lock_code == i.lock_code
    || same_booking i.booking_id x

abbrev pub create_intent : PaymentIntent → Db → Result Db
create_intent i db =
    throw_if (any (same_intent i) db.payment_intents) other
    >> ok (record db { payment_intents = i ∷ db.payment_intents })

module _ (receipt_of : ℕ → ℕ) (outcome : PostOutcome) (fresh_id now : ℕ) where
  -- `createPrepaidOrder` after the order is there: the hold gets it and lives longer, and the intent
  -- is opened.
  unfoldable pub attach_order :
      Config → ℕ → AuthenticatedUser → Resolved → PaymentOrder → Db → Result (PaymentOrder × Db)
  attach_order config lock_code user r order db = do
    row ← or_throw (find (λ l. l.id == r.lock_id) db.booking_locks) other
    written ←
        create_intent (open_intent fresh_id now lock_code user.id order.order_id r.amount none)
          (record db {
            booking_locks =
                update_where (λ l. l.id == r.lock_id) (attach config now order.order_id r.amount)
                  db.booking_locks;
          })
    ok (order, written)

  abbrev with_db : Books → Result PaymentOrder × Db → Result PaymentOrder × Books
  with_db books (result, db) = (result, record books { db = db })

  unfoldable pub attach_placed :
      Config
      → ℕ
      → AuthenticatedUser
      → Resolved
      → Db
      → Result PaymentOrder × List OrderRequest × List GatewayOrder
      → Result PaymentOrder × Books
  unfolding attach_order
  attach_placed config lock_code user r db (err e, requests, orders) =
      (err e, record { db = db; requests = requests; orders = orders })
  attach_placed config lock_code user r db (ok order, requests, orders) =
      with_db (record { db = db; requests = requests; orders = orders })
        (commit db (attach_order config lock_code user r order db))

  unfoldable pub place_order :
      Config
      → ℕ
      → AuthenticatedUser
      → Books
      → Resolved
      → Option ℕ
      → Option ℕ
      → Result PaymentOrder × Books
  unfolding attach_placed create_idempotent_payment_order
  place_order config lock_code user books r (some order_id) (some amount) =
      (ok (paise_order order_id amount), books)
  place_order config lock_code user books r (some _) none =
      if r.amount == 0
      then (err bad_request, books)
      else attach_placed config lock_code user r books.db (
          create_idempotent_payment_order receipt_of (hold_reference lock_code)
            (record { amount = r.amount; currency = 0 }) outcome books.requests books.orders)
  place_order config lock_code user books r none _ =
      if r.amount == 0
      then (err bad_request, books)
      else attach_placed config lock_code user r books.db (
          create_idempotent_payment_order receipt_of (hold_reference lock_code)
            (record { amount = r.amount; currency = 0 }) outcome books.requests books.orders)

  unfoldable pub order_resolved :
      Config → ℕ → AuthenticatedUser → Books → Result Resolved → Result PaymentOrder × Books
  unfolding place_order
  order_resolved config lock_code user books (err e) = (err e, books)
  order_resolved config lock_code user books (ok r) =
      place_order config lock_code user books r r.provider_order_id r.order_amount

  abbrev authorize : Bool → Db → Result (Unit {0})
  authorize true db = ok tt
  authorize false db = assert_online_payments_enabled db

  unfoldable pub create_prepaid_order :
      Config → ℕ → AuthenticatedUser → Bool → Books → Result PaymentOrder × Books
  unfolding order_resolved resolve_lock_for_prepay assert_online_payments_enabled
  create_prepaid_order config lock_code user already_authorized books =
      order_resolved config lock_code user books (
        authorize already_authorized books.db
        >> resolve_lock_for_prepay books.db now lock_code user)

  -- A hold with no key is released when its order could not be made.
  abbrev pub after_hold :
      ℕ
      → AuthenticatedUser
      → Option (List ℕ)
      → Result PaymentOrder × Books
      → Result PaymentOrder × Books
  after_hold lock_code user key (ok order, books) = (ok order, books)
  after_hold lock_code user none (err e, books) =
      (err e, record books { db = (release_lock now lock_code user books.db).1 })
  after_hold lock_code user (some []) (err e, books) =
      (err e, record books { db = (release_lock now lock_code user books.db).1 })
  after_hold lock_code user (some (_ ∷ _)) (err e, books) = (err e, books)

  unfoldable pub order_held :
      Config
      → AuthenticatedUser
      → Option (List ℕ)
      → Books
      → Result BookingLock × Db
      → Result PaymentOrder × Books
  unfolding create_prepaid_order release_lock
  order_held config user key books (err e, db) = (err e, record books { db = db })
  order_held config user key books (ok lock, db) =
      after_hold lock.lock_code user key
        (create_prepaid_order config lock.lock_code user true (record books { db = db }))

  abbrev hold_enabled :
      Config
      → FreshLock
      → CreateBookingLockDto
      → AuthenticatedUser
      → Option (List ℕ)
      → Books
      → Result (Unit {0})
      → Result PaymentOrder × Books
  hold_enabled config fresh dto user key books (err e) = (err e, books)
  hold_enabled config fresh dto user key books (ok _) =
      order_held config user key books (create_lock config now fresh dto user key books.db)

  unfoldable pub create_prepaid_hold :
      Config
      → FreshLock
      → CreateBookingLockDto
      → AuthenticatedUser
      → Option (List ℕ)
      → Books
      → Result PaymentOrder × Books
  unfolding order_held create_lock assert_online_payments_enabled
  create_prepaid_hold config fresh dto user key books =
      hold_enabled config fresh dto user key books (assert_online_payments_enabled books.db)

  unfoldable pub release_prepaid_hold : ℕ → AuthenticatedUser → Books → Bool × Books
  unfolding release_lock
  release_prepaid_hold lock_code user books =
      let (released, db) = release_lock now lock_code user books.db in
      (released, record books { db = db })

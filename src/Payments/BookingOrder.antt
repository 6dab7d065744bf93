-- ===== src/Payments/BookingOrder.antt =====
-- `createBookingOrder` of backend/src/modules/payments/payments.service.ts: the order for a booking
-- that exists. The code `legacy:` of a booking is a parameter.
use tuljai_stays.Base.{
  ℕ, Bool, false, ◌&&◌, not, Option, none, some, List, ◌∷◌, ◌==◌, find, any, update_where,
  if◌then◌else◌,
}
use tuljai_stays.Base.Results.{
  Result, ok, err, bad_request, not_found, ◌>>=◌, ◌>>◌, throw_if, or_throw, commit,
}
use tuljai_stays.Store.{Db}
use tuljai_stays.Store.Status.{
  CollectionStatus, PaymentMethod, PaymentProvider, is_pending, is_online, is_paid,
}
use tuljai_stays.Store.Rows.{Booking, PaymentCollection, PaymentIntent}
use tuljai_stays.Cash.Defs.{total_of}
use tuljai_stays.Payments.Verify.{with_order}
use tuljai_stays.Payments.Order.{
  OrderRequest, GatewayOrder, PaymentOrder, PostOutcome, create_idempotent_payment_order,
}
use tuljai_stays.Payments.Checkout.{
  Books, assert_online_payments_enabled, booking_reference, open_intent, create_intent, paise_order,
}

-- What the transaction reads: the booking, and its newest online collection.
pub record Payee : Type 0 where
  pub booking : Booking
  pub existing : Option PaymentCollection

abbrev collection_paid : Option PaymentCollection → Bool
collection_paid none = false
collection_paid (some c) = is_paid c.status

unfoldable pub check_payee : ℕ → ℕ → Db → Result Payee
unfolding assert_online_payments_enabled
check_payee booking_id pilgrim_user_id db = do
  booking ←
      or_throw
        (find (λ b. not b.is_deleted && b.id == booking_id && b.pilgrim_user_id == pilgrim_user_id)
          db.bookings)
        not_found
  throw_if (not (is_pending booking.status)) bad_request
  assert_online_payments_enabled db
  let existing = find (λ c. c.booking_id == booking_id && is_online c.method) db.payment_collections
  throw_if (collection_paid existing) bad_request
  throw_if (total_of booking == 0) bad_request
  ok (record { booking = booking; existing = existing })

module _ (legacy_code : ℕ → ℕ) (receipt_of : ℕ → ℕ) (outcome : PostOutcome)
    (intent_id collection_id now booking_id pilgrim_user_id : ℕ) where
  abbrev intent_for : Booking → ℕ → PaymentIntent
  intent_for b order_id =
      open_intent intent_id now (legacy_code booking_id) pilgrim_user_id order_id (total_of b)
        (some booking_id)

  abbrev renew : Booking → ℕ → PaymentCollection → PaymentCollection
  renew b order_id c = record c {
    provider = some PaymentProvider.razorpay;
    amount = total_of b;
    status = CollectionStatus.pending;
    provider_order_id = some order_id;
    provider_payment_id = none;
    provider_reference = none;
    paid_at = none;
  }

  abbrev open_collection : Booking → ℕ → PaymentCollection
  open_collection b order_id = record {
    id = collection_id;
    booking_id = booking_id;
    method = PaymentMethod.online;
    provider = some PaymentProvider.razorpay;
    amount = total_of b;
    status = CollectionStatus.pending;
    provider_order_id = some order_id;
    provider_payment_id = none;
    provider_reference = none;
    paid_at = none;
  }

  abbrev write_collection :
      Booking → ℕ → Option PaymentCollection → List PaymentCollection → List PaymentCollection
  write_collection b order_id none table = open_collection b order_id ∷ table
  write_collection b order_id (some c) table =
      update_where (λ x. x.id == c.id) (renew b order_id) table

  unfoldable pub open_order : Payee → PaymentOrder → Db → Result (PaymentOrder × Db)
  open_order p order db = do
    written ← create_intent (intent_for p.booking order.order_id) (record db {
      payment_collections =
          write_collection p.booking order.order_id p.existing db.payment_collections;
    })
    ok (order, written)

  abbrev in_books : Books → Result PaymentOrder × Db → Result PaymentOrder × Books
  in_books books (result, db) = (result, record books { db = db })

  unfoldable pub open_placed :
      Payee
      → Db
      → Result PaymentOrder × List OrderRequest × List GatewayOrder
      → Result PaymentOrder × Books
  unfolding open_order
  open_placed p db (err e, requests, orders) =
      (err e, record { db = db; requests = requests; orders = orders })
  open_placed p db (ok order, requests, orders) =
      in_books (record { db = db; requests = requests; orders = orders })
        (commit db (open_order p order db))

  -- `upsert` with an empty update
  abbrev or_open : PaymentIntent → List PaymentIntent → List PaymentIntent
  or_open i table = if any (with_order i.provider_order_id) table then table else i ∷ table

  abbrev order_of : Option PaymentCollection → Option ℕ
  order_of none = none
  order_of (some c) = c.provider_order_id

  unfoldable pub order_payee : Books → Payee → Option ℕ → Result PaymentOrder × Books
  unfolding open_placed create_idempotent_payment_order
  order_payee books p (some order_id) = (
    ok (paise_order order_id (total_of p.booking)),
    record books {
      db = record books.db {
        payment_intents = or_open (intent_for p.booking order_id) books.db.payment_intents;
      };
    },
  )
  order_payee books p none = open_placed p books.db (
      create_idempotent_payment_order receipt_of (booking_reference booking_id)
        (record { amount = total_of p.booking; currency = 0 }) outcome books.requests books.orders)

  unfoldable pub order_checked : Books → Result Payee → Result PaymentOrder × Books
  unfolding order_payee
  order_checked books (err e) = (err e, books)
  order_checked books (ok p) = order_payee books p (order_of p.existing)

  unfoldable pub create_booking_order : Books → Result PaymentOrder × Books
  unfolding check_payee order_checked
  create_booking_order books = order_checked books (check_payee booking_id pilgrim_user_id books.db)

-- ===== src/Payments/Verify.antt =====
-- `verifyBookingPayment` of backend/src/modules/payments/payments.service.ts: a booking that waits
-- for the owner is confirmed, with a room, by a captured payment.
use tuljai_stays.Base.{
  ℕ, Bool, true, false, ◌&&◌, ◌||◌, not, Option, none, some, ◌∷◌, ◌==◌, is_some_eq, if◌then◌else◌,
  find, any, update_where,
}
use tuljai_stays.Base.Results.{
  Result, ok, err, Exception, bad_request, conflict, not_found, unavailable, other, ◌>>=◌, ◌>>◌,
  throw_if, or_throw, commit,
}
use tuljai_stays.Store.{Db, Notice}
use tuljai_stays.Store.Status.{
  BookingStatus, RoomStatus, PaymentStatus, CollectionStatus, IntentStatus, is_active, is_available,
  is_blocking, is_pending, is_fully_paid, is_online, intent_confirmed,
}
use tuljai_stays.Store.Rows.{
  Booking, Room, PaymentCollection, PaymentIntent, LastError, Action, order_reference,
}
use tuljai_stays.Pricing.Defs.{in_stay}
use tuljai_stays.Inventory.Defs.{overlaps, of_type}
use tuljai_stays.Bookings.Defs.{update_booking, lowest_room, set_room_status}
use tuljai_stays.Bookings.Create.{notify}
use tuljai_stays.Bookings.Lifecycle.{history_entry}
use tuljai_stays.Bookings.Prepaid.{inr_code}
use tuljai_stays.Cash.Defs.{total_of}
use tuljai_stays.Payments.Gateway.{Gateway, PaymentVerificationInput, is_captured}

-- `error instanceof BadRequestException || error instanceof ConflictException`
abbrev pub requires_review : Exception → Bool
requires_review bad_request = true
requires_review conflict = true
requires_review _ = false

-- The booking and its newest online collection, if the gateway has captured the booking's amount.
pub record Verified : Type 0 where
  pub booking : Booking
  pub collection : PaymentCollection

-- An answer of `verifyPayment`; a reconciliation does not ask for it.
abbrev pub check_signature : Gateway → PaymentVerificationInput → Bool → Result (Unit {0})
check_signature gateway input true = ok tt
check_signature gateway input false = do
  verified ← gateway.verify_payment input
  throw_if (not verified) bad_request

unfoldable pub check_payment :
    Gateway → ℕ → ℕ → PaymentVerificationInput → Bool → Db → Result Verified
check_payment gateway booking_id pilgrim_user_id input gateway_reconciliation seen = do
  booking ←
      or_throw
        (find (λ b. not b.is_deleted && b.id == booking_id && b.pilgrim_user_id == pilgrim_user_id)
          seen.bookings)
        not_found
  collection ←
      or_throw
        (find (λ c. c.booking_id == booking_id && is_online c.method) seen.payment_collections)
        bad_request
  throw_if (not (is_some_eq collection.provider_order_id input.order_id)) bad_request
  check_signature gateway input gateway_reconciliation
  payment ← gateway.get_payment input.payment_id
  throw_if (not (payment.id == input.payment_id) || not (payment.order_id == input.order_id))
      bad_request
  throw_if (not (is_captured payment)) bad_request
  throw_if (not (payment.currency == inr_code) || not (payment.amount == total_of booking))
      bad_request
  ok (record { booking = booking; collection = collection })

module _ (pilgrim_user_id : ℕ) (input : PaymentVerificationInput) (skipped : ℕ → Bool) (later : ℕ)
    (v : Verified) where
  -- the conditions of the query for a room; `skipped` are the rooms whose rows other transactions
  -- have locked
  abbrev pub assignable : Db → Room → Bool
  assignable db r =
      of_type v.booking.lodge_id v.booking.room_type_id r
      && not (skipped r.id)
      && not r.is_deleted
      && r.is_active
      && not (is_blocking r.status)
      && not (
          any
            (λ a. a.room_id == r.id && not (is_available a.status) && in_stay v.booking.stay a.date)
            db.room_availability)
      && not (
          any
            (λ b.
              is_some_eq b.room_id r.id
              && not b.is_deleted
              && not (b.id == v.booking.id)
              && is_active b.status
              && overlaps b.stay v.booking.stay)
            db.bookings)

  abbrev pub confirm_booking : Room → Booking → Booking
  confirm_booking room b = record b {
    room_id = some room.id;
    status = BookingStatus.accepted;
    accepted_by_user_id = some pilgrim_user_id;
    payment_status = PaymentStatus.fully_paid;
  }

  abbrev pub mark_paid : PaymentCollection → PaymentCollection
  mark_paid c = record c {
    status = CollectionStatus.paid;
    provider_payment_id = some input.payment_id;
    provider_reference = some (order_reference input.order_id);
    paid_at = some later;
  }

  unfoldable pub write_verified : Room → Db → Db
  write_verified room db = record db {
    payment_collections =
        update_where (λ c. c.id == v.collection.id) mark_paid db.payment_collections;
    bookings = update_booking v.booking.id (confirm_booking room) db.bookings;
    rooms = set_room_status room.id RoomStatus.confirmed db.rooms;
    booking_history =
        history_entry Action.booking_accepted (some pilgrim_user_id) v.booking.id v.booking.status
          BookingStatus.accepted none
        ∷ db.booking_history;
  }

  -- The room, and whether the payment was recorded before.
  abbrev pub paid_room : Booking → Option ℕ
  paid_room b = if is_fully_paid b.payment_status then b.room_id else none

  unfoldable pub assign_room : Booking → Db → Option ℕ → Result ((ℕ × Bool) × Db)
  unfolding write_verified
  assign_room b db (some room_id) = ok ((room_id, true), db)
  assign_room b db none = do
    throw_if (not (is_pending b.status)) conflict
    room ← or_throw (lowest_room (assignable db) db.rooms) conflict
    throw_if
        (any
          (λ c. not (c.id == v.collection.id) && is_some_eq c.provider_payment_id input.payment_id)
          db.payment_collections)
        other
    ok ((room.id, false), write_verified room db)

  unfoldable pub verify_tx : Db → Result ((ℕ × Bool) × Db)
  unfolding assign_room
  verify_tx db = do
    row ← or_throw (find (λ b. b.id == v.booking.id) db.bookings) other
    assign_room row db (paid_room row)

-- The two updates of the intents of an order that follow the transaction.
abbrev pub with_order : ℕ → PaymentIntent → Bool
with_order order_id i = i.provider_order_id == order_id

abbrev pub open_with_order : ℕ → PaymentIntent → Bool
open_with_order order_id i = i.provider_order_id == order_id && not (intent_confirmed i.status)

abbrev pub review_status : Exception → IntentStatus
review_status e = if requires_review e then IntentStatus.recovery_required else IntentStatus.pending

unfoldable pub fail_verification : PaymentVerificationInput → ℕ → Exception → Db → Db
fail_verification input later e db = record db {
  payment_intents =
      update_where (open_with_order input.order_id)
        (λ i. record i {
          status = review_status e;
          provider_payment_id = some input.payment_id;
          last_error = some (
              if requires_review e
              then LastError.allocation_requires_review
              else LastError.confirmation_retry_pending);
          next_check_at = later;
        })
        db.payment_intents;
}

unfoldable pub confirm_intents : PaymentVerificationInput → Db → Db
confirm_intents input db = record db {
  payment_intents =
      update_where (with_order input.order_id)
        (λ i. record i {
          status = IntentStatus.confirmed;
          provider_payment_id = some input.payment_id;
          last_error = none;
        })
        db.payment_intents;
}

pub record Confirmation : Type 0 where
  pub booking_id : ℕ
  pub booking_code : ℕ
  pub room_id : ℕ

-- `throw new ServiceUnavailableException(…)` or `throw new ConflictException(…)`
abbrev pub verification_error : Exception → Exception
verification_error e = if requires_review e then conflict else unavailable

unfoldable pub after_verify :
    PaymentVerificationInput → ℕ → Verified → Result (ℕ × Bool) × Db → Result Confirmation × Db
unfolding fail_verification confirm_intents
after_verify input later v (err e, db) =
    (err (verification_error e), fail_verification input later e db)
after_verify input later v (ok (room, true), db) = (
  ok (record { booking_id = v.booking.id; booking_code = v.booking.booking_code; room_id = room }),
  confirm_intents input db,
)
after_verify input later v (ok (room, false), db) = (
  ok (record { booking_id = v.booking.id; booking_code = v.booking.booking_code; room_id = room }),
  notify (Notice.booking_accepted v.booking.id)
      (notify (Notice.payment_successful v.booking.id) (confirm_intents input db)),
)

module _ (gateway : Gateway) (skipped : ℕ → Bool) (booking_id pilgrim_user_id : ℕ)
    (input : PaymentVerificationInput) (gateway_reconciliation : Bool) where
  unfoldable pub verify_checked : Db → ℕ → Result Verified → Result Confirmation × Db
  unfolding verify_tx after_verify
  verify_checked current later (err e) = (err e, current)
  verify_checked current later (ok v) =
      after_verify input later v
        (commit current (verify_tx pilgrim_user_id input skipped later v current))

  unfoldable pub verify_booking_payment : Db → Db → ℕ → Result Confirmation × Db
  unfolding check_payment verify_checked
  verify_booking_payment seen current later =
      verify_checked current later
        (check_payment gateway booking_id pilgrim_user_id input gateway_reconciliation seen)

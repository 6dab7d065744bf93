-- ===== src/Bookings/Prepaid.antt =====
-- `resolveLockForPrepay` and `createPrepaidBooking` of
-- backend/src/modules/bookings/bookings.service.ts: a captured payment turns a hold into a booking
-- that is accepted at once, with a room.
use tuljai_stays.Base.{
  ℕ, ◌+◌, Bool, true, false, ◌&&◌, ◌||◌, not, Option, none, some, ◌∷◌, ltb, leb, ◌==◌, is_some_eq,
  find, count, any, update_where,
}
use tuljai_stays.Base.Results.{
  Result, ok, err, bad_request, conflict, other, ◌>>=◌, ◌>>◌, throw_if, or_throw, commit,
}
use tuljai_stays.Store.{Db, Config, AuthenticatedUser, Notice}
use tuljai_stays.Store.Status.{
  lock_active, PaymentStatus, BookingStatus, RoomStatus, CollectionStatus, PaymentMethod,
  PaymentProvider, IntentStatus,
}
use tuljai_stays.Store.Rows.{
  Booking, BookingLock, CreateBookingDto, RoomType, Lodge, Room, PaymentCollection, PaymentIntent,
  Action, order_reference,
}
use tuljai_stays.Pricing.Defs.{calculate_stay_price}
use tuljai_stays.Inventory.Defs.{
  find_lodge, find_room_type, is_verified, get_availability, available, room_available, of_type,
}
use tuljai_stays.Bookings.Defs.{
  Fresh, find_by_source, generate_booking_code, lowest_room, set_room_status,
}
use tuljai_stays.Bookings.Create.{assert_fits, claimable, consume, notify, unless_prior}

pub record Resolved : Type 0 where
  pub amount : ℕ
  pub lock_id : ℕ
  pub order_amount : Option ℕ
  pub provider_order_id : Option ℕ

unfoldable pub resolve_lock_for_prepay : Db → ℕ → ℕ → AuthenticatedUser → Result Resolved
resolve_lock_for_prepay db now lock_code user = do
  lock ←
      or_throw
        (find
          (λ l.
            l.lock_code == lock_code
            && lock_active l.status
            && ltb now l.expires_at
            && l.pilgrim_user_id == user.id)
          db.booking_locks)
        bad_request
  lodge ← or_throw (find_lodge db lock.lodge_id) other
  throw_if (not (is_verified lodge)) bad_request
  room_type ← or_throw (find_room_type db lock.room_type_id) other
  throw_if (not room_type.is_active || room_type.is_deleted) bad_request
  availability ←
      get_availability db
        (record {
          stay = lock.stay;
          now = now;
          exclude_booking_id = none;
          exclude_lock_id = some lock.id;
        })
        lock.lodge_id lock.room_type_id
  throw_if (not (available availability)) conflict
  price ←
      calculate_stay_price db lock.room_type_id room_type.base_price lock.stay
        room_type.festival_price
  ok (record {
    amount = price;
    lock_id = lock.id;
    order_amount = lock.order_amount;
    provider_order_id = lock.provider_order_id;
  })

-- What the gateway says of the payment, its amount in paise.
pub record Payment : Type 0 where
  pub provider_order_id : ℕ
  pub provider_payment_id : ℕ
  pub amount : ℕ
  pub currency : ℕ

-- the text 'INR'
abbrev pub inr_code : ℕ
inr_code = 0

-- The hold, its lodge, and the amount of its order.
pub data Payable : Type 0 where
  paid_before : Booking → Payable
  payable : BookingLock → Lodge → ℕ → Payable

unfoldable pub check_prepaid :
    Db → ℕ → CreateBookingDto → AuthenticatedUser → Result (Unit {0}) → Payment → Result Payable
check_prepaid seen now dto user upload payment = do
  lock ←
      or_throw
        (find
          (λ l.
            l.lock_code == dto.lock_code
            && l.pilgrim_user_id == user.id
            && is_some_eq l.provider_order_id payment.provider_order_id)
          seen.booking_locks)
        bad_request
  order_amount ← or_throw lock.order_amount bad_request
  elim (find_by_source seen lock.id) [
    | some b ↦ ok (paid_before b)
    | none ↦ do
      throw_if (not (lock_active lock.status) || leb lock.expires_at now) bad_request
      throw_if (not (payment.currency == inr_code) || not (payment.amount == order_amount))
          bad_request
      lodge ← or_throw (find_lodge seen lock.lodge_id) other
      throw_if (not (is_verified lodge)) bad_request
      room_type ← or_throw (find_room_type seen lock.room_type_id) other
      throw_if (not room_type.is_active || room_type.is_deleted) bad_request
      assert_fits dto room_type
      upload
      ok (payable lock lodge order_amount)
  ]

module _ (config : Config) (now : ℕ) (fresh : Fresh) (dto : CreateBookingDto)
    (user : AuthenticatedUser) (lock : BookingLock) (lodge : Lodge) (order_amount : ℕ)
    (payment : Payment) where
  abbrev pub paid_booking : Db → Room → Booking
  paid_booking db room = record {
    id = fresh.id;
    booking_code = generate_booking_code db fresh;
    source_lock_id = some lock.id;
    pilgrim_user_id = user.id;
    lodge_id = lock.lodge_id;
    room_type_id = lock.room_type_id;
    room_id = some room.id;
    city_id = lodge.city_id;
    status = BookingStatus.accepted;
    guest = dto.guest;
    number_of_adults = dto.number_of_adults;
    number_of_children = dto.number_of_children;
    total_guests = dto.number_of_adults + dto.number_of_children;
    stay = lock.stay;
    total_amount = some order_amount;
    balance_amount = none;
    commission_amount = config.commission_flat_amount;
    payment_status = PaymentStatus.fully_paid;
    owner_response_deadline = none;
    accepted_by_user_id = some user.id;
    rejected_by_user_id = none;
    cancellation_reason = none;
    rejected_reason = none;
    checked_in_at = none;
    checked_out_at = none;
    is_deleted = false;
  }

  abbrev pub paid_collection : PaymentCollection
  paid_collection = record {
    id = fresh.id;
    booking_id = fresh.id;
    method = PaymentMethod.online;
    provider = some PaymentProvider.razorpay;
    amount = order_amount;
    status = CollectionStatus.paid;
    provider_order_id = some payment.provider_order_id;
    provider_payment_id = some payment.provider_payment_id;
    provider_reference = some (order_reference payment.provider_order_id);
    paid_at = some now;
  }

  abbrev pub confirm_intent : PaymentIntent → PaymentIntent
  confirm_intent i = record i {
    booking_id = some fresh.id;
    provider_payment_id = some payment.provider_payment_id;
    status = IntentStatus.confirmed;
    guest_details = none;
    last_error = none;
  }

  unfoldable pub write_prepaid : Db → Room → Db
  write_prepaid db room = record db {
    booking_locks =
        update_where (λ l. l.id == lock.id) consume
          (update_where (claimable lock.id now) consume db.booking_locks);
    bookings = paid_booking db room ∷ db.bookings;
    rooms = set_room_status room.id RoomStatus.confirmed db.rooms;
    room_status_history =
        record {
          actor_user_id = user.id;
          booking_id = fresh.id;
          from_status = RoomStatus.available;
          reason = Action.booking_accepted;
          room_id = room.id;
          to_status = RoomStatus.confirmed;
        }
        ∷ db.room_status_history;
    booking_history =
        record {
          action = Action.booking_created;
          actor_user_id = some user.id;
          booking_id = fresh.id;
          from_status = none;
          to_status = BookingStatus.accepted;
          notes = none;
        }
        ∷ db.booking_history;
    payment_collections = paid_collection ∷ db.payment_collections;
    payment_intents =
        update_where (λ i. i.provider_order_id == payment.provider_order_id) confirm_intent
          db.payment_intents;
    audit_logs =
        record {
          action = Action.booking_created;
          actor_user_id = some user.id;
          entity_id = fresh.id;
        }
        ∷ db.audit_logs;
  }

  -- a room type or lodge that is no longer on offer
  abbrev pub withdrawn : RoomType → Lodge → Bool
  withdrawn t l =
      not t.is_active
      || t.is_deleted
      || not l.is_active
      || l.is_deleted
      || not (is_verified l)
      || ltb t.capacity_adults dto.number_of_adults
      || ltb t.capacity_children dto.number_of_children

  -- the conditions of the query for a room; `skipped` are the rooms whose rows other transactions
  -- have locked
  abbrev pub allocatable : (ℕ → Bool) → Db → Room → Bool
  allocatable skipped db r =
      of_type lock.lodge_id lock.room_type_id r
      && not (skipped r.id)
      && room_available db
          (record {
            stay = lock.stay;
            now = now;
            exclude_booking_id = none;
            exclude_lock_id = some lock.id;
          })
          r

  -- An amount is positive and a
  -- payment is recorded once, by a check and a unique index of `payment_collections`.
  unfoldable pub create_prepaid_tx : (ℕ → Bool) → Db → Result ((Booking × Bool) × Db)
  unfolding write_prepaid room_available
  create_prepaid_tx skipped db = unless_prior (find_by_source db lock.id) db do
    current_type ← or_throw (find_room_type db lock.room_type_id) other
    lodge_now ← or_throw (find_lodge db current_type.lodge_id) other
    throw_if (withdrawn current_type lodge_now) conflict
    throw_if (not (count (claimable lock.id now) db.booking_locks == 1)) conflict
    room ← or_throw (lowest_room (allocatable skipped db) db.rooms) conflict
    throw_if
        (order_amount == 0
          || any (λ c. is_some_eq c.provider_payment_id payment.provider_payment_id)
              db.payment_collections)
        other
    ok ((paid_booking db room, true), write_prepaid db room)

-- Two notifications follow a new booking; neither can fail it.
abbrev pub announce_prepaid : Result (Booking × Bool) × Db → Result Booking × Db
announce_prepaid (ok (b, true), db) = (
  ok b,
  notify (Notice.prepaid_booking_confirmed b.id) (notify (Notice.booking_accepted b.id) db),
)
announce_prepaid (ok (b, false), db) = (ok b, db)
announce_prepaid (err e, db) = (err e, db)

module _ (config : Config) (fresh : Fresh) (skipped : ℕ → Bool) (dto : CreateBookingDto)
    (user : AuthenticatedUser) (upload : Result (Unit {0})) (payment : Payment) where
  unfoldable pub prepaid_checked : Db → ℕ → Result Payable → Result Booking × Db
  unfolding create_prepaid_tx
  prepaid_checked current later (err e) = (err e, current)
  prepaid_checked current later (ok (paid_before b)) = (ok b, current)
  prepaid_checked current later (ok (payable lock lodge amount)) = announce_prepaid (
      commit current
        (create_prepaid_tx config later fresh dto user lock lodge amount payment skipped current))

  unfoldable pub create_prepaid_booking : Db → ℕ → Db → ℕ → Result Booking × Db
  unfolding check_prepaid prepaid_checked
  create_prepaid_booking seen now current later =
      prepaid_checked current later (check_prepaid seen now dto user upload payment)

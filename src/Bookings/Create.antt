-- ===== src/Bookings/Create.antt =====
-- `createBooking` of backend/src/modules/bookings/bookings.service.ts: a hold becomes a booking that
-- waits for the owner.
use tuljai_stays.Base.{
  ℕ, ◌+◌, Bool, true, false, ◌&&◌, ◌||◌, not, Option, none, some, ◌∷◌, ltb, leb, ◌==◌,
  if◌then◌else◌, is_none, find, count, update_where,
}
use tuljai_stays.Base.Results.{
  Result, ok, err, bad_request, conflict, other, ◌>>=◌, ◌>>◌, throw_if, or_throw, commit,
}
use tuljai_stays.Store.{Db, Config, AuthenticatedUser, Notice}
use tuljai_stays.Store.Status.{
  LockStatus, lock_active, PaymentStatus, BookingStatus, CollectionStatus, PaymentMethod,
  PaymentProvider, is_online,
}
use tuljai_stays.Store.Rows.{
  Booking, BookingLock, CreateBookingDto, RoomType, Lodge, PaymentCollection, Action,
}
use tuljai_stays.Pricing.Defs.{calculate_stay_price}
use tuljai_stays.Inventory.Defs.{
  find_lodge, find_room_type, is_verified, get_availability, available,
}
use tuljai_stays.Bookings.Defs.{Fresh, find_by_source, generate_booking_code, seconds}

-- What the reads before the transaction come to: a booking made earlier from this hold, or the
-- hold with its lodge.
pub data Checked : Type 0 where
  prior : Booking → Checked
  proceed : BookingLock → Lodge → Checked

-- the capacity tests
abbrev pub assert_fits : CreateBookingDto → RoomType → Result (Unit {0})
assert_fits dto t =
    throw_if (ltb t.capacity_adults dto.number_of_adults) bad_request
    >> throw_if (ltb t.capacity_children dto.number_of_children) bad_request

-- `updateMany` on the hold: `status: 'ACTIVE', expiresAt: { gt: now }`
abbrev pub claimable : ℕ → ℕ → BookingLock → Bool
claimable id now l = l.id == id && lock_active l.status && ltb now l.expires_at

abbrev pub consume : BookingLock → BookingLock
consume l = record l { status = LockStatus.consumed }

-- `upload` is what `assertOwnedUpload` answers for the ID proof.
unfoldable pub check_create :
    Db → ℕ → CreateBookingDto → AuthenticatedUser → Result (Unit {0}) → Result Checked
check_create seen now dto user upload = do
  lock ←
      or_throw
        (find (λ l. l.lock_code == dto.lock_code && l.pilgrim_user_id == user.id)
          seen.booking_locks)
        bad_request
  throw_if (not (is_none lock.provider_order_id)) bad_request
  elim (find_by_source seen lock.id) [
    | some b ↦ ok (prior b)
    | none ↦ do
      throw_if (not (lock_active lock.status) || leb lock.expires_at now) bad_request
      lodge ← or_throw (find_lodge seen lock.lodge_id) other
      throw_if (not (is_verified lodge)) bad_request
      room_type ← or_throw (find_room_type seen lock.room_type_id) other
      throw_if (not room_type.is_active || room_type.is_deleted) bad_request
      assert_fits dto room_type
      upload
      ok (proceed lock lodge)
  ]

-- A booking made earlier from the hold is the answer.
abbrev pub unless_prior :
    Option Booking → Db → Result ((Booking × Bool) × Db) → Result ((Booking × Bool) × Db)
unless_prior (some b) db rest = ok ((b, false), db)
unless_prior none db rest = rest

module _ (config : Config) (now : ℕ) (fresh : Fresh) (dto : CreateBookingDto)
    (user : AuthenticatedUser) (lock : BookingLock) (lodge : Lodge) where
  -- the row of `tx.booking.create`
  abbrev pub new_booking : Db → ℕ → Booking
  new_booking db price = record {
    id = fresh.id;
    booking_code = generate_booking_code db fresh;
    source_lock_id = some lock.id;
    pilgrim_user_id = user.id;
    lodge_id = lock.lodge_id;
    room_type_id = lock.room_type_id;
    room_id = none;
    city_id = lodge.city_id;
    status = BookingStatus.pending_owner_approval;
    guest = dto.guest;
    number_of_adults = dto.number_of_adults;
    number_of_children = dto.number_of_children;
    total_guests = dto.number_of_adults + dto.number_of_children;
    stay = lock.stay;
    total_amount = some price;
    balance_amount = none;
    commission_amount = config.commission_flat_amount;
    payment_status =
        if is_online dto.payment_method then PaymentStatus.pending else PaymentStatus.pay_at_lodge;
    owner_response_deadline = some (now + seconds config.owner_response_deadline_seconds);
    accepted_by_user_id = none;
    rejected_by_user_id = none;
    cancellation_reason = none;
    rejected_reason = none;
    checked_in_at = none;
    checked_out_at = none;
    is_deleted = false;
  }

  abbrev pub new_collection : ℕ → PaymentCollection
  new_collection price = record {
    id = fresh.id;
    booking_id = fresh.id;
    method = PaymentMethod.online;
    provider = some PaymentProvider.razorpay;
    amount = price;
    status = CollectionStatus.pending;
    provider_order_id = none;
    provider_payment_id = none;
    provider_reference = none;
    paid_at = none;
  }

  -- the writes of the transaction
  unfoldable pub write_booking : Db → ℕ → Db
  write_booking db price = record db {
    booking_locks =
        update_where (λ l. l.id == lock.id) consume
          (update_where (claimable lock.id now) consume db.booking_locks);
    bookings = new_booking db price ∷ db.bookings;
    booking_history =
        record {
          action = Action.booking_created;
          actor_user_id = some user.id;
          booking_id = fresh.id;
          from_status = none;
          to_status = BookingStatus.pending_owner_approval;
          notes = none;
        }
        ∷ db.booking_history;
    payment_collections =
        if is_online dto.payment_method
        then new_collection price ∷ db.payment_collections
        else db.payment_collections;
    audit_logs =
        record {
          action = Action.booking_created;
          actor_user_id = some user.id;
          entity_id = fresh.id;
        }
        ∷ db.audit_logs;
  }

  -- `payment_collections` has a check that an amount is positive.
  unfoldable pub create_booking_tx : Db → Result ((Booking × Bool) × Db)
  unfolding write_booking
  create_booking_tx db = unless_prior (find_by_source db lock.id) db do
    throw_if (not (count (claimable lock.id now) db.booking_locks == 1)) conflict
    room_type ← or_throw (find_room_type db lock.room_type_id) other
    let claimed = record db {
      booking_locks = update_where (claimable lock.id now) consume db.booking_locks;
    }
    availability ←
        get_availability claimed
          (record {
            stay = lock.stay;
            now = now;
            exclude_booking_id = none;
            exclude_lock_id = some lock.id;
          })
          lock.lodge_id lock.room_type_id
    throw_if (not (available availability)) conflict
    price ←
        calculate_stay_price claimed lock.room_type_id room_type.base_price lock.stay
          room_type.festival_price
    throw_if (is_online dto.payment_method && price == 0) other
    ok ((new_booking db price, true), write_booking db price)

abbrev pub notify : Notice → Db → Db
notify n db = record db { notices = n ∷ db.notices }

-- A booking that is not new is answered with no notification.
abbrev pub announce : (Booking → Notice) → Result (Booking × Bool) × Db → Result Booking × Db
announce f (ok (b, true), db) = (ok b, notify (f b) db)
announce f (ok (b, false), db) = (ok b, db)
announce f (err e, db) = (err e, db)

module _ (config : Config) (fresh : Fresh) (dto : CreateBookingDto) (user : AuthenticatedUser)
    (upload : Result (Unit {0})) where
  -- what follows the reads, at time `later`
  unfoldable pub create_checked : Db → ℕ → Result Checked → Result Booking × Db
  unfolding create_booking_tx
  create_checked current later (err e) = (err e, current)
  create_checked current later (ok (prior b)) = (ok b, current)
  create_checked current later (ok (proceed lock lodge)) =
      announce (λ b. Notice.booking_created b.id)
        (commit current (create_booking_tx config later fresh dto user lock lodge current))

  unfoldable pub create_booking : Db → ℕ → Db → ℕ → Result Booking × Db
  unfolding check_create create_checked
  create_booking seen now current later =
      create_checked current later (check_create seen now dto user upload)

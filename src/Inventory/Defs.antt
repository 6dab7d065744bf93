-- ===== src/Inventory/Defs.antt =====
-- backend/src/modules/bookings/booking-availability.service.ts: which rooms are free for a stay, and
-- how many can still be sold.
use tuljai_stays.Base.{
  ℕ, ◌-◌, Bool, true, false, ◌&&◌, ◌||◌, not, Option, none, some, List, [], ◌∷◌, ltb, leb, ◌==◌,
  if◌then◌else◌, is_some_eq, is_other, is_none, find, count, any,
}
use tuljai_stays.Base.Results.{Result, ok, bad_request, not_found, ◌>>=◌, ◌>>◌, throw_if, or_throw}
use tuljai_stays.Store.{Db}
use tuljai_stays.Store.Status.{
  is_active, is_available, is_blocking, lock_active, lodge_verified, documents_verified,
}
use tuljai_stays.Store.Rows.{Stay, Booking, BookingLock, RoomAvailability, Room, RoomType, Lodge}
use tuljai_stays.Pricing.Defs.{in_stay, calculate_stay_price}

-- The inputs of `availableRoomWhere`, and the time of the query.
pub record Query : Type 0 where
  pub stay : Stay
  pub now : ℕ
  pub exclude_booking_id : Option ℕ
  pub exclude_lock_id : Option ℕ

-- `checkInDate: { lt: input.checkOutDate }, checkOutDate: { gt: input.checkInDate }`
abbrev pub overlaps : Stay → Stay → Bool
overlaps row input = ltb row.check_in input.check_out && ltb input.check_in row.check_out

abbrev pub booking_blocks : Query → Booking → Bool
booking_blocks q b =
    overlaps b.stay q.stay
    && not b.is_deleted
    && is_other q.exclude_booking_id b.id
    && is_active b.status

abbrev pub lock_blocks : Query → BookingLock → Bool
lock_blocks q l =
    overlaps l.stay q.stay
    && is_other q.exclude_lock_id l.id
    && lock_active l.status
    && ltb q.now l.expires_at

abbrev pub date_blocks : Query → RoomAvailability → Bool
date_blocks q a = in_stay q.stay a.date && not (is_available a.status)

-- `availableRoomWhere`, for one room
unfoldable pub room_available : Db → Query → Room → Bool
room_available db q r =
    not r.is_deleted
    && r.is_active
    && not (is_blocking r.status)
    && not (any (λ b. is_some_eq b.room_id r.id && booking_blocks q b) db.bookings)
    && not (any (λ l. is_some_eq l.room_id r.id && lock_blocks q l) db.booking_locks)
    && not (any (λ a. a.room_id == r.id && date_blocks q a) db.room_availability)

abbrev pub of_type : ℕ → ℕ → Room → Bool
of_type lodge_id room_type_id r = r.lodge_id == lodge_id && r.room_type_id == room_type_id

module _ (db : Db) (q : Query) (lodge_id room_type_id : ℕ) where
  unfoldable pub free_rooms : ℕ
  unfolding room_available
  free_rooms = count (λ r. of_type lodge_id room_type_id r && room_available db q r) db.rooms

  -- sold, with no room yet
  abbrev pub unassigned_booking : Booking → Bool
  unassigned_booking b =
      booking_blocks q b
      && b.lodge_id == lodge_id
      && is_none b.room_id
      && b.room_type_id == room_type_id

  -- held, with no room yet
  abbrev pub unassigned_lock : BookingLock → Bool
  unassigned_lock l =
      lock_blocks q l
      && l.lodge_id == lodge_id
      && is_none l.room_id
      && l.room_type_id == room_type_id

  -- `-` stops at 0, as `Math.max(…, 0)` does.
  unfoldable pub count_available_rooms : ℕ
  unfolding free_rooms
  count_available_rooms =
      free_rooms - count unassigned_booking db.bookings - count unassigned_lock db.booking_locks

-- `orderBy: [{ floor: 'asc' }, { roomNumber: 'asc' }]`; rooms with no floor come last.
abbrev pub floor_before : Option ℕ → Option ℕ → Bool
floor_before none _ = false
floor_before (some a) none = true
floor_before (some a) (some b) = ltb a b

abbrev pub room_before : Room → Room → Bool
room_before r s =
    floor_before r.floor s.floor
    || not (floor_before s.floor r.floor) && ltb r.room_number s.room_number

abbrev pub earlier : Room → Option Room → Option Room
earlier r none = some r
earlier r (some s) = if room_before s r then some s else some r

-- the first room in that order that passes a test
unfoldable pub first_room : (Room → Bool) → List Room → Option Room
first_room p [] = none
first_room p (r ∷ rs) = let rest = first_room p rs in if p r then earlier r rest else rest

unfoldable pub find_available_room : Db → Query → ℕ → ℕ → Option Room
unfolding first_room room_available
find_available_room db q lodge_id room_type_id =
    first_room (λ r. of_type lodge_id room_type_id r && room_available db q r) db.rooms

-- `new Date(…)` of a request's date: no value where the text is no date.
abbrev pub parse_date_only : Option ℕ → Result ℕ
parse_date_only value = or_throw value bad_request

unfoldable pub parse_date_range : Option ℕ → Option ℕ → Result Stay
parse_date_range check_in_value check_out_value = do
  check_in ← parse_date_only check_in_value
  check_out ← parse_date_only check_out_value
  throw_if (leb check_out check_in) bad_request
  ok (record { check_in = check_in; check_out = check_out })

abbrev pub find_lodge : Db → ℕ → Option Lodge
find_lodge db id = find (λ l. l.id == id) db.lodges

abbrev pub find_room_type : Db → ℕ → Option RoomType
find_room_type db id = find (λ t. t.id == id) db.room_types

abbrev pub is_verified : Lodge → Bool
is_verified l = lodge_verified l.status && documents_verified l.verification_status

pub record Availability : Type 0 where
  pub available_room_count : ℕ
  pub total_amount : ℕ

-- `available: availableRoomCount > 0`
abbrev pub available : Availability → Bool
available a = ltb 0 a.available_room_count

-- `getAvailability` after the dates are parsed
unfoldable pub get_availability : Db → Query → ℕ → ℕ → Result Availability
unfolding count_available_rooms calculate_stay_price
get_availability db q lodge_id room_type_id = do
  room_type ←
      or_throw
        (find
          (λ t. not t.is_deleted && t.id == room_type_id && t.is_active && t.lodge_id == lodge_id)
          db.room_types)
        not_found
  lodge ← or_throw (find_lodge db room_type.lodge_id) not_found
  throw_if (lodge.is_deleted || not lodge.is_active) not_found
  throw_if (not (is_verified lodge)) bad_request
  total ← calculate_stay_price db room_type_id room_type.base_price q.stay room_type.festival_price
  ok (record {
    available_room_count = count_available_rooms db q lodge_id room_type_id;
    total_amount = total;
  })

-- `isRoomAvailable`: no room type is given, so the room may be of any
unfoldable pub is_room_available : Db → Query → ℕ → Bool
unfolding room_available
is_room_available db q room_id = any (λ r. r.id == room_id && room_available db q r) db.rooms

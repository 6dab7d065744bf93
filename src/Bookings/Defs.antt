-- ===== src/Bookings/Defs.antt =====
-- Parts that the operations of backend/src/modules/bookings/bookings.service.ts share.
use tuljai_stays.Base.{
  ℕ, zero, suc, ◌*◌, Bool, ◌&&◌, not, Option, none, some, List, [], ◌∷◌, ◌==◌, is_some_eq,
  if◌then◌else◌, find, any, update_where, ltb,
}
use tuljai_stays.Base.Results.{Result, not_found, or_throw}
use tuljai_stays.Store.{Db}
use tuljai_stays.Store.Status.{RoomStatus}
use tuljai_stays.Store.Rows.{Booking, Room}

-- `findBookingOrThrow`
unfoldable pub find_booking_or_throw : Db → ℕ → Result Booking
find_booking_or_throw db id =
    or_throw (find (λ b. not b.is_deleted && b.id == id) db.bookings) not_found

-- `findUnique` by `sourceLockId`
abbrev pub find_by_source : Db → ℕ → Option Booking
find_by_source db lock_id = find (λ b. is_some_eq b.source_lock_id lock_id) db.bookings

abbrev pub update_booking : ℕ → (Booking → Booking) → List Booking → List Booking
update_booking id = update_where (λ b. b.id == id)

abbrev pub set_room_status : ℕ → RoomStatus → List Room → List Room
set_room_status id to = update_where (λ r. r.id == id) (λ r. record r { status = to })

-- The random values that a request draws: the identifier of the row that it creates, the booking
-- codes that it may try, and the code made from the clock.
pub record Fresh : Type 0 where
  pub id : ℕ
  pub booking_codes : List ℕ
  pub timed_code : ℕ

abbrev code_taken : Db → ℕ → Bool
code_taken db code = any (λ b. b.booking_code == code) db.bookings

-- the loop of `generateBookingCode` over the attempts that are left
pub try_codes : Db → ℕ → List ℕ → ℕ → ℕ
try_codes db zero codes timed = timed
try_codes db (suc k) [] timed = timed
try_codes db (suc k) (code ∷ codes) timed =
    let rest = try_codes db k codes timed in if code_taken db code then rest else code

unfoldable pub generate_booking_code : Db → Fresh → ℕ
unfolding try_codes
generate_booking_code db fresh = try_codes db 5 fresh.booking_codes fresh.timed_code

-- The row of `rooms` with the lowest identifier that passes a test, as `ORDER BY r.id LIMIT 1` finds.
abbrev pub lower : Room → Option Room → Option Room
lower r none = some r
lower r (some s) = if ltb s.id r.id then some s else some r

unfoldable pub lowest_room : (Room → Bool) → List Room → Option Room
lowest_room p [] = none
lowest_room p (r ∷ rs) = let rest = lowest_room p rs in if p r then lower r rest else rest

abbrev pub seconds : ℕ → ℕ
seconds n = n * 1000

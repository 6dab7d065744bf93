-- ===== src/Locks/Counting.antt =====
-- What a hold does to the number of rooms that can be sold.
use tuljai_stays.Base.{
  ℕ, ◌-◌, ◌<◌, ◌≡◌, refl, true, ◌&&◌, ◌||◌, not, Option, none, List, arith, ◌==◌, ltb, leb,
  if◌then◌else◌, find, count, any, ==_refl,
}
use tuljai_stays.Base.Results.{
  ok, conflict, bad_request, not_found, or_throw, >>=-eq-ok, commit-eq-ok, throw_if_then-eq-ok,
}
use tuljai_stays.Store.{Db, Config, AuthenticatedUser}
use tuljai_stays.Store.Rows.{BookingLock, Stay}
use tuljai_stays.Pricing.Defs.{calculate_stay_price}
use tuljai_stays.Inventory.Defs.{
  Query, Availability, available, get_availability, find_lodge, is_verified, parse_date_only,
  parse_date_range, count_available_rooms, free_rooms,
}
use tuljai_stays.Locks.Defs.{
  CreateBookingLockDto, FreshLock, find_attempt, new_lock, write_lock, lock_query, answer_attempt,
  create_lock_tx, create_lock, rejected_key,
}

parse_date_range-ordered :
    (a b : Option ℕ) {s : Stay} → parse_date_range a b ≡ ok s → s.check_in < s.check_out
unfolding parse_date_range
parse_date_range-ordered a b {s} h =
    let (i, _, rest) = >>=-eq-ok (parse_date_only a) _ h in
    let (o, _, rest') = >>=-eq-ok (parse_date_only b) _ rest in
    let (order, done) = throw_if_then-eq-ok (leb o i) bad_request _ rest' in
    let made : record { check_in = i; check_out = o } ≡ s = cc in rw (← made) (ground arith)

get_availability-count :
    (db : Db) (q : Query) (lodge_id room_type_id : ℕ) {a : Availability}
    → get_availability db q lodge_id room_type_id ≡ ok a
    → a.available_room_count ≡ count_available_rooms db q lodge_id room_type_id
unfolding get_availability
get_availability-count db q lodge_id room_type_id {a} h =
    let (t, _, h1) =
      >>=-eq-ok
        (or_throw
          (find
            (λ t. not t.is_deleted && t.id == room_type_id && t.is_active && t.lodge_id == lodge_id)
            db.room_types)
          not_found)
        _ h in
    let (l, _, h2) = >>=-eq-ok (or_throw (find_lodge db t.lodge_id) not_found) _ h1 in
    let (_, h3) = throw_if_then-eq-ok (l.is_deleted || not l.is_active) not_found _ h2 in
    let (_, h4) = throw_if_then-eq-ok (not (is_verified l)) bad_request _ h3 in
    let (total, _, h5) =
      >>=-eq-ok (calculate_stay_price db room_type_id t.base_price q.stay t.festival_price) _ h4 in
    let this : record {
      available_room_count = count_available_rooms db q lodge_id room_type_id;
      total_amount = total;
    }
        ≡ a =
      cc in
    rw (← this) refl

module _ (config : Config) (now : ℕ) (fresh : FreshLock) (dto : CreateBookingLockDto) (user_id : ℕ)
    (key : Option (List ℕ)) (stay : Stay) where
  abbrev at_time : ℕ → Query
  at_time t = record { stay = stay; now = t; exclude_booking_id = none; exclude_lock_id = none }

  free_rooms-write_lock :
      (t : ℕ) (db : Db)
      → free_rooms
          (write_lock config now fresh dto user_id key stay db)
          (at_time t)
          dto.lodge_id
          dto.room_type_id
        ≡ free_rooms db (at_time t) dto.lodge_id dto.room_type_id
  unfolding free_rooms write_lock any
  free_rooms-write_lock t db = refl

  count_available_rooms-write_lock :
      (t : ℕ) (db : Db)
      → stay.check_in < stay.check_out
      → ltb t (new_lock config now fresh dto user_id key stay).expires_at ≡ true
      → count_available_rooms
          (write_lock config now fresh dto user_id key stay db)
          (at_time t)
          dto.lodge_id
          dto.room_type_id
        ≡ count_available_rooms db (at_time t) dto.lodge_id dto.room_type_id - 1
  unfolding count_available_rooms write_lock count any free_rooms
  count_available_rooms-write_lock t db order live =
      let nights : ltb stay.check_in stay.check_out ≡ true = ground arith in
      let own_lodge = ==_refl dto.lodge_id in
      let own_type = ==_refl dto.room_type_id in
      let same_rooms = free_rooms-write_lock t db in
      rw (nights, live, own_lodge, own_type, if◌then◌else◌) (ground arith)

  -- With no earlier attempt: a room is left, and the hold is made.
  answer_attempt-new :
      (db : Db) {l : BookingLock} {db' : Db}
      → answer_attempt config now fresh dto user_id key stay none db ≡ ok (l, db')
      → (ltb 0 (count_available_rooms db (at_time now) dto.lodge_id dto.room_type_id) ≡ true)
        × (new_lock config now fresh dto user_id key stay ≡ l)
        × (write_lock config now fresh dto user_id key stay db ≡ db')
  unfolding answer_attempt
  answer_attempt-new db h =
      let (a, free, rest) =
        >>=-eq-ok
          (get_availability db (lock_query config now fresh dto user_id key stay) dto.lodge_id
            dto.room_type_id)
          _ h in
      let (some_left, done) = throw_if_then-eq-ok (not (available a)) conflict _ rest in
      let counted =
        get_availability-count db (lock_query config now fresh dto user_id key stay) dto.lodge_id
          dto.room_type_id free in
      (rw (← counted) (ground arith), cc, cc)

  takes_one :
      (t : ℕ) (db : Db) (l : BookingLock) (db' : Db)
      → new_lock config now fresh dto user_id key stay ≡ l
      → write_lock config now fresh dto user_id key stay db ≡ db'
      → ltb 0 (count_available_rooms db (at_time now) dto.lodge_id dto.room_type_id) ≡ true
      → stay.check_in < stay.check_out
      → ltb t l.expires_at ≡ true
      → let left = λ (x : Db) (at : ℕ).
        count_available_rooms x
          (record { stay = l.stay; now = at; exclude_booking_id = none; exclude_lock_id = none })
          dto.lodge_id
          dto.room_type_id in
        (ltb 0 (left db now) ≡ true) × (left db' t ≡ left db t - 1)
  takes_one t db l db' this kept some_left order live =
      let live' = rw (← this) at live in
      rw (← this, ← kept) (some_left, count_available_rooms-write_lock t db order live')

-- When createLock makes a hold (the key was not used before, or there is none), a room of the type
-- was left for the stay; and at any time before the hold ends, one room fewer is left than would be
-- without it.
pub create_lock-takes_one :
    (config : Config) (now t : ℕ) (fresh : FreshLock) (dto : CreateBookingLockDto)
    (user : AuthenticatedUser) (key : Option (List ℕ)) (db : Db) {l : BookingLock} {db' : Db}
    → find_attempt key user.id db.booking_locks ≡ none
    → create_lock config now fresh dto user key db ≡ (ok l, db')
    → ltb t l.expires_at ≡ true
    → let left = λ (x : Db) (at : ℕ).
      count_available_rooms x
        (record { stay = l.stay; now = at; exclude_booking_id = none; exclude_lock_id = none })
        dto.lodge_id
        dto.room_type_id in
      (ltb 0 (left db now) ≡ true) × (left db' t ≡ left db t - 1)
unfolding create_lock create_lock_tx
create_lock-takes_one config now t fresh dto user key db {l} {db'} new h live =
    let (_, rest) = throw_if_then-eq-ok (rejected_key key) bad_request _ (commit-eq-ok db _ h) in
    let (stay, dates, made) =
      >>=-eq-ok (parse_date_range dto.check_in_date dto.check_out_date) _ rest in
    let (some_left, this, kept) =
      answer_attempt-new config now fresh dto user.id key stay db (rw new at made) in
    takes_one config now fresh dto user.id key stay t db l db' this kept some_left
      (parse_date_range-ordered _ _ dates) live

-- ===== src/Bookings/Invariant.antt =====
-- Each operation of the booking service keeps the bookings table exclusive, whatever other requests
-- did between its first reads and its transaction.
use tuljai_stays.Base.{
  ℕ, ◌≡◌, refl, Bool, true, false, none, some, List, [], ◌∷◌, arith, ◌==◌, find, All,
}
use tuljai_stays.Base.Results.{Result, ok, err, commit}
use tuljai_stays.Store.{Db, Config, AuthenticatedUser, Notice}
use tuljai_stays.Store.Rows.{Booking, CreateBookingDto, Room}
use tuljai_stays.Inventory.Defs.{Query, room_available, find_available_room}
use tuljai_stays.Inventory.Free.{first_room-passes}
use tuljai_stays.Bookings.Defs.{Fresh}
use tuljai_stays.Bookings.Create.{
  Checked, prior, proceed, create_booking, create_checked, check_create, create_booking_tx,
  announce,
}
use tuljai_stays.Bookings.Prepaid.{
  Payment, Payable, paid_before, payable, create_prepaid_booking, prepaid_checked, check_prepaid,
  announce_prepaid, create_prepaid_tx,
}
use tuljai_stays.Bookings.Owner.{
  accept_booking, accept_checked, check_answer, after_accept, accept, accept_tx,
}
use tuljai_stays.Bookings.Exclusive.{
  Exclusive, DistinctIds, OnePerHold, unsourced, update-OnePerHold, clash, has_id,
  update-DistinctIds, update-Exclusive,
}
use tuljai_stays.Bookings.Allocation.{lowest_room-passes, free-clear, free-clear_except}
use tuljai_stays.Bookings.Ways.{create_tx_cases, prepaid_tx_cases, accept_tx_cases}

-- The invariant of the bookings table: distinct identifiers, no two active bookings with one room and
-- overlapping stays, and at most one booking for each hold.
pub record Inv (bs : List Booking) : Type 0 where
  pub ids : DistinctIds bs
  pub exclusive : Exclusive bs
  pub sources : OnePerHold bs

-- The identifier is not in use.
abbrev pub IsFresh : ℕ → List Booking → Type 0
IsFresh id bs = All (λ c. (c.id == id) ≡ false) bs

roomless : (b : Booking) (bs : List Booking) → b.room_id ≡ none → All (λ c. clash b c ≡ false) bs
unfolding clash
roomless b [] h = tt
roomless b (c ∷ cs) h = (rw h (ground arith), roomless b cs h)

announce-bookings :
    (f : Booking → Notice) (o : Result (Booking × Bool) × Db)
    → (announce f o).1.bookings ≡ o.1.bookings
announce-bookings f (ok (b, true), db) = refl
announce-bookings f (ok (b, false), db) = refl
announce-bookings f (err e, db) = refl

-- createBooking, with a fresh identifier and on every outcome, keeps `Inv`: distinct identifiers, no
-- two active bookings with one room and overlapping stays, and at most one booking for each hold.
pub create_booking-Inv :
    (config : Config) (fresh : Fresh) (dto : CreateBookingDto) (user : AuthenticatedUser)
    (upload : Result (Unit {0})) (seen : Db) (now : ℕ) (current : Db) (later : ℕ)
    → IsFresh fresh.id current.bookings
    → Inv current.bookings
    → Inv (create_booking config fresh dto user upload seen now current later).1.bookings
unfolding create_booking
create_booking-Inv config fresh dto user upload seen now current later new v =
    checked (check_create seen now dto user upload)
  where
    checked :
        (c : Result Checked)
        → Inv (create_checked config fresh dto user upload current later c).1.bookings
    checked (err e) = v
    checked (ok (prior b)) = v
    checked (ok (proceed lock lodge)) =
        rw
          (announce-bookings _
            (commit current (create_booking_tx config later fresh dto user lock lodge current)))
          (create_tx_cases (λ db. Inv db.bookings) config later fresh dto user lock lodge current v
            λ price none_yet _. record {
              ids = (new, v.ids);
              exclusive = (roomless _ current.bookings refl, v.exclusive);
              sources = (unsourced lock.id current.bookings none_yet, v.sources);
            })

announce_prepaid-bookings :
    (o : Result (Booking × Bool) × Db) → (announce_prepaid o).1.bookings ≡ o.1.bookings
announce_prepaid-bookings (ok (b, true), db) = refl
announce_prepaid-bookings (ok (b, false), db) = refl
announce_prepaid-bookings (err e, db) = refl

-- createPrepaidBooking, with a fresh identifier, whichever rooms other transactions have locked and
-- on every outcome, keeps `Inv`: the room it gives has no other active booking for the nights of
-- the hold.
pub create_prepaid_booking-Inv :
    (config : Config) (fresh : Fresh) (skipped : ℕ → Bool) (dto : CreateBookingDto)
    (user : AuthenticatedUser) (upload : Result (Unit {0})) (payment : Payment) (seen : Db)
    (now : ℕ) (current : Db) (later : ℕ)
    → IsFresh fresh.id current.bookings
    → Inv current.bookings
    → Inv
        (create_prepaid_booking config fresh skipped dto user upload payment seen now current
          later).1.bookings
unfolding create_prepaid_booking
create_prepaid_booking-Inv config fresh skipped dto user upload payment seen now current later new
      v =
    checked (check_prepaid seen now dto user upload payment)
  where
    checked :
        (c : Result Payable)
        → Inv
            (prepaid_checked config fresh skipped dto user upload payment current later
              c).1.bookings
    checked (err e) = v
    checked (ok (paid_before b)) = v
    checked (ok (payable lock lodge amount)) =
        rw
          (announce_prepaid-bookings (
            commit current (
              create_prepaid_tx config later fresh dto user lock lodge amount payment skipped
                current)))
          (prepaid_tx_cases (λ db. Inv db.bookings) config later fresh dto user lock lodge amount
            payment skipped current v
            λ room none_yet _ found.
              let q : Query = record {
                stay = lock.stay;
                now = later;
                exclude_booking_id = none;
                exclude_lock_id = some lock.id;
              } in
              let passes = lowest_room-passes _ current.rooms room found in
              let free : room_available current q room ≡ true = ground (arith, passes) in
              record {
                ids = (new, v.ids);
                exclusive = (free-clear current q room _ free refl refl refl, v.exclusive);
                sources = (unsourced lock.id current.bookings none_yet, v.sources);
              })

after_accept-bookings :
    (actor id : ℕ) (o : Result Booking × Db) → (after_accept actor id o).1.bookings ≡ o.1.bookings
after_accept-bookings actor id (ok b, db) = refl
after_accept-bookings actor id (err e, db) = refl

find_available_room-free :
    (db : Db) (q : Query) (lodge_id room_type_id : ℕ) (r : Room)
    → find_available_room db q lodge_id room_type_id ≡ some r
    → room_available db q r ≡ true
unfolding find_available_room
find_available_room-free db q l t r h =
    let passes = first_room-passes _ db.rooms r h in ground (arith, passes)

-- acceptBooking keeps `Inv` on every outcome, if the stay of the booking is the same in its first
-- read and in its transaction: the room it gives has no other active booking for the nights of the
-- stay.
pub accept_booking-Inv :
    (id : ℕ) (user : AuthenticatedUser) (seen current : Db) (later : ℕ)
    → ((a b : Booking)
        → check_answer seen id user ≡ ok a
        → find (has_id id) current.bookings ≡ some b
        → b.stay ≡ a.stay)
    → Inv current.bookings
    → Inv (accept_booking id user seen current later).1.bookings
unfolding accept_booking
accept_booking-Inv id user seen current later same v = checked (check_answer seen id user) refl
  where
    checked :
        (c : Result Booking)
        → check_answer seen id user ≡ c
        → Inv (accept_checked id user current later c).1.bookings
    checked (err e) h = v
    checked (ok existing) h =
        rw
          (after_accept-bookings user.id id
            (commit current (accept_tx later id user existing current)))
          (accept_tx_cases (λ db. Inv db.bookings) later id user existing current v
            λ row room there _ found.
              let q : Query = record {
                stay = existing.stay;
                now = later;
                exclude_booking_id = some id;
                exclude_lock_id = none;
              } in
              let free =
                find_available_room-free current q existing.lodge_id existing.room_type_id room
                  found in
              record {
                ids =
                    update-DistinctIds id (accept later id user existing room) current.bookings
                      (λ b. refl) v.ids;
                exclusive =
                    update-Exclusive id (accept later id user existing room) row current.bookings
                      v.ids there
                      (free-clear_except current q room (accept later id user existing room row) id
                        free refl (same existing row h there) refl)
                      v.exclusive;
                sources =
                    update-OnePerHold id (accept later id user existing room) current.bookings
                      (λ b. refl) v.sources;
              })

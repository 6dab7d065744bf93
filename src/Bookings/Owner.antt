-- ===== src/Bookings/Owner.antt =====
-- What the lodge answers: `acceptBooking` and `rejectBooking` of
-- backend/src/modules/bookings/bookings.service.ts.
use tuljai_stays.Base.{ℕ, not, none, some, ◌∷◌, ◌==◌, find}
use tuljai_stays.Base.Results.{
  Result, ok, err, bad_request, conflict, other, ◌>>=◌, ◌>>◌, throw_if, or_throw, commit,
}
use tuljai_stays.Store.{Db, AuthenticatedUser, Notice}
use tuljai_stays.Store.Status.{BookingStatus, RoomStatus, is_pending, at_lodge}
use tuljai_stays.Store.Rows.{Booking, Room, Action}
use tuljai_stays.Access.{assert_can_manage_lodge}
use tuljai_stays.Inventory.Defs.{find_available_room}
use tuljai_stays.Bookings.Defs.{find_booking_or_throw, update_booking, set_room_status}
use tuljai_stays.Bookings.Create.{notify}

-- the reads and tests of both answers
unfoldable pub check_answer : Db → ℕ → AuthenticatedUser → Result Booking
unfolding find_booking_or_throw assert_can_manage_lodge
check_answer seen id user = do
  existing ← find_booking_or_throw seen id
  assert_can_manage_lodge seen user existing.lodge_id
  throw_if (not (is_pending existing.status)) bad_request
  throw_if (not (at_lodge existing.payment_status)) bad_request
  ok existing

module _ (now id : ℕ) (user : AuthenticatedUser) (existing : Booking) where
  abbrev pub accept : Room → Booking → Booking
  accept room b = record b {
    accepted_by_user_id = some user.id;
    room_id = some room.id;
    status = BookingStatus.accepted;
  }

  unfoldable pub write_accept : Room → Db → Db
  write_accept room db = record db {
    bookings = update_booking id (accept room) db.bookings;
    rooms = set_room_status room.id RoomStatus.confirmed db.rooms;
    room_status_history =
        record {
          actor_user_id = user.id;
          booking_id = id;
          from_status = room.status;
          reason = Action.booking_accepted;
          room_id = room.id;
          to_status = RoomStatus.confirmed;
        }
        ∷ db.room_status_history;
    booking_history =
        record {
          action = Action.booking_accepted;
          actor_user_id = some user.id;
          booking_id = id;
          from_status = some existing.status;
          to_status = BookingStatus.accepted;
          notes = none;
        }
        ∷ db.booking_history;
  }

  unfoldable pub accept_tx : Db → Result (Booking × Db)
  unfolding write_accept find_available_room
  accept_tx db = do
    row ← or_throw (find (λ b. b.id == id) db.bookings) other
    throw_if (not (is_pending row.status)) conflict
    room ←
        or_throw
          (find_available_room db
            (record {
              stay = existing.stay;
              now = now;
              exclude_booking_id = some id;
              exclude_lock_id = none;
            })
            existing.lodge_id existing.room_type_id)
          conflict
    ok (accept room row, write_accept room db)

abbrev pub audit : Action → ℕ → ℕ → Db → Db
audit action actor entity db = record db {
  audit_logs =
      record { action = action; actor_user_id = some actor; entity_id = entity } ∷ db.audit_logs;
}

abbrev pub after_accept : ℕ → ℕ → Result Booking × Db → Result Booking × Db
after_accept actor id (ok b, db) =
    (ok b, notify (Notice.booking_accepted id) (audit Action.booking_accepted actor id db))
after_accept actor id (err e, db) = (err e, db)

unfoldable pub accept_checked :
    ℕ → AuthenticatedUser → Db → ℕ → Result Booking → Result Booking × Db
unfolding accept_tx
accept_checked id user current later (err e) = (err e, current)
accept_checked id user current later (ok existing) =
    after_accept user.id id (commit current (accept_tx later id user existing current))

unfoldable pub accept_booking : ℕ → AuthenticatedUser → Db → Db → ℕ → Result Booking × Db
unfolding check_answer accept_checked
accept_booking id user seen current later =
    accept_checked id user current later (check_answer seen id user)

abbrev pub reject : ℕ → ℕ → Booking → Booking
reject actor reason b = record b {
  rejected_by_user_id = some actor;
  rejected_reason = some reason;
  status = BookingStatus.rejected;
}

-- The update names the booking only by its identifier: it does not test its status again.
unfoldable pub write_reject : ℕ → ℕ → ℕ → Booking → Db → Db
write_reject id actor reason existing db = notify (Notice.booking_rejected id) (
    audit Action.booking_rejected actor id (record db {
      bookings = update_booking id (reject actor reason) db.bookings;
      booking_history =
          record {
            action = Action.booking_rejected;
            actor_user_id = some actor;
            booking_id = id;
            from_status = some existing.status;
            to_status = BookingStatus.rejected;
            notes = some reason;
          }
          ∷ db.booking_history;
    }))

unfoldable pub reject_checked :
    ℕ → ℕ → AuthenticatedUser → Db → Result Booking → Result Booking × Db
unfolding write_reject
reject_checked id reason user current (err e) = (err e, current)
reject_checked id reason user current (ok existing) = commit current (do
  row ← or_throw (find (λ b. b.id == id) current.bookings) other
  ok (reject user.id reason row, write_reject id user.id reason existing current))

unfoldable pub reject_booking : ℕ → ℕ → AuthenticatedUser → Db → Db → Result Booking × Db
unfolding check_answer reject_checked
reject_booking id reason user seen current =
    reject_checked id reason user current (check_answer seen id user)

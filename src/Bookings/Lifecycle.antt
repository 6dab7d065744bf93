-- ===== src/Bookings/Lifecycle.antt =====
-- How a booking goes on: `cancelBooking`, `updateBookingStatus`, `markCheckedIn`, `markCheckedOut`,
-- `markCompleted` and `expirePendingBookings` of backend/src/modules/bookings/bookings.service.ts.
use tuljai_stays.Base.{
  ℕ, Bool, false, ◌&&◌, not, Option, none, some, List, [], ◌∷◌, ◌==◌, leb, if◌then◌else◌, find,
  filter, update_where, length,
}
use tuljai_stays.Base.Results.{
  Result, ok, err, bad_request, conflict, forbidden, other, ◌>>=◌, ◌>>◌, throw_if, or_throw, commit,
}
use tuljai_stays.Store.{Db, AuthenticatedUser, Notice}
use tuljai_stays.Store.Status.{
  BookingStatus, RoomStatus, is_pending, is_cancelled, is_cancellable, is_held, admin_allowed,
  is_accepted, is_checked_in, is_checked_out,
}
use tuljai_stays.Store.Rows.{Booking, Room, BookingHistory, Action}
use tuljai_stays.Access.{is_admin}
use tuljai_stays.Bookings.Defs.{find_booking_or_throw, update_booking}
use tuljai_stays.Bookings.Create.{notify}
use tuljai_stays.Bookings.Owner.{audit}

-- The default reason, `Cancelled by pilgrim`, is 0.
abbrev pub reason_or : Option ℕ → ℕ
reason_or none = 0
reason_or (some r) = r

abbrev pub cancel : Option ℕ → Booking → Booking
cancel reason b = record b {
  cancellation_reason = some (reason_or reason);
  status = BookingStatus.cancelled;
}

-- A room that was only held becomes available again.
abbrev pub release_room : Option ℕ → List Room → List Room
release_room none rooms = rooms
release_room (some id) rooms =
    update_where (λ r. r.id == id && is_held r.status)
      (λ r. record r { status = RoomStatus.available }) rooms

unfoldable pub check_cancel : Db → ℕ → AuthenticatedUser → Result Booking
unfolding find_booking_or_throw is_admin
check_cancel seen id user = do
  existing ← find_booking_or_throw seen id
  throw_if (not (existing.pilgrim_user_id == user.id) && not (is_admin user)) forbidden
  throw_if (not (is_cancelled existing.status) && not (is_cancellable existing.status)) bad_request
  ok existing

module _ (id : ℕ) (reason : Option ℕ) (actor : ℕ) (existing : Booking) where
  unfoldable pub write_cancel : Booking → Db → Db
  write_cancel fresh db = record db {
    bookings = update_booking id (cancel reason) db.bookings;
    rooms = release_room fresh.room_id db.rooms;
    booking_history =
        record {
          action = Action.booking_cancelled_by_pilgrim;
          actor_user_id = some actor;
          booking_id = id;
          from_status = some existing.status;
          to_status = BookingStatus.cancelled;
          notes = reason;
        }
        ∷ db.booking_history;
  }

  unfoldable pub cancel_tx : Db → Result (Booking × Db)
  unfolding write_cancel
  cancel_tx db = do
    fresh ← or_throw (find (λ b. b.id == id) db.bookings) other
    let cancelled = cancel reason fresh
    let written = write_cancel fresh db
    if is_cancelled fresh.status
        then ok (fresh, db)
        else (throw_if (not (is_cancellable fresh.status)) conflict >> ok (cancelled, written))

abbrev pub after_cancel : ℕ → ℕ → Result Booking × Db → Result Booking × Db
after_cancel actor id (ok b, db) = (
  ok b,
  notify (Notice.booking_cancelled id) (audit Action.booking_cancelled_by_pilgrim actor id db),
)
after_cancel actor id (err e, db) = (err e, db)

unfoldable pub cancel_checked :
    ℕ → Option ℕ → AuthenticatedUser → Db → Result Booking → Result Booking × Db
unfolding cancel_tx
cancel_checked id reason user current (err e) = (err e, current)
cancel_checked id reason user current (ok existing) =
    if is_cancelled existing.status
    then (ok existing, current)
    else after_cancel user.id id (commit current (cancel_tx id reason user.id existing current))

unfoldable pub cancel_booking : ℕ → Option ℕ → AuthenticatedUser → Db → Db → Result Booking × Db
unfolding check_cancel cancel_checked
cancel_booking id reason user seen current =
    cancel_checked id reason user current (check_cancel seen id user)

abbrev pub history_entry :
    Action → Option ℕ → ℕ → BookingStatus → BookingStatus → Option ℕ → BookingHistory
history_entry action actor id from to notes = record {
  action = action;
  actor_user_id = actor;
  booking_id = id;
  from_status = some from;
  to_status = to;
  notes = notes;
}

-- An update by identifier, and the entry of `bookingHistoryService.create`.
unfoldable pub write_status : ℕ → (Booking → Booking) → BookingHistory → Db → Result Booking × Db
write_status id f entry db = commit db (do
  row ← or_throw (find (λ b. b.id == id) db.bookings) other
  ok (
    f row,
    record db {
      bookings = update_booking id f db.bookings;
      booking_history = entry ∷ db.booking_history;
    },
  ))

abbrev pub set_status : BookingStatus → Booking → Booking
set_status to b = record b { status = to }

-- No test of the status that the booking has.
unfoldable pub status_checked :
    ℕ → BookingStatus → Option ℕ → AuthenticatedUser → Db → Result Booking → Result Booking × Db
unfolding write_status
status_checked id to notes user current (err e) = (err e, current)
status_checked id to notes user current (ok existing) =
    write_status id (set_status to)
      (history_entry Action.admin_status_updated (some user.id) id existing.status to notes) current

unfoldable pub update_booking_status :
    ℕ → BookingStatus → Option ℕ → AuthenticatedUser → Db → Db → Result Booking × Db
unfolding find_booking_or_throw status_checked
update_booking_status id to notes user seen current =
    if admin_allowed to
    then status_checked id to notes user current (find_booking_or_throw seen id)
    else (err bad_request, current)

-- `transitionBooking`; `allowed` tests for the status that it must have.
module _ (id : ℕ) (allowed : BookingStatus → Bool) (f : Booking → Booking) (to : BookingStatus)
    (action : Action) (actor : Option ℕ) where
  unfoldable pub transition_checked : Db → Result Booking → Result Booking × Db
  unfolding write_status
  transition_checked current (err e) = (err e, current)
  transition_checked current (ok existing) =
      if allowed existing.status
      then write_status id f (history_entry action actor id existing.status to none) current
      else (err bad_request, current)

  unfoldable pub transition_booking : Db → Db → Result Booking × Db
  unfolding find_booking_or_throw transition_checked
  transition_booking seen current = transition_checked current (find_booking_or_throw seen id)

abbrev pub check_in : ℕ → Booking → Booking
check_in now b = record b { status = BookingStatus.checked_in; checked_in_at = some now }

abbrev pub check_out : ℕ → Booking → Booking
check_out now b = record b { status = BookingStatus.checked_out; checked_out_at = some now }

unfoldable pub mark_checked_in : ℕ → Option ℕ → ℕ → Db → Db → Result Booking × Db
unfolding transition_booking
mark_checked_in id actor now =
    transition_booking id is_accepted (check_in now) BookingStatus.checked_in
      Action.booking_checked_in actor

unfoldable pub mark_checked_out : ℕ → Option ℕ → ℕ → Db → Db → Result Booking × Db
unfolding transition_booking
mark_checked_out id actor now =
    transition_booking id is_checked_in (check_out now) BookingStatus.checked_out
      Action.booking_checked_out actor

unfoldable pub mark_completed : ℕ → Option ℕ → Db → Db → Result Booking × Db
unfolding transition_booking
mark_completed id actor =
    transition_booking id is_checked_out (set_status BookingStatus.completed)
      BookingStatus.completed Action.booking_completed actor

-- `ownerResponseDeadline: { lte: now }`
abbrev pub past_deadline : ℕ → Option ℕ → Bool
past_deadline now none = false
past_deadline now (some d) = leb d now

abbrev pub overdue : ℕ → Booking → Bool
overdue now b =
    not b.is_deleted && past_deadline now b.owner_response_deadline && is_pending b.status

-- One round of the loop; the update does not test the status again.
unfoldable pub expire_one : Booking → Db → Db
expire_one b db = notify (Notice.booking_expired b.id) (record db {
  bookings = update_booking b.id (set_status BookingStatus.expired) db.bookings;
  booking_history =
      history_entry Action.booking_expired none b.id b.status BookingStatus.expired none
      ∷ db.booking_history;
})

unfoldable pub expire_each : List Booking → Db → Db
unfolding expire_one
expire_each [] db = db
expire_each (b ∷ bs) db = expire_each bs (expire_one b db)

unfoldable pub expire_pending_bookings : ℕ → Db → Db → ℕ × Db
unfolding expire_each
expire_pending_bookings now seen current =
    let expired = filter (overdue now) seen.bookings in
    (length expired, expire_each expired current)

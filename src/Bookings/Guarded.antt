-- ===== src/Bookings/Guarded.antt =====
-- Who may cancel or reject a booking, when, and what then changes: `cancelBooking` and
-- `rejectBooking` of backend/src/modules/bookings/bookings.service.ts.
use tuljai_stays.Base.{
  ℕ, ◌≡◌, ◌⊎◌, refl, arith, Bool, true, false, ◌&&◌, ◌||◌, not, Option, none, some, List, [], ◌∷◌,
  ◌==◌, if◌then◌else◌, find, filter, any, update_where, Bool-cases, inl, inr,
}
use tuljai_stays.Base.Finds.{find-update_where, find-passes}
use tuljai_stays.Base.Results.{
  Result, ok, err, bad_request, other, or_throw, commit, >>=-eq-ok, throw_if_then-eq-ok,
  or_throw-eq-ok, commit_outcome,
}
use tuljai_stays.Store.{Db, AuthenticatedUser}
use tuljai_stays.Store.Status.{is_pending, at_lodge, is_cancelled, is_cancellable, is_held}
use tuljai_stays.Store.Rows.{Booking, Room}
use tuljai_stays.Access.{is_admin, assert_can_manage_lodge}
use tuljai_stays.Bookings.Defs.{find_booking_or_throw, update_booking}
use tuljai_stays.Bookings.Owner.{reject, check_answer, write_reject, reject_checked, reject_booking}
use tuljai_stays.Bookings.Lifecycle.{cancel}
use tuljai_stays.Bookings.Exclusive.{has_id}

-- The bookings with another identifier.
abbrev pub others : ℕ → List Booking → List Booking
others id = filter (λ b. not (b.id == id))

-- Is the room that a booking had still only held?
abbrev pub still_held : Option ℕ → List Room → Bool
still_held none rooms = false
still_held (some id) rooms = any (λ r. r.id == id && is_held r.status) rooms

others-update_booking :
    (id : ℕ) (f : Booking → Booking) (bs : List Booking)
    → ((b : Booking) → (f b).id ≡ b.id)
    → others id (update_booking id f bs) ≡ others id bs
unfolding filter update_where
others-update_booking id f [] same = refl
others-update_booking id f (b ∷ bs) same =
    let rest = others-update_booking id f bs same in
    elim (Bool-cases (b.id == id)) [
      | inl e ↦ rw (e, if◌then◌else◌, same b, e, if◌then◌else◌) rest
      | inr e ↦ rw (e, if◌then◌else◌, e, if◌then◌else◌, rest) refl
    ]

find-update_booking :
    (id : ℕ) (f : Booking → Booking) (bs : List Booking) {row : Booking}
    → ((b : Booking) → (f b).id ≡ b.id)
    → find (has_id id) bs ≡ some row
    → find (has_id id) (update_booking id f bs) ≡ some (f row)
find-update_booking id f bs same there =
    find-update_where (has_id id) (has_id id) f (λ b. rw (same b) refl) bs there
      (find-passes (has_id id) bs there)

-- Nothing of the stays was written.
abbrev pub StaysKept : Db → Db → Type 0
StaysKept current db = (db.bookings ≡ current.bookings) × (db.rooms ≡ current.rooms)

module _ (id : ℕ) (reason : Option ℕ) (user : AuthenticatedUser) (seen current : Db) where
  -- The booking that was read is the caller's, or the caller is an admin.
  abbrev pub MayCancel : Booking → Type 0
  MayCancel existing =
      (find_booking_or_throw seen id ≡ ok existing)
      × ((existing.pilgrim_user_id == user.id || is_admin user) ≡ true)

  abbrev pub Cancelled : Booking → Booking → Db → Type 0
  Cancelled existing b db =
      (fresh : Booking) × (find (has_id id) current.bookings ≡ some fresh)
      × (is_cancellable existing.status ≡ true)
      × (is_cancellable fresh.status ≡ true)
      × (b ≡ cancel reason fresh)
      × (find (has_id id) db.bookings ≡ some b)
      × (others id db.bookings ≡ others id current.bookings)
      × (still_held fresh.room_id db.rooms ≡ false)

  abbrev pub CancelOutcome : Result Booking × Db → Type 0
  CancelOutcome (err e, db) = db ≡ current
  CancelOutcome (ok b, db) =
      (existing : Booking) × MayCancel existing
      × ((StaysKept current db × (is_cancelled b.status ≡ true)) ⊎ Cancelled existing b db)

module _ (id reason : ℕ) (user : AuthenticatedUser) (seen current : Db) where
  -- The booking that was read waits for the answer of a lodge that the caller may manage, and is not
  -- prepaid.
  abbrev pub MayReject : Booking → Type 0
  MayReject existing =
      (find_booking_or_throw seen id ≡ ok existing)
      × (assert_can_manage_lodge seen user existing.lodge_id ≡ ok tt)
      × (is_pending existing.status ≡ true)
      × (at_lodge existing.payment_status ≡ true)

  abbrev pub RejectOutcome : Result Booking × Db → Type 0
  RejectOutcome (err e, db) = db ≡ current
  RejectOutcome (ok b, db) =
      (existing : Booking) × (fresh : Booking) × MayReject existing
      × (find (has_id id) current.bookings ≡ some fresh)
      × (b ≡ reject user.id reason fresh)
      × (find (has_id id) db.bookings ≡ some b)
      × (others id db.bookings ≡ others id current.bookings)
      × (db.rooms ≡ current.rooms)

  check_answer-passes :
      (existing : Booking) → check_answer seen id user ≡ ok existing → MayReject existing
  unfolding check_answer
  check_answer-passes existing h =
      let (row, found, tests) = >>=-eq-ok (find_booking_or_throw seen id) _ h in
      let (done, access, tests') =
        >>=-eq-ok (assert_can_manage_lodge seen user row.lodge_id) _ tests in
      let (waits, tests'') = throw_if_then-eq-ok _ bad_request _ tests' in
      let (unpaid, made) = throw_if_then-eq-ok _ bad_request _ tests'' in
      let same : row ≡ existing = cc in
      (
        rw (← same) found,
        rw (← same) access,
        rw (← same) (ground (arith, waits)),
        rw (← same) (ground (arith, unpaid)),
      )

  rejected-RejectOutcome :
      (existing : Booking)
      → MayReject existing
      → RejectOutcome (reject_checked id reason user current (ok existing))
  unfolding reject_checked commit write_reject
  rejected-RejectOutcome existing may =
      commit_outcome RejectOutcome current (or_throw (find (has_id id) current.bookings) other) _
        (λ e. refl)
        λ fresh there.
          let row = or_throw-eq-ok (find (has_id id) current.bookings) other there in
          (
            existing,
            fresh,
            may,
            row,
            refl,
            find-update_booking id (reject user.id reason) current.bookings (λ b. refl) row,
            others-update_booking id (reject user.id reason) current.bookings (λ b. refl),
            refl,
          )

  -- What rejectBooking returns and writes. A refusal changes nothing. Otherwise the booking was found
  -- by the first read, waiting for an answer and to be paid at the lodge, the caller may manage its
  -- lodge, and now it is rejected with the reason; no other booking and no room has changed.
  pub reject_booking-RejectOutcome : RejectOutcome (reject_booking id reason user seen current)
  unfolding reject_booking reject_checked
  reject_booking-RejectOutcome = checked (check_answer seen id user) refl
    where
      checked :
          (c : Result Booking)
          → check_answer seen id user ≡ c
          → RejectOutcome (reject_checked id reason user current c)
      checked (err e) read = refl
      checked (ok existing) read =
          rejected-RejectOutcome existing (check_answer-passes existing read)

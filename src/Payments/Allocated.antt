-- ===== src/Payments/Allocated.antt =====
-- A payment that confirms a booking gives it a room that no other booking has for its nights.
use tuljai_stays.Base.{
  ℕ, ◌≡◌, refl, Bool, true, false, ◌&&◌, not, Option, none, some, arith, ◌==◌, find, is_some_eq,
  any-All,
}
use tuljai_stays.Base.Results.{
  Result, ok, err, conflict, other, commit, commit_bind, or_throw-eq-ok,
}
use tuljai_stays.Store.{Db}
use tuljai_stays.Store.Status.{is_active}
use tuljai_stays.Store.Rows.{Booking, Room, Stay}
use tuljai_stays.Inventory.Defs.{overlaps}
use tuljai_stays.Bookings.Defs.{lowest_room}
use tuljai_stays.Bookings.Exclusive.{
  clash, has_id, All-map, update-Exclusive, update-DistinctIds, update-OnePerHold,
}
use tuljai_stays.Bookings.Allocation.{lowest_room-passes}
use tuljai_stays.Bookings.Invariant.{Inv}
use tuljai_stays.Payments.Gateway.{Gateway, PaymentVerificationInput}
use tuljai_stays.Payments.Verify.{
  Verified, check_payment, assignable, confirm_booking, write_verified, assign_room, verify_tx,
  fail_verification, confirm_intents, after_verify, verify_checked, verify_booking_payment,
}

-- A booking put into a room that no other active booking has clashes with no other row.
unassigned-clear :
    (r : Room) (b c : Booking) (id : ℕ) (s : Stay)
    → b.room_id ≡ some r.id
    → b.stay ≡ s
    → (is_some_eq c.room_id r.id
        && not c.is_deleted
        && not (c.id == id)
        && is_active c.status
        && overlaps c.stay s)
      ≡ false
    → (c.id == id) ≡ false
    → clash b c ≡ false
unfolding clash
unassigned-clear r b c id s hr hs h apart = rw (hr, hs) (ground arith)

module _ (pilgrim_user_id : ℕ) (input : PaymentVerificationInput) (skipped : ℕ → Bool) (later : ℕ)
    (v : Verified) where
  assigned-Inv :
      (db : Db) (row : Booking) (room : Room)
      → find (has_id v.booking.id) db.bookings ≡ some row
      → row.stay ≡ v.booking.stay
      → lowest_room (assignable pilgrim_user_id input skipped later v db) db.rooms ≡ some room
      → Inv db.bookings
      → Inv (write_verified pilgrim_user_id input skipped later v room db).bookings
  unfolding write_verified
  assigned-Inv db row room there same found inv =
      let passes = lowest_room-passes _ db.rooms room found in
      let free =
        any-All
          (λ b.
            is_some_eq b.room_id room.id
            && not b.is_deleted
            && not (b.id == v.booking.id)
            && is_active b.status
            && overlaps b.stay v.booking.stay)
          db.bookings (ground (arith, passes)) in
      let put = confirm_booking pilgrim_user_id input skipped later v room in
      record {
        ids = update-DistinctIds v.booking.id put db.bookings (λ b. refl) inv.ids;
        exclusive =
            update-Exclusive v.booking.id put row db.bookings inv.ids there
              (All-map db.bookings
                (λ c g apart.
                  unassigned-clear room (put row) c v.booking.id v.booking.stay refl same g apart)
                free)
              inv.exclusive;
        sources = update-OnePerHold v.booking.id put db.bookings (λ b. refl) inv.sources;
      }

  assign_room-Inv :
      (db : Db) (row : Booking) (o : Option ℕ)
      → find (has_id v.booking.id) db.bookings ≡ some row
      → row.stay ≡ v.booking.stay
      → Inv db.bookings
      → Inv (commit db (assign_room pilgrim_user_id input skipped later v row db o)).1.bookings
  unfolding assign_room commit
  assign_room-Inv db row (some room_id) there same inv = inv
  assign_room-Inv db row none there same inv =
      commit_bind (λ s. Inv s.bookings) db _ _ inv
        (λ _ _.
          commit_bind (λ s. Inv s.bookings) db _ _ inv
            (λ room found.
              commit_bind (λ s. Inv s.bookings) db _ _ inv
                (λ _ _. assigned-Inv db row room there same (or_throw-eq-ok _ conflict found) inv)))

after_verify-bookings :
    (input : PaymentVerificationInput) (later : ℕ) (v : Verified) (out : Result (ℕ × Bool) × Db)
    → (after_verify input later v out).1.bookings ≡ out.1.bookings
unfolding after_verify fail_verification confirm_intents
after_verify-bookings input later v (err e, db) = refl
after_verify-bookings input later v (ok (room, true), db) = refl
after_verify-bookings input later v (ok (room, false), db) = refl

-- verifyBookingPayment keeps `Inv` on every outcome, whichever rooms other transactions have
-- locked, if the stay of the booking is the same in its first read and in its transaction: the room
-- it gives has no other active booking for the nights of the stay.
pub verify_booking_payment-Inv :
    (gateway : Gateway) (skipped : ℕ → Bool) (booking_id pilgrim_user_id : ℕ)
    (input : PaymentVerificationInput) (reconciling : Bool) (seen current : Db) (later : ℕ)
    → ((v : Verified) (b : Booking)
        → check_payment gateway booking_id pilgrim_user_id input reconciling seen ≡ ok v
        → find (has_id v.booking.id) current.bookings ≡ some b
        → b.stay ≡ v.booking.stay)
    → Inv current.bookings
    → Inv
        (verify_booking_payment gateway skipped booking_id pilgrim_user_id input reconciling seen
          current later).1.bookings
unfolding verify_booking_payment verify_checked verify_tx commit
verify_booking_payment-Inv gateway skipped booking_id pilgrim_user_id input reconciling seen current
      later same inv =
    checked (check_payment gateway booking_id pilgrim_user_id input reconciling seen) refl
  where
    checked :
        (c : Result Verified)
        → check_payment gateway booking_id pilgrim_user_id input reconciling seen ≡ c
        → Inv
            (verify_checked gateway skipped booking_id pilgrim_user_id input reconciling current
              later c).1.bookings
    checked (err e) h = inv
    checked (ok v) h =
        rw
          (after_verify-bookings input later v
            (commit current (verify_tx pilgrim_user_id input skipped later v current)))
          (commit_bind (λ s. Inv s.bookings) current _ _ inv
            (λ row there.
              let there' = or_throw-eq-ok _ other there in
              assign_room-Inv pilgrim_user_id input skipped later v current row _ there'
                (same v row h there') inv))

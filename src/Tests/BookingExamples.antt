-- ===== src/Tests/BookingExamples.antt =====
-- The theorems on bookings, applied.
use tuljai_stays.Base.{◌≡◌, ◌≢◌, refl, false, none, some, [], ◌∷◌, arith, find, any, update_where}
use tuljai_stays.Base.Results.{Result, ok, ◌>>=◌, commit}
use tuljai_stays.Store.{Db}
use tuljai_stays.Store.Status.{BookingStatus}
use tuljai_stays.Store.Rows.{Booking}
use tuljai_stays.Inventory.Overlap.{NightOf}
use tuljai_stays.Bookings.Defs.{find_booking_or_throw}
use tuljai_stays.Bookings.Prepaid.{create_prepaid_booking}
use tuljai_stays.Bookings.Create.{create_booking}
use tuljai_stays.Bookings.Owner.{
  accept_booking, check_answer, reject, reject_checked, reject_booking,
}
use tuljai_stays.Bookings.Lifecycle.{
  cancel, check_cancel, cancel_tx, cancel_checked, cancel_booking, update_booking_status,
}
use tuljai_stays.Bookings.Guarded.{RejectOutcome, reject_booking-RejectOutcome}
use tuljai_stays.Bookings.Exclusive.{Exclusive, has_id, clash}
use tuljai_stays.Bookings.Invariant.{
  Inv, create_booking-Inv, create_prepaid_booking-Inv, accept_booking-Inv,
}
use tuljai_stays.Bookings.System.{Step, here, next, accepts, Step-Inv}
use tuljai_stays.Bookings.Nights.{
  no_double_booking, no_second_booking_of_hold, update_booking_status_may_double_book,
}
use tuljai_stays.Tests.Data.{
  the_db, the_config, the_owner, the_pilgrim, the_request, the_payment, fresh_booking,
  first_booking, second_booking,
}

pub the_db-Inv : Inv the_db.bookings
unfolding clash
the_db-Inv = record {
  ids = ((refl, tt), (tt, tt));
  exclusive = ((refl, tt), (tt, tt));
  sources = ((refl, tt), (tt, tt));
}

create_prepaid_booking-Inv_example :
    Inv
      (create_prepaid_booking the_config fresh_booking
        (λ r. false)
        the_request
        the_pilgrim
        (ok tt)
        the_payment
        the_db
        500
        the_db
        600).1.bookings
create_prepaid_booking-Inv_example =
    create_prepaid_booking-Inv the_config fresh_booking (λ r. false) the_request the_pilgrim (ok tt)
      the_payment the_db 500 the_db 600 (refl, (refl, tt)) the_db-Inv

create_booking-Inv_example :
    Inv
      (create_booking the_config fresh_booking the_request the_pilgrim
        (ok tt)
        the_db
        500
        the_db
        600).1.bookings
create_booking-Inv_example =
    create_booking-Inv the_config fresh_booking the_request the_pilgrim (ok tt) the_db 500 the_db
      600 (refl, (refl, tt)) the_db-Inv

answered : check_answer the_db 2 the_owner ≡ ok second_booking
unfolding check_answer ◌>>=◌ find any
answered = refl

found : find (has_id 2) the_db.bookings ≡ some second_booking
unfolding find
found = refl

-- The second booking, as the owner's request reads it and as the transaction finds it.
same_stay :
    (a b : Booking)
    → check_answer the_db 2 the_owner ≡ ok a
    → find (has_id 2) the_db.bookings ≡ some b
    → b.stay ≡ a.stay
same_stay a b ea eb =
    let first : check_answer the_db 2 the_owner ≡ ok second_booking = answered in
    let again : find (has_id 2) the_db.bookings ≡ some second_booking = found in
    let pa : second_booking ≡ a = cc in let pb : second_booking ≡ b = cc in rw (← pa, ← pb) refl

accept_booking-Inv_example : Inv (accept_booking 2 the_owner the_db the_db 600).1.bookings
accept_booking-Inv_example = accept_booking-Inv 2 the_owner the_db the_db 600 same_stay the_db-Inv

abbrev accepted_db : Db
accepted_db = (accept_booking 2 the_owner the_db the_db 600).1

accepting : Step the_db accepted_db
accepting = accepts 2 the_owner the_db 600 same_stay

Step-Inv_example : Inv accepted_db.bookings
Step-Inv_example = Step-Inv accepting the_db-Inv

abbrev after_cancellation : Result Booking × Db
after_cancellation = cancel_booking 1 (some 8) the_pilgrim the_db the_db

-- The pilgrim's cancellation goes through.
cancels_first : after_cancellation.0 ≡ ok (cancel (some 8) first_booking)
unfolding cancel_booking check_cancel cancel_checked cancel_tx find any ◌>>=◌ commit
cancels_first = refl

abbrev after_rejection : Result Booking × Db
after_rejection = reject_booking 2 8 the_owner the_db the_db

-- The owner's rejection goes through.
rejects_second : after_rejection.0 ≡ ok (reject 9 8 second_booking)
unfolding reject_booking check_answer reject_checked find any ◌>>=◌ commit
rejects_second = refl

reject_booking-RejectOutcome_example : RejectOutcome 2 8 the_owner the_db the_db after_rejection
reject_booking-RejectOutcome_example = reject_booking-RejectOutcome 2 8 the_owner the_db the_db

abbrev second_accepted : Booking
second_accepted = record second_booking {
  accepted_by_user_id = some 9;
  room_id = some 7;
  status = BookingStatus.accepted;
}

both : accepted_db.bookings ≡ second_accepted ∷ first_booking ∷ []
unfolding accept_booking ◌>>=◌ commit find any update_where
both = refl

finds_first : find (has_id 1) accepted_db.bookings ≡ some first_booking
unfolding find
finds_first = rw both refl

finds_second : find (has_id 2) accepted_db.bookings ≡ some second_accepted
unfolding find
finds_second = rw both refl

-- Both stays are in room 7: the first to day 12, the second from day 12.
no_double_booking_example : ¬ NightOf second_accepted.stay 11
no_double_booking_example =
    no_double_booking the_db accepted_db 1 2 7 11 first_booking second_accepted the_db-Inv
      (next here accepting) refl finds_first finds_second refl refl refl refl
      (ground arith, ground arith)

no_second_booking_of_hold_example : second_accepted.source_lock_id ≢ some 31
no_second_booking_of_hold_example =
    no_second_booking_of_hold the_db accepted_db 1 2 31 first_booking second_accepted the_db-Inv
      (next here accepting) refl finds_first finds_second refl

-- The first booking cancelled, and its room sold again.
abbrev cancelled_booking : Booking
cancelled_booking = record first_booking { status = BookingStatus.cancelled }

abbrev resold_booking : Booking
resold_booking = record second_accepted { stay = first_booking.stay }

abbrev resold_db : Db
resold_db = record the_db { bookings = resold_booking ∷ cancelled_booking ∷ [] }

update_booking_status_may_double_book_example :
    ¬ Exclusive
      (update_booking_status 1 BookingStatus.accepted none the_owner resold_db resold_db).1.bookings
unfolding find_booking_or_throw find
update_booking_status_may_double_book_example =
    update_booking_status_may_double_book resold_db the_owner none 1 2 7 10 cancelled_booking
      resold_booking refl refl refl refl refl refl refl refl (ground arith, ground arith)
      (ground arith, ground arith)

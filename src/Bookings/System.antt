-- ===== src/Bookings/System.antt =====
-- The booking service as a whole: any number of requests, in any order, each transaction meeting
-- whatever the others left.
use tuljai_stays.Base.{
  ℕ, ◌≡◌, refl, Bool, Option, some, List, [], ◌∷◌, find, filter, Option-cases, inl, inr,
}
use tuljai_stays.Base.Results.{Result, ok}
use tuljai_stays.Store.{Db, Config, AuthenticatedUser}
use tuljai_stays.Store.Status.{BookingStatus, is_accepted, is_checked_in, is_checked_out}
use tuljai_stays.Store.Rows.{Booking, CreateBookingDto, Action}
use tuljai_stays.Store.Rows.{QrToken}
use tuljai_stays.Qr.Issue.{
  FreshToken, SignedQrPayloadBody, check_generate, generate_qr, check_metadata, get_qr_metadata,
}
use tuljai_stays.Qr.Scan.{ScanQrDto, resolve_qr_token_from_scan_dto, scan_qr}
use tuljai_stays.Qr.Rooms.{StillHolds, generate_qr-Inv, get_qr_metadata-Inv, scan_qr-Inv}
use tuljai_stays.Payments.Gateway.{Gateway, PaymentVerificationInput}
use tuljai_stays.Payments.Verify.{Verified, check_payment, verify_booking_payment}
use tuljai_stays.Payments.Allocated.{verify_booking_payment-Inv}
use tuljai_stays.Bookings.Defs.{Fresh}
use tuljai_stays.Bookings.Create.{create_booking}
use tuljai_stays.Bookings.Prepaid.{Payment, create_prepaid_booking}
use tuljai_stays.Bookings.Owner.{accept_booking, check_answer, reject_booking}
use tuljai_stays.Bookings.Lifecycle.{
  cancel_booking, mark_checked_in, mark_checked_out, mark_completed, expire_pending_bookings,
  expire_each, expire_one, overdue, check_in, check_out, set_status,
}
use tuljai_stays.Bookings.Exclusive.{has_id}
use tuljai_stays.Bookings.Invariant.{
  Inv, IsFresh, create_booking-Inv, create_prepaid_booking-Inv, accept_booking-Inv,
}
use tuljai_stays.Bookings.Transitions.{
  reject_booking-Inv, cancel_booking-Inv, transition_booking-Inv, update-Inv, update-Inv_absent,
}

-- A completed request. `seen` is any earlier database: what a request read before its transaction
-- may be out of date. Identifiers are fresh; the stay of a booking does not change between the
-- reads of `acceptBooking` or `verifyBookingPayment` and its transaction; and the row that a
-- check-in or a QR code changes is still active when it is written, since its status is not tested
-- again in the update.
pub data Step (db : Db) : Db → Type 0 where
  creates :
      (config : Config) (fresh : Fresh) (dto : CreateBookingDto) (user : AuthenticatedUser)
      (upload : Result (Unit {0})) (seen : Db) (now later : ℕ)
      → IsFresh fresh.id db.bookings
      → Step db (create_booking config fresh dto user upload seen now db later).1
  prepays :
      (config : Config) (fresh : Fresh) (skipped : ℕ → Bool) (dto : CreateBookingDto)
      (user : AuthenticatedUser) (upload : Result (Unit {0})) (payment : Payment) (seen : Db)
      (now later : ℕ)
      → IsFresh fresh.id db.bookings
      → Step db
          (create_prepaid_booking config fresh skipped dto user upload payment seen now db later).1
  accepts :
      (id : ℕ) (user : AuthenticatedUser) (seen : Db) (later : ℕ)
      → ((a b : Booking)
          → check_answer seen id user ≡ ok a
          → find (has_id id) db.bookings ≡ some b
          → b.stay ≡ a.stay)
      → Step db (accept_booking id user seen db later).1
  rejects :
      (id reason : ℕ) (user : AuthenticatedUser) (seen : Db)
      → Step db (reject_booking id reason user seen db).1
  cancels :
      (id : ℕ) (reason : Option ℕ) (user : AuthenticatedUser) (seen : Db)
      → Step db (cancel_booking id reason user seen db).1
  checks_in :
      (id : ℕ) (actor : Option ℕ) (now : ℕ) (seen : Db)
      → StillHolds id db
      → Step db (mark_checked_in id actor now seen db).1
  checks_out :
      (id : ℕ) (actor : Option ℕ) (now : ℕ) (seen : Db)
      → Step db (mark_checked_out id actor now seen db).1
  completes : (id : ℕ) (actor : Option ℕ) (seen : Db) → Step db (mark_completed id actor seen db).1
  generates_qr :
      (hash : ℕ → ℕ) (config : Config) (now : ℕ) (fresh : FreshToken) (id : ℕ) (ttl : Option ℕ)
      (user : AuthenticatedUser) (seen : Db)
      → ((b : Booking) → check_generate seen id user now ≡ ok b → StillHolds b.id db)
      → Step db (generate_qr hash config now fresh id ttl user seen db).1
  shows_qr :
      (hash : ℕ → ℕ) (config : Config) (now : ℕ) (fresh : FreshToken)
      (sign : SignedQrPayloadBody → ℕ) (id : ℕ) (user : AuthenticatedUser) (seen : Db)
      → ((b : Booking)
          → check_metadata hash config now fresh seen id user ≡ ok b
          → StillHolds b.id db)
      → Step db (get_qr_metadata hash config now fresh sign id user seen db).1
  scans_qr :
      (hash : ℕ → ℕ) (open_payload : ℕ → Option SignedQrPayloadBody) (now : ℕ) (dto : ScanQrDto)
      (user : AuthenticatedUser) (seen : Db)
      → ((t : QrToken)
          → resolve_qr_token_from_scan_dto hash open_payload now dto seen ≡ some t
          → StillHolds t.booking_id db)
      → Step db (scan_qr hash open_payload now dto user seen db).1
  pays :
      (gateway : Gateway) (skipped : ℕ → Bool) (booking_id pilgrim_user_id : ℕ)
      (input : PaymentVerificationInput) (reconciling : Bool) (seen : Db) (later : ℕ)
      → ((v : Verified) (b : Booking)
          → check_payment gateway booking_id pilgrim_user_id input reconciling seen ≡ ok v
          → find (has_id v.booking.id) db.bookings ≡ some b
          → b.stay ≡ v.booking.stay)
      → Step db
          (verify_booking_payment gateway skipped booking_id pilgrim_user_id input reconciling seen
            db later).1
  expires : (now : ℕ) (seen : Db) → Step db (expire_pending_bookings now seen db).1

pub data Reach (db : Db) : Db → Type 0 where
  here : Reach db db
  next : {t u : Db} → Reach db t → Step t u → Reach db u

expire_each-Inv : (bs : List Booking) (db : Db) → Inv db.bookings → Inv (expire_each bs db).bookings
unfolding expire_each
expire_each-Inv [] db v = v
expire_each-Inv (b ∷ bs) db v =
    expire_each-Inv bs (expire_one b db) (elim (Option-cases (find (has_id b.id) db.bookings)) [
      | inl e ↦ update-Inv_absent b.id (set_status BookingStatus.expired) db.bookings e v
      | inr (r, e) ↦
          update-Inv b.id (set_status BookingStatus.expired) r db.bookings (λ c. refl) (λ c. refl)
            (λ h. cc) refl refl e v
    ])

-- Every request keeps the bookings table exclusive, with distinct identifiers and one booking at most
-- for each hold, under the conditions that `Step` states: fresh identifiers, an unchanged stay in an
-- acceptance or a payment, and a row that is still active in a check-in and in issuing and scanning a
-- QR code.
pub Step-Inv : {t u : Db} → Step t u → Inv t.bookings → Inv u.bookings
unfolding mark_checked_in mark_checked_out mark_completed expire_pending_bookings
Step-Inv {t} (creates config fresh dto user upload seen now later new) v =
    create_booking-Inv config fresh dto user upload seen now t later new v
Step-Inv {t} (prepays config fresh skipped dto user upload payment seen now later new) v =
    create_prepaid_booking-Inv config fresh skipped dto user upload payment seen now t later new v
Step-Inv {t} (accepts id user seen later same) v = accept_booking-Inv id user seen t later same v
Step-Inv {t} (rejects id reason user seen) v = reject_booking-Inv id reason user seen t v
Step-Inv {t} (cancels id reason user seen) v = cancel_booking-Inv id reason user seen t v
Step-Inv {t} (checks_in id actor now seen still) v =
    transition_booking-Inv id (check_in now) BookingStatus.checked_in Action.booking_checked_in
      actor is_accepted t (λ b. refl) (λ b. refl) (λ b. refl) (λ b. refl) (λ r e _. still r e) v
      seen
Step-Inv {t} (checks_out id actor now seen) v =
    transition_booking-Inv id (check_out now) BookingStatus.checked_out Action.booking_checked_out
      actor is_checked_in t (λ b. refl) (λ b. refl) (λ b. refl) (λ b. refl) (λ r e h. cc) v seen
Step-Inv {t} (completes id actor seen) v =
    transition_booking-Inv id (set_status BookingStatus.completed) BookingStatus.completed
      Action.booking_completed actor is_checked_out t (λ b. refl) (λ b. refl) (λ b. refl)
      (λ b. refl) (λ r e h. cc) v seen
Step-Inv {t} (generates_qr hash config now fresh id ttl user seen still) v =
    generate_qr-Inv hash config now fresh id ttl user seen t still v
Step-Inv {t} (shows_qr hash config now fresh sign id user seen still) v =
    get_qr_metadata-Inv hash config now fresh sign id user seen t still v
Step-Inv {t} (scans_qr hash open_payload now dto user seen still) v =
    scan_qr-Inv hash open_payload now dto user seen t still v
Step-Inv {t} (pays gateway skipped booking_id pilgrim_user_id input reconciling seen later same) v =
    verify_booking_payment-Inv gateway skipped booking_id pilgrim_user_id input reconciling seen t
      later same v
Step-Inv {t} (expires now seen) v = expire_each-Inv (filter (overdue now) seen.bookings) t v

-- From a database whose bookings are exclusive, no sequence of requests leads to one where two
-- active bookings hold one room for overlapping stays.
pub Reach-Inv : {s t : Db} → Reach s t → Inv s.bookings → Inv t.bookings
Reach-Inv here v = v
Reach-Inv (next r st) v = Step-Inv st (Reach-Inv r v)

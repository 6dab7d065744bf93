-- ===== src/Qr/Scan.antt =====
-- `scanQr`: the checks in the order of the code, each with its log entry, then the check-in.
-- Opening a display payload (its format and signature, `open_qr_display_payload` of Payload) and the
-- hash of a raw token are parameters.
use tuljai_stays.Base.{
  ℕ, Bool, true, false, ◌&&◌, ◌||◌, not, Option, none, some, List, ◌∷◌, ◌==◌, leb, if◌then◌else◌,
  find, update_where, is_none,
}
use tuljai_stays.Base.Results.{
  Result, ok, err, Exception, bad_request, conflict, forbidden, other, ◌>>=◌, or_throw, commit,
}
use tuljai_stays.Store.{Db, AuthenticatedUser, Notice}
use tuljai_stays.Store.Status.{
  BookingStatus, RoomStatus, TokenStatus, token_active, token_used, awaits_arrival,
}
use tuljai_stays.Store.Rows.{Booking, Room, QrToken, ScanResult, Action}
use tuljai_stays.Access.{assert_can_manage_lodge}
use tuljai_stays.Bookings.Defs.{update_booking, set_room_status}
use tuljai_stays.Bookings.Create.{notify}
use tuljai_stays.Bookings.Lifecycle.{check_in, history_entry}
use tuljai_stays.Qr.Issue.{SignedQrPayloadBody, set_token}
use tuljai_stays.Qr.Payload.{unexpired}

pub record ScanQrDto : Type 0 where
  pub booking_id : Option ℕ
  pub qr_payload : Option ℕ
  pub token : Option ℕ

-- `dto.bookingId && dto.bookingId !== id`
abbrev pub names_other : Option ℕ → ℕ → Bool
names_other none id = false
names_other (some b) id = not (b == id)

abbrev pub fits_payload : SignedQrPayloadBody → QrToken → Bool
fits_payload p t =
    t.booking_id == p.booking_id && t.id == p.qr_token_id && t.token_version == p.token_version

-- The test that the token must pass, if the request names one.
abbrev pub resolve_payload : Option ℕ → Option SignedQrPayloadBody → Option (QrToken → Bool)
resolve_payload booking_id none = none
resolve_payload booking_id (some p) =
    if names_other booking_id p.booking_id then none else some (fits_payload p)

abbrev pub resolve_raw : (ℕ → ℕ) → Option ℕ → Option (QrToken → Bool)
resolve_raw hash none = none
resolve_raw hash (some raw) = some (λ t. t.token_hash == hash raw)

abbrev pub find_if : Option (QrToken → Bool) → List QrToken → Option QrToken
find_if none tokens = none
find_if (some p) tokens = find p tokens

abbrev pub resolve_test :
    (ℕ → ℕ) → (ℕ → Option SignedQrPayloadBody) → ℕ → ScanQrDto → Option ℕ → Option (QrToken → Bool)
resolve_test hash open_payload now dto none = resolve_raw hash dto.token
resolve_test hash open_payload now dto (some payload) =
    resolve_payload dto.booking_id (unexpired now (open_payload payload))

unfoldable pub resolve_qr_token_from_scan_dto :
    (ℕ → ℕ) → (ℕ → Option SignedQrPayloadBody) → ℕ → ScanQrDto → Db → Option QrToken
resolve_qr_token_from_scan_dto hash open_payload now dto db =
    find_if (resolve_test hash open_payload now dto dto.qr_payload) db.qr_tokens

-- What the checks find: a refusal with its log result and exception, or the room to occupy.
pub data ScanCheck : Type 0 where
  refused : ScanResult → Exception → ScanCheck
  fit : Room → ScanCheck

abbrev pub is_err : Result (Unit {0}) → Bool
is_err (ok _) = false
is_err (err _) = true

-- `booking.room`
abbrev pub room_of : Db → Option ℕ → Option Room
room_of db none = none
room_of db (some id) = find (λ r. r.id == id) db.rooms

abbrev pub check_room : Option Room → ScanCheck
check_room none = refused ScanResult.invalid_status bad_request
check_room (some r) = fit r

module _ (seen : Db) (user : AuthenticatedUser) (now : ℕ) (dto : ScanQrDto) where
  abbrev check_arrival : Booking → ScanCheck
  check_arrival b =
      if is_err (assert_can_manage_lodge seen user b.lodge_id)
      then refused ScanResult.unauthorized forbidden
      else (if not (awaits_arrival b.status)
          then refused ScanResult.invalid_status bad_request
          else check_room (room_of seen b.room_id))

  abbrev check_valid : QrToken → Booking → ScanCheck
  check_valid t b =
      if not (token_active t.status)
      then refused ScanResult.invalid bad_request
      else (if leb t.expires_at now
          then refused ScanResult.expired bad_request
          else check_arrival b)

  unfoldable pub check_scan : QrToken → Booking → ScanCheck
  unfolding assert_can_manage_lodge
  check_scan t b =
      if names_other dto.booking_id t.booking_id
      then refused ScanResult.booking_not_found bad_request
      else (if token_used t.status || not (is_none t.used_at)
          then refused ScanResult.used conflict
          else check_valid t b)

-- `logScanFailure`, and the notification after it
abbrev pub scan_failed : ScanResult → ℕ → Option ℕ → Option ℕ → Option ℕ → Db → Db
scan_failed result actor booking_id token_id lodge_id db =
    notify (Notice.qr_scan_failed booking_id) (record db {
      qr_scan_logs =
          record {
            booking_id = booking_id;
            lodge_id = lodge_id;
            qr_token_id = token_id;
            result = result;
            scanned_by_user_id = actor;
          }
          ∷ db.qr_scan_logs;
    })

-- The log of a mismatch names the booking of the request; every other, the booking of the token.
abbrev pub logged_booking : ScanResult → ScanQrDto → QrToken → Option ℕ
logged_booking ScanResult.booking_not_found dto t = dto.booking_id
logged_booking _ dto t = some t.booking_id

-- A token past its time is marked before the log.
abbrev pub mark_expired : ScanResult → ℕ → Db → Db
mark_expired ScanResult.expired id db = record db {
  qr_tokens = update_where (λ t. t.id == id) (set_token TokenStatus.expired) db.qr_tokens;
}
mark_expired _ id db = db

abbrev pub use_token : ℕ → ℕ → QrToken → QrToken
use_token now actor t = record t {
  status = TokenStatus.used;
  used_at = some now;
  used_by_user_id = some actor;
}

module _ (now actor : ℕ) (t : QrToken) (b : Booking) (room : Room) where
  unfoldable pub write_check_in : Db → Db
  write_check_in db = record db {
    qr_tokens = update_where (λ x. x.id == t.id) (use_token now actor) db.qr_tokens;
    bookings = update_booking t.booking_id (check_in now) db.bookings;
    rooms = set_room_status room.id RoomStatus.occupied db.rooms;
    room_status_history =
        record {
          actor_user_id = actor;
          booking_id = t.booking_id;
          from_status = room.status;
          reason = Action.booking_checked_in_by_qr;
          room_id = room.id;
          to_status = RoomStatus.occupied;
        }
        ∷ db.room_status_history;
    booking_history =
        history_entry Action.booking_checked_in_by_qr (some actor) t.booking_id b.status
          BookingStatus.checked_in none
        ∷ db.booking_history;
    qr_scan_logs =
        record {
          booking_id = some t.booking_id;
          lodge_id = some b.lodge_id;
          qr_token_id = some t.id;
          result = ScanResult.success;
          scanned_by_user_id = actor;
        }
        ∷ db.qr_scan_logs;
  }

  -- No check is repeated inside the transaction.
  unfoldable pub scan_tx : Db → Result (Booking × Db)
  unfolding write_check_in
  scan_tx db = do
    token ← or_throw (find (λ x. x.id == t.id) db.qr_tokens) other
    fresh ← or_throw (find (λ x. x.id == t.booking_id) db.bookings) other
    occupied ← or_throw (find (λ r. r.id == room.id) db.rooms) other
    ok (check_in now fresh, write_check_in db)

abbrev pub after_scan : ℕ → Result Booking × Db → Result Booking × Db
after_scan id (ok b, db) = (ok b, notify (Notice.checkin_completed id) db)
after_scan id (err e, db) = (err e, db)

module _ (user : AuthenticatedUser) (now : ℕ) (dto : ScanQrDto) (current : Db) where
  unfoldable pub scan_checked : QrToken → Booking → ScanCheck → Result Booking × Db
  unfolding scan_tx
  scan_checked t b (refused result e) = (
    err e,
    scan_failed result user.id (logged_booking result dto t) (some t.id) (some b.lodge_id)
        (mark_expired result t.id current),
  )
  scan_checked t b (fit room) =
      after_scan t.booking_id (commit current (scan_tx now user.id t b room current))

  unfoldable pub scan_booking : Db → QrToken → Option Booking → Result Booking × Db
  unfolding check_scan scan_checked
  scan_booking seen t none = (err other, current)
  scan_booking seen t (some b) = scan_checked t b (check_scan seen user now dto t b)

  unfoldable pub scan_token : Db → Option QrToken → Result Booking × Db
  unfolding scan_booking
  scan_token seen none =
      (err bad_request, scan_failed ScanResult.invalid user.id dto.booking_id none none current)
  scan_token seen (some t) = scan_booking seen t (find (λ b. b.id == t.booking_id) seen.bookings)

unfoldable pub scan_qr :
    (ℕ → ℕ)
    → (ℕ → Option SignedQrPayloadBody)
    → ℕ
    → ScanQrDto
    → AuthenticatedUser
    → Db
    → Db
    → Result Booking × Db
unfolding resolve_qr_token_from_scan_dto scan_token
scan_qr hash open_payload now dto user seen current =
    scan_token user now dto current seen
      (resolve_qr_token_from_scan_dto hash open_payload now dto seen)

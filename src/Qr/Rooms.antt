-- ===== src/Qr/Rooms.antt =====
-- Check-in by QR code keeps the bookings table exclusive, as long as the booking that was read is
-- still active when its row is written.
use tuljai_stays.Base.{
  ℕ, ◌≡◌, refl, true, Option, none, some, ◌==◌, if◌then◌else◌, find, Bool-cases, inl, inr,
}
use tuljai_stays.Base.Results.{Result, ok, err, commit, commit_bind}
use tuljai_stays.Store.{Db, Config, AuthenticatedUser}
use tuljai_stays.Store.Status.{BookingStatus, is_accepted}
use tuljai_stays.Store.Rows.{Booking, QrToken, ScanResult}
use tuljai_stays.Bookings.Defs.{update_booking}
use tuljai_stays.Bookings.Lifecycle.{set_status, check_in}
use tuljai_stays.Bookings.Exclusive.{has_id, holds}
use tuljai_stays.Bookings.Invariant.{Inv}
use tuljai_stays.Bookings.Transitions.{update-Inv_held}
use tuljai_stays.Qr.Issue.{
  FreshToken, SignedQrPayloadBody, generate_tx, after_generate, generate_checked, check_generate,
  generate_qr, ensure_tx, after_ensure, ensure_active_qr_token, display, metadata_checked,
  check_metadata, get_qr_metadata,
}
use tuljai_stays.Qr.Scan.{
  ScanQrDto, ScanCheck, refused, fit, mark_expired, resolve_qr_token_from_scan_dto, check_scan,
  write_check_in, scan_tx, after_scan, scan_checked, scan_booking, scan_token, scan_qr,
}

-- The row of the booking is active, if it is there.
abbrev pub StillHolds : ℕ → Db → Type 0
StillHolds id db = (r : Booking) → find (has_id id) db.bookings ≡ some r → holds r ≡ true

after_generate-bookings :
    (actor : ℕ) (b : Booking) (raw : ℕ) (out : Result QrToken × Db)
    → (after_generate actor b raw out).1.bookings ≡ out.1.bookings
after_generate-bookings actor b raw (ok t, db) = refl
after_generate-bookings actor b raw (err e, db) = refl

generated-Inv :
    (b : Booking) (db : Db)
    → StillHolds b.id db
    → Inv db.bookings
    → Inv (update_booking b.id (set_status BookingStatus.qr_generated) db.bookings)
generated-Inv b db held v =
    update-Inv_held b.id (set_status BookingStatus.qr_generated) db.bookings (λ x. refl) (λ x. refl)
      (λ x. refl) (λ x. refl) held v

pub generate_qr-Inv :
    (hash : ℕ → ℕ) (config : Config) (now : ℕ) (fresh : FreshToken) (id : ℕ) (ttl : Option ℕ)
    (user : AuthenticatedUser) (seen current : Db)
    → ((b : Booking) → check_generate seen id user now ≡ ok b → StillHolds b.id current)
    → Inv current.bookings
    → Inv (generate_qr hash config now fresh id ttl user seen current).1.bookings
unfolding generate_qr generate_checked generate_tx commit
generate_qr-Inv hash config now fresh id ttl user seen current held v =
    keeps (check_generate seen id user now) refl
  where
    keeps :
        (c : Result Booking)
        → check_generate seen id user now ≡ c
        → Inv (generate_checked hash config now fresh ttl user current c).1.bookings
    keeps (err e) _ = v
    keeps (ok b) e = rw (after_generate-bookings user.id b fresh.raw _) (
        commit_bind (λ s. Inv s.bookings) current _ _ v
          (λ found _. generated-Inv b current (held b e) v))

module _ (hash : ℕ → ℕ) (config : Config) (now : ℕ) (fresh : FreshToken) where
  after_ensure-bookings :
      (b : Booking) (out : Result QrToken × Db)
      → (after_ensure hash config now fresh b out).1.bookings ≡ out.1.bookings
  after_ensure-bookings b (ok t, db) = refl
  after_ensure-bookings b (err e, db) = refl

  display-bookings :
      (sign : SignedQrPayloadBody → ℕ) (b : Booking) (out : Result QrToken × Db)
      → (display hash config now fresh sign b out).1.bookings ≡ out.1.bookings
  display-bookings sign b (ok t, db) = refl
  display-bookings sign b (err e, db) = refl

  ensure_active_qr_token-Inv :
      (b : Booking) (db : Db) (live : Option QrToken)
      → StillHolds b.id db
      → Inv db.bookings
      → Inv (ensure_active_qr_token hash config now fresh b live db).1.bookings
  unfolding ensure_active_qr_token ensure_tx commit
  ensure_active_qr_token-Inv b db (some t) held v = v
  ensure_active_qr_token-Inv b db none held v = rw (after_ensure-bookings b _) (
      commit_bind (λ s. Inv s.bookings) db _ _ v
        (λ found _. elim (Bool-cases (is_accepted b.status)) [
          | inl e ↦ rw (e, if◌then◌else◌) (generated-Inv b db held v)
          | inr e ↦ rw (e, if◌then◌else◌) v
        ]))

pub get_qr_metadata-Inv :
    (hash : ℕ → ℕ) (config : Config) (now : ℕ) (fresh : FreshToken) (sign : SignedQrPayloadBody → ℕ)
    (id : ℕ) (user : AuthenticatedUser) (seen current : Db)
    → ((b : Booking)
        → check_metadata hash config now fresh seen id user ≡ ok b
        → StillHolds b.id current)
    → Inv current.bookings
    → Inv (get_qr_metadata hash config now fresh sign id user seen current).1.bookings
unfolding get_qr_metadata metadata_checked
get_qr_metadata-Inv hash config now fresh sign id user seen current held v =
    keeps (check_metadata hash config now fresh seen id user) refl
  where
    keeps :
        (c : Result Booking)
        → check_metadata hash config now fresh seen id user ≡ c
        → Inv (metadata_checked hash config now fresh sign seen current c).1.bookings
    keeps (err e) _ = v
    keeps (ok b) e =
        rw (display-bookings hash config now fresh sign b _)
          (ensure_active_qr_token-Inv hash config now fresh b current _ (held b e) v)

after_scan-bookings :
    (id : ℕ) (out : Result Booking × Db) → (after_scan id out).1.bookings ≡ out.1.bookings
after_scan-bookings id (ok b, db) = refl
after_scan-bookings id (err e, db) = refl

mark_expired-bookings :
    (r : ScanResult) (id : ℕ) (db : Db) → (mark_expired r id db).bookings ≡ db.bookings
mark_expired-bookings ScanResult.expired id db = refl
mark_expired-bookings ScanResult.success id db = refl
mark_expired-bookings ScanResult.used id db = refl
mark_expired-bookings ScanResult.invalid id db = refl
mark_expired-bookings ScanResult.unauthorized id db = refl
mark_expired-bookings ScanResult.booking_not_found id db = refl
mark_expired-bookings ScanResult.wrong_lodge id db = refl
mark_expired-bookings ScanResult.invalid_status id db = refl

module _ (user : AuthenticatedUser) (now : ℕ) (dto : ScanQrDto) (current : Db)
    (v : Inv current.bookings) where
  scan_checked-Inv :
      (t : QrToken) (b : Booking) (c : ScanCheck)
      → StillHolds t.booking_id current
      → Inv (scan_checked user now dto current t b c).1.bookings
  unfolding scan_checked scan_tx write_check_in commit
  scan_checked-Inv t b (refused r e) held = rw (mark_expired-bookings r t.id current) v
  scan_checked-Inv t b (fit room) held = rw (after_scan-bookings t.booking_id _) (
      commit_bind (λ s. Inv s.bookings) current _ _ v
        (λ token _.
          commit_bind (λ s. Inv s.bookings) current _ _ v
            (λ fresh _.
              commit_bind (λ s. Inv s.bookings) current _ _ v
                (λ occupied _.
                  update-Inv_held t.booking_id (check_in now) current.bookings (λ x. refl)
                    (λ x. refl) (λ x. refl) (λ x. refl) held v))))

  scan_booking-Inv :
      (seen : Db) (t : QrToken) (o : Option Booking)
      → StillHolds t.booking_id current
      → Inv (scan_booking user now dto current seen t o).1.bookings
  unfolding scan_booking
  scan_booking-Inv seen t none held = v
  scan_booking-Inv seen t (some b) held =
      scan_checked-Inv t b (check_scan seen user now dto t b) held

  scan_token-Inv :
      (seen : Db) (o : Option QrToken)
      → ((t : QrToken) → o ≡ some t → StillHolds t.booking_id current)
      → Inv (scan_token user now dto current seen o).1.bookings
  unfolding scan_token
  scan_token-Inv seen none held = v
  scan_token-Inv seen (some t) held =
      scan_booking-Inv seen t (find (λ b. b.id == t.booking_id) seen.bookings) (held t refl)

pub scan_qr-Inv :
    (hash : ℕ → ℕ) (open_payload : ℕ → Option SignedQrPayloadBody) (now : ℕ) (dto : ScanQrDto)
    (user : AuthenticatedUser) (seen current : Db)
    → ((t : QrToken)
        → resolve_qr_token_from_scan_dto hash open_payload now dto seen ≡ some t
        → StillHolds t.booking_id current)
    → Inv current.bookings
    → Inv (scan_qr hash open_payload now dto user seen current).1.bookings
unfolding scan_qr
scan_qr-Inv hash open_payload now dto user seen current held v =
    scan_token-Inv user now dto current v seen _ held

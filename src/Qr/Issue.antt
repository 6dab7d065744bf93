-- ===== src/Qr/Issue.antt =====
-- Issuing check-in tokens: `generateQr`, `getQrMetadata` and `ensureActiveQrToken`. The hash of a raw
-- token and the signature of the display payload are parameters.
use tuljai_stays.Base.{
  ℕ, ◌+◌, ◌*◌, Bool, ◌&&◌, ◌||◌, not, Option, none, some, ◌∷◌, ◌==◌, ltb, leb, if◌then◌else◌, find,
  update_where, is_none,
}
use tuljai_stays.Base.Results.{
  Result, ok, err, bad_request, conflict, forbidden, other, ◌>>=◌, ◌>>◌, throw_if, or_throw, commit,
}
use tuljai_stays.Store.{Db, Config, AuthenticatedUser, Notice}
use tuljai_stays.Store.Status.{
  BookingStatus, TokenStatus, is_accepted, awaits_arrival, token_active, lodge_verified,
  documents_verified,
}
use tuljai_stays.Store.Rows.{Booking, Lodge, QrToken, Action}
use tuljai_stays.Access.{assert_can_manage_lodge}
use tuljai_stays.Bookings.Defs.{find_booking_or_throw, update_booking, seconds}
use tuljai_stays.Bookings.Create.{notify}
use tuljai_stays.Bookings.Owner.{audit}
use tuljai_stays.Bookings.Lifecycle.{set_status, history_entry}

-- the identifier and the random bytes that a new token draws
pub record FreshToken : Type 0 where
  pub id : ℕ
  pub raw : ℕ

pub record QrPayload : Type 0 where
  pub booking_code : ℕ
  pub booking_id : ℕ
  pub expires_at : ℕ
  pub token : ℕ
  pub token_version : ℕ

pub record SignedQrPayloadBody : Type 0 where
  pub booking_code : ℕ
  pub booking_id : ℕ
  pub expires_at : ℕ
  pub qr_token_id : ℕ
  pub token_version : ℕ

pub record QrDisplayPayload : Type 0 where
  pub booking_code : ℕ
  pub booking_id : ℕ
  pub expires_at : ℕ
  pub qr_payload : ℕ
  pub status : TokenStatus
  pub token_version : ℕ

abbrev pub lodge_of : Db → ℕ → Result Lodge
lodge_of db id = or_throw (find (λ l. l.id == id) db.lodges) other

unfoldable pub check_lodge : Lodge → Result (Unit {0})
check_lodge l = do
  throw_if (not l.is_active || l.is_deleted) bad_request
  throw_if (not (lodge_verified l.status && documents_verified l.verification_status)) bad_request

abbrev pub is_live : ℕ → ℕ → QrToken → Bool
is_live booking_id now t =
    t.booking_id == booking_id && ltb now t.expires_at && token_active t.status

abbrev pub active_for : ℕ → QrToken → Bool
active_for booking_id t = t.booking_id == booking_id && token_active t.status

abbrev pub stale_for : ℕ → ℕ → QrToken → Bool
stale_for booking_id now t =
    t.booking_id == booking_id && leb t.expires_at now && token_active t.status

abbrev pub set_token : TokenStatus → QrToken → QrToken
set_token s t = record t { status = s }

abbrev pub new_token : (ℕ → ℕ) → FreshToken → ℕ → ℕ → QrToken
new_token hash fresh booking_id expires_at = record {
  id = fresh.id;
  booking_id = booking_id;
  token_hash = hash fresh.raw;
  token_version = 1;
  expires_at = expires_at;
  used_at = none;
  used_by_user_id = none;
  status = TokenStatus.active;
}

unfoldable pub check_generate : Db → ℕ → AuthenticatedUser → ℕ → Result Booking
unfolding find_booking_or_throw assert_can_manage_lodge check_lodge
check_generate seen id user now = do
  booking ← find_booking_or_throw seen id
  assert_can_manage_lodge seen user booking.lodge_id
  lodge ← lodge_of seen booking.lodge_id
  check_lodge lodge
  throw_if (not (is_accepted booking.status)) bad_request
  throw_if (not (is_none (find (is_live id now) seen.qr_tokens))) conflict
  ok booking

-- The transaction of `generateQr`.
unfoldable pub generate_tx : QrToken → Option ℕ → Booking → Db → Result (QrToken × Db)
generate_tx token actor booking db = do
  found ← or_throw (find (λ b. b.id == booking.id) db.bookings) other
  ok (
    token,
    record db {
      qr_tokens =
          token ∷ update_where (active_for booking.id) (set_token TokenStatus.revoked) db.qr_tokens;
      bookings = update_booking booking.id (set_status BookingStatus.qr_generated) db.bookings;
      booking_history =
          history_entry Action.qr_action actor booking.id booking.status BookingStatus.qr_generated
            none
          ∷ db.booking_history;
    },
  )

abbrev pub after_generate : ℕ → Booking → ℕ → Result QrToken × Db → Result QrPayload × Db
after_generate actor b raw (ok t, db) = (
  ok (record {
    booking_code = b.booking_code;
    booking_id = b.id;
    expires_at = t.expires_at;
    token = raw;
    token_version = t.token_version;
  }),
  notify (Notice.qr_generated b.id) (audit Action.qr_action actor b.id db),
)
after_generate actor b raw (err e, db) = (err e, db)

abbrev pub ttl_or : Option ℕ → Config → ℕ
ttl_or none config = config.qr_token_ttl_seconds
ttl_or (some s) config = s

module _ (hash : ℕ → ℕ) (config : Config) (now : ℕ) (fresh : FreshToken) where
  unfoldable pub generate_checked :
      Option ℕ → AuthenticatedUser → Db → Result Booking → Result QrPayload × Db
  unfolding generate_tx
  generate_checked ttl user current (err e) = (err e, current)
  generate_checked ttl user current (ok booking) =
      let token = new_token hash fresh booking.id (now + seconds (ttl_or ttl config)) in
      after_generate user.id booking fresh.raw
        (commit current (generate_tx token (some user.id) booking current))

  unfoldable pub generate_qr : ℕ → Option ℕ → AuthenticatedUser → Db → Db → Result QrPayload × Db
  unfolding check_generate generate_checked
  generate_qr id ttl user seen current =
      generate_checked ttl user current (check_generate seen id user now)

  -- the last millisecond of the day of departure
  abbrev pub end_of_stay : Booking → ℕ
  end_of_stay b = b.stay.check_out * 86400000 + 86399999

  abbrev pub later : ℕ → ℕ → ℕ
  later a b = if ltb a b then b else a

  abbrev pub issue_action : Booking → Action
  issue_action b = if is_accepted b.status then Action.qr_action else Action.reissue_action

  -- The transaction of `ensureActiveQrToken`.
  unfoldable pub ensure_tx : Booking → Db → Result (QrToken × Db)
  ensure_tx booking db = do
    found ← or_throw (find (λ b. b.id == booking.id) db.bookings) other
    let token =
        new_token hash fresh booking.id
          (later (now + seconds config.qr_token_ttl_seconds) (end_of_stay booking))
    let generated = update_booking booking.id (set_status BookingStatus.qr_generated) db.bookings
    ok (
      token,
      record db {
        qr_tokens =
            token
            ∷ update_where (stale_for booking.id now) (set_token TokenStatus.expired) db.qr_tokens;
        bookings = if is_accepted booking.status then generated else db.bookings;
        booking_history =
            history_entry (issue_action booking) none booking.id booking.status
              BookingStatus.qr_generated none
            ∷ db.booking_history;
      },
    )

  abbrev pub after_ensure : Booking → Result QrToken × Db → Result QrToken × Db
  after_ensure b (ok t, db) = (
    ok t,
    notify (Notice.qr_generated b.id) (record db {
      audit_logs =
          record { action = issue_action b; actor_user_id = none; entity_id = b.id }
          ∷ db.audit_logs;
    }),
  )
  after_ensure b (err e, db) = (err e, db)

  unfoldable pub ensure_active_qr_token : Booking → Option QrToken → Db → Result QrToken × Db
  unfolding ensure_tx
  ensure_active_qr_token booking (some t) current = (ok t, current)
  ensure_active_qr_token booking none current =
      after_ensure booking (commit current (ensure_tx booking current))

  unfoldable pub check_metadata : Db → ℕ → AuthenticatedUser → Result Booking
  unfolding find_booking_or_throw check_lodge
  check_metadata seen id user = do
    booking ← find_booking_or_throw seen id
    lodge ← lodge_of seen booking.lodge_id
    throw_if (not (booking.pilgrim_user_id == user.id)) forbidden
    throw_if (not (awaits_arrival booking.status)) bad_request
    check_lodge lodge
    ok booking

  abbrev pub payload_body : Booking → QrToken → SignedQrPayloadBody
  payload_body b t = record {
    booking_code = b.booking_code;
    booking_id = b.id;
    expires_at = t.expires_at;
    qr_token_id = t.id;
    token_version = t.token_version;
  }

  module _ (sign : SignedQrPayloadBody → ℕ) where
    abbrev pub display : Booking → Result QrToken × Db → Result QrDisplayPayload × Db
    display b (ok t, db) = (
      ok (record {
        booking_code = b.booking_code;
        booking_id = b.id;
        expires_at = t.expires_at;
        qr_payload = sign (payload_body b t);
        status = t.status;
        token_version = t.token_version;
      }),
      db,
    )
    display b (err e, db) = (err e, db)

    unfoldable pub metadata_checked : Db → Db → Result Booking → Result QrDisplayPayload × Db
    unfolding ensure_active_qr_token
    metadata_checked seen current (err e) = (err e, current)
    metadata_checked seen current (ok booking) =
        display booking
          (ensure_active_qr_token booking (find (is_live booking.id now) seen.qr_tokens) current)

    unfoldable pub get_qr_metadata : ℕ → AuthenticatedUser → Db → Db → Result QrDisplayPayload × Db
    unfolding check_metadata metadata_checked
    get_qr_metadata id user seen current =
        metadata_checked seen current (check_metadata seen id user)

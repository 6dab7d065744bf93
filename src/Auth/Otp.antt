-- ===== src/Auth/Otp.antt =====
-- One-time passwords: `requestOtp` and `verifyOtp` of backend/src/modules/auth/auth.service.ts.
use tuljai_stays.Base.{
  ℕ, ◌+◌, Bool, true, false, ◌&&◌, ◌||◌, not, Option, none, some, [], ◌∷◌, ◌==◌, leb, is_none,
  is_some_eq, if◌then◌else◌, any, count, find, update_where,
}
use tuljai_stays.Base.Results.{
  Result, ok, err, unauthorized, too_many_requests, other, ◌>>=◌, ◌>>◌, throw_if, or_throw,
}
use tuljai_stays.Store.{pilgrim}
use tuljai_stays.Auth.Rows.{
  User, OtpPurpose, OtpRequest, AuthDb, AuthConfig, AuthAction, FreshSession, Secrets,
}
use tuljai_stays.Auth.Tokens.{AuthTokens, SignInDevice, sign_in, log_action, add_seconds}

abbrev same_purpose : OtpPurpose → OtpPurpose → Bool
same_purpose OtpPurpose.login OtpPurpose.login = true
same_purpose OtpPurpose.register OtpPurpose.register = true
same_purpose OtpPurpose.verify_phone OtpPurpose.verify_phone = true
same_purpose _ _ = false

abbrev pub in_rate_window : AuthConfig → ℕ → ℕ → OtpPurpose → OtpRequest → Bool
in_rate_window config now phone_number purpose r =
    leb now (add_seconds r.created_at config.otp_rate_limit_window_seconds)
    && r.phone_number == phone_number
    && same_purpose r.purpose purpose

unfoldable pub enforce_otp_rate_limit : AuthConfig → ℕ → ℕ → OtpPurpose → AuthDb → Result (Unit {0})
enforce_otp_rate_limit config now phone_number purpose db =
    throw_if
      (leb config.otp_rate_limit_max_requests
        (count (in_rate_window config now phone_number purpose) db.otp_requests))
      too_many_requests

module _ (secrets : Secrets) (config : AuthConfig) where
  -- `otp` is the number drawn, `salt` the salt of its hash.
  abbrev pub new_otp_request : ℕ → ℕ → ℕ → ℕ → ℕ → OtpPurpose → OtpRequest
  new_otp_request id salt otp now phone_number purpose = record {
    id = id;
    phone_number = phone_number;
    otp_hash = secrets.hash_secret salt otp;
    purpose = purpose;
    attempts = 0;
    max_attempts = config.otp_max_attempts;
    expires_at = add_seconds now config.otp_ttl_seconds;
    consumed_at = none;
    created_at = now;
  }

  abbrev pub otp_limited : OtpRequest → AuthDb → Result (Unit {0}) → Result ℕ × AuthDb
  otp_limited row db (err e) = (err e, db)
  otp_limited row db (ok _) = (
    ok row.expires_at,
    log_action AuthAction.otp_requested none (record db { otp_requests = row ∷ db.otp_requests }),
  )

  unfoldable pub request_otp : ℕ → ℕ → ℕ → ℕ → ℕ → OtpPurpose → AuthDb → AuthDb → Result ℕ × AuthDb
  unfolding enforce_otp_rate_limit
  request_otp id salt otp now phone_number purpose seen current =
      otp_limited (new_otp_request id salt otp now phone_number purpose) current
        (enforce_otp_rate_limit config now phone_number purpose seen)

-- What `verifyOtp` finds: a wrong password, or the right one and the account of the phone.
pub data OtpCheck : Type 0 where
  wrong : OtpRequest → OtpCheck
  right : OtpRequest → Option User → OtpCheck

-- `existingUser?.deletedAt || existingUser?.isActive === false`
abbrev pub locked_out : Option User → Bool
locked_out none = false
locked_out (some u) = u.is_deleted || not u.is_active

abbrev pub unused_for : ℕ → OtpRequest → Bool
unused_for phone_number r = is_none r.consumed_at && r.phone_number == phone_number

unfoldable pub check_otp : Secrets → ℕ → ℕ → ℕ → AuthDb → Result OtpCheck
check_otp secrets now phone_number otp seen = do
  request ← or_throw (find (unused_for phone_number) seen.otp_requests) unauthorized
  throw_if (leb request.expires_at now) unauthorized
  throw_if (leb request.max_attempts request.attempts) unauthorized
  if not (secrets.verify_secret otp request.otp_hash)
      then ok (wrong request)
      else (throw_if (locked_out (find (λ u. is_some_eq u.phone_number phone_number) seen.users))
            unauthorized
          >> ok (right request (find (λ u. is_some_eq u.phone_number phone_number) seen.users)))

abbrev pub count_attempt : OtpRequest → OtpRequest
count_attempt r = record r { attempts = r.attempts + 1 }

abbrev pub consume_otp : ℕ → OtpRequest → OtpRequest
consume_otp now r = record r { consumed_at = some now }

abbrev pub enter : ℕ → User → User
enter now u = record u { is_active = true; last_login_at = some now }

-- A phone number belongs to one account.
unfoldable pub login_user : ℕ → ℕ → ℕ → Option User → AuthDb → Result (User × AuthDb)
login_user new_id now phone_number (some u) db = do
  row ← or_throw (find (λ x. x.id == u.id) db.users) other
  ok (enter now row, record db { users = update_where (λ x. x.id == u.id) (enter now) db.users })
login_user new_id now phone_number none db =
    let user : User = record {
      id = new_id;
      phone_number = some phone_number;
      email = none;
      display_name = none;
      roles = pilgrim ∷ [];
      is_active = true;
      is_deleted = false;
      last_login_at = some now;
    } in
    throw_if (any (λ u. is_some_eq u.phone_number phone_number) db.users) other
    >> ok (user, record db { users = user ∷ db.users })

module _ (secrets : Secrets) (config : AuthConfig) (fresh : FreshSession) (device : SignInDevice)
    (now later phone_number otp : ℕ) where
  abbrev pub consumed_db : OtpRequest → AuthDb → AuthDb
  consumed_db r db = record db {
    otp_requests = update_where (λ x. x.id == r.id) (consume_otp now) db.otp_requests;
  }

  abbrev pub user_entered :
      OtpRequest → AuthDb → Result (User × AuthDb) → Result AuthTokens × AuthDb
  user_entered r db (err e) = (err e, db)
  user_entered r db (ok (user, entered)) =
      sign_in secrets config fresh user device (some AuthAction.otp_verified) now later
        (consumed_db r entered)

  unfoldable pub otp_checked : AuthDb → Result OtpCheck → Result AuthTokens × AuthDb
  unfolding login_user sign_in
  otp_checked current (err e) = (err e, current)
  otp_checked current (ok (wrong r)) = (
    err unauthorized,
    record current {
      otp_requests = update_where (λ x. x.id == r.id) count_attempt current.otp_requests;
    },
  )
  otp_checked current (ok (right r existing)) =
      user_entered r current (login_user fresh.user_id now phone_number existing current)

  unfoldable pub verify_otp : AuthDb → AuthDb → Result AuthTokens × AuthDb
  unfolding check_otp otp_checked
  verify_otp seen current = otp_checked current (check_otp secrets now phone_number otp seen)

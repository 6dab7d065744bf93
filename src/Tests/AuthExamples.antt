-- ===== src/Tests/AuthExamples.antt =====
-- The theorems on sign-in and sessions, applied.
use tuljai_stays.Base.{
  suc, ◌+◌, ◌*◌, ◌≤◌, ◌≡◌, refl, arith, true, false, none, some, [], ◌∷◌, ◌==◌, leb, is_none, find,
  any, count, ◌&&◌, update_where,
}
use tuljai_stays.Base.Results.{ok, err, unauthorized, too_many_requests, throw_if, ◌>>=◌}
use tuljai_stays.Store.{owner}
use tuljai_stays.Auth.Rows.{
  User, OtpPurpose, OtpRequest, RefreshToken, UserSession, PasswordResetToken, AppType, AuthDb,
  AuthConfig, DurationUnit, Secrets, FreshSession,
}
use tuljai_stays.Auth.Tokens.{
  AuthTokens, AccessToken, SignInDevice, sign_in, issue_tokens, issue_access_token, expires_in,
  parse_duration_seconds,
}
use tuljai_stays.Auth.Otp.{verify_otp, check_otp, otp_checked, login_user}
use tuljai_stays.Auth.OtpOnce.{OtpRun, no_attempt, admitted, unused, OtpRun-bounds}
use tuljai_stays.Auth.Refresh.{
  check_refresh, refresh_checked, refresh_token, logout, logout_token, logout_found,
}
use tuljai_stays.Auth.Passwords.{owner_login}
use tuljai_stays.Auth.Expiry.{Answered, ends, refresh_token-bounds}
use tuljai_stays.Auth.Reset.{check_reset, owner_reset_password, reset_checked}
use tuljai_stays.Auth.Ended.{Ended}
use tuljai_stays.Auth.SignedOut.{SignedOut, owner_reset_password-SignedOut, logout-Ended}
use tuljai_stays.Auth.AuthSteps.{AuthRun, unchanged, followed, owner_enters, refresh_token-Ended}
use tuljai_stays.Auth.Throttle.{
  of_key, assert_admin_login_not_throttled, record_admin_login_failure,
}
use tuljai_stays.Auth.Attempts.{
  failures_after, live_failures, record_admin_login_failure-counts,
  assert_admin_login_not_throttled-eq,
}

abbrev the_secrets : Secrets
the_secrets = record {
  hash_secret = λ salt secret. secret;
  verify_secret = λ secret hash. secret == hash;
  hash_token = λ token. suc token;
  verify_totp = λ secret code. some (secret == code);
  normalize_email = λ email. email;
}

abbrev the_auth_config : AuthConfig
the_auth_config = record {
  access_token_ttl = record { value = 15; unit = some DurationUnit.minute };
  refresh_token_ttl = record { value = 30; unit = some DurationUnit.day };
  session_max_age_days = 180;
  otp_ttl_seconds = 300;
  otp_max_attempts = 5;
  otp_rate_limit_window_seconds = 900;
  otp_rate_limit_max_requests = 3;
  password_reset_ttl_seconds = 1800;
  password_reset_rate_limit_window_seconds = 3600;
  password_reset_rate_limit_max_requests = 3;
}

abbrev the_account : User
the_account = record {
  id = 9;
  phone_number = some 98;
  email = some 99;
  display_name = none;
  roles = owner ∷ [];
  is_active = true;
  is_deleted = false;
  last_login_at = none;
}

abbrev the_otp : OtpRequest
the_otp = record {
  id = 21;
  phone_number = 98;
  otp_hash = 123456;
  purpose = OtpPurpose.login;
  attempts = 1;
  max_attempts = 5;
  expires_at = 300000;
  consumed_at = none;
  created_at = 0;
}

-- a token whose text is 3
abbrev the_refresh_token : RefreshToken
the_refresh_token = record {
  id = 41;
  user_id = 9;
  token_hash = 4;
  device_id = 1;
  expires_at = 5000000;
  revoked_at = none;
}

abbrev the_session : UserSession
the_session = record {
  id = 43;
  user_id = 9;
  refresh_token_id = 41;
  device_id = 1;
  app_type = AppType.owner_app;
  is_active = true;
  session_expires_at = 5000000;
  last_seen_at = 0;
}

abbrev the_reset_token : PasswordResetToken
the_reset_token = record {
  id = 44;
  user_id = 9;
  email = 99;
  token_hash = 8;
  expires_at = 1800000;
  consumed_at = none;
  created_at = 0;
}

abbrev the_auth_db : AuthDb
the_auth_db = record {
  users = the_account ∷ [];
  otp_requests = the_otp ∷ [];
  auth_identities = [];
  refresh_tokens = the_refresh_token ∷ [];
  user_sessions = the_session ∷ [];
  password_reset_tokens = the_reset_token ∷ [];
  device_tokens = [];
  admin_totp_credentials = [];
  audit_logs = [];
  admin_login_failures = [];
}

abbrev the_fresh_session : FreshSession
the_fresh_session = record {
  refresh_token = 70;
  token_id = 71;
  session_id = 72;
  user_id = 73;
  identity_id = 74;
}

abbrev the_device : SignInDevice
the_device = record { device_id = 1; app_type = AppType.owner_app; fcm_token = some 6 }

abbrev signed_out : AuthDb
signed_out = (logout the_secrets the_auth_config 9 2000 3 1 true the_auth_db the_auth_db).1

left : (logout the_secrets the_auth_config 9 2000 3 1 true the_auth_db the_auth_db).0 ≡ ok tt
unfolding logout logout_token logout_found find
left = refl

one_token : count (λ t. t.token_hash == 4) the_auth_db.refresh_tokens ≤ 1
unfolding count
one_token = ground arith

logout-Ended_example : Ended 4 signed_out
logout-Ended_example =
    logout-Ended the_secrets the_auth_config 9 2000 3 1 true the_auth_db one_token left

signed_out-Ended : Ended 4 signed_out
unfolding logout logout_token logout_found find any update_where
signed_out-Ended = refl

abbrev after_entering : AuthDb
after_entering =
    (owner_login the_secrets the_auth_config the_fresh_session the_device 3000 3001 99 5 the_auth_db
      signed_out).1

entering : AuthRun the_secrets the_auth_config 4 signed_out after_entering
entering =
    followed unchanged (owner_enters the_fresh_session the_device 3000 3001 99 5 the_auth_db refl)

refresh_token-Ended_example :
    refresh_token the_secrets the_auth_config 4000 4001 3 1 after_entering after_entering
    ≡ (err unauthorized, after_entering)
refresh_token-Ended_example =
    refresh_token-Ended the_secrets the_auth_config 3 entering signed_out-Ended 4000 4001 1
      after_entering

abbrev renewed : AccessToken
renewed = record {
  sub = 9;
  phone_number = some 98;
  roles = owner ∷ [];
  sid = 41;
  expires_in_seconds = 900;
  session_expires_at = 5000000;
}

renewing :
    (refresh_token the_secrets the_auth_config 2000 2001 3 1 the_auth_db the_auth_db).0 ≡ ok renewed
unfolding refresh_token check_refresh refresh_checked issue_access_token expires_in
    parse_duration_seconds find ◌>>=◌
renewing = refl

refresh_token-bounds_example :
    Answered the_auth_config 2001
      (check_refresh the_secrets 2000 3 1 the_auth_db)
      (refresh_token the_secrets the_auth_config 2000 2001 3 1 the_auth_db the_auth_db).0
    × (ends
          (refresh_token the_secrets the_auth_config 2000 2001 3 1 the_auth_db
            the_auth_db).1.user_sessions
        ≡ ends the_auth_db.user_sessions)
    × ((refresh_token the_secrets the_auth_config 2000 2001 3 1 the_auth_db
          the_auth_db).1.refresh_tokens
        ≡ the_auth_db.refresh_tokens)
refresh_token-bounds_example =
    refresh_token-bounds the_secrets the_auth_config 2000 2001 3 1 the_auth_db the_auth_db

resetting : (owner_reset_password the_secrets 45 46 2000 5 7 the_auth_db the_auth_db).0 ≡ ok tt
unfolding owner_reset_password check_reset reset_checked find any ◌>>=◌
resetting = refl

owner_reset_password-SignedOut_example :
    (r : PasswordResetToken) × (check_reset the_secrets 2000 7 the_auth_db ≡ ok r)
    × SignedOut r.user_id
        (owner_reset_password the_secrets 45 46 2000 5 7 the_auth_db the_auth_db).1
    × (any
          (λ x. x.id == r.id && is_none x.consumed_at)
          (owner_reset_password the_secrets 45 46 2000 5 7 the_auth_db
            the_auth_db).1.password_reset_tokens
        ≡ false)
owner_reset_password-SignedOut_example =
    owner_reset_password-SignedOut the_secrets 45 46 2000 5 7 the_auth_db the_auth_db resetting

abbrev new_tokens : AuthTokens
new_tokens = record {
  access_token = record renewed { sid = 71; session_expires_at = 2000 + 180 * 86400 * 1000 };
  refresh_token = 70;
}

entered :
    (verify_otp the_secrets the_auth_config the_fresh_session the_device 2000 2001 98 123456
      the_auth_db the_auth_db).0
    ≡ ok new_tokens
unfolding verify_otp check_otp otp_checked login_user sign_in issue_tokens issue_access_token
    expires_in parse_duration_seconds find ◌>>=◌
entered = refl

abbrev otp_used : AuthDb
otp_used =
    (verify_otp the_secrets the_auth_config the_fresh_session the_device 2000 2001 98 123456
      the_auth_db the_auth_db).1

one_entered : OtpRun the_auth_db 1 otp_used
one_entered =
    admitted the_secrets the_auth_config the_fresh_session the_device 2000 2001 98 123456 new_tokens
      no_attempt entered

OtpRun-bounds_example :
    1 + count unused otp_used.otp_requests ≤ count unused the_auth_db.otp_requests
OtpRun-bounds_example = OtpRun-bounds the_auth_db one_entered

record_admin_login_failure-counts_example :
    live_failures 900999 198 (record_admin_login_failure 1000 (198 ∷ 15 ∷ []) [])
    ≡ failures_after 900999 1000 (count (λ key. key == 198) (198 ∷ 15 ∷ [])) (find (of_key 198) [])
record_admin_login_failure-counts_example =
    record_admin_login_failure-counts 900999 1000 198 (198 ∷ 15 ∷ []) []

-- The failure counts up to fifteen minutes after it, and not from then on.
counts_to_the_end :
    failures_after 900999 1000 (count (λ key. key == 198) (198 ∷ 15 ∷ [])) (find (of_key 198) [])
    ≡ 1
unfolding count find
counts_to_the_end = refl

over_at_the_end :
    failures_after 901000 1000 (count (λ key. key == 198) (198 ∷ 15 ∷ [])) (find (of_key 198) [])
    ≡ 0
unfolding count find
over_at_the_end = refl

assert_admin_login_not_throttled-eq_example :
    assert_admin_login_not_throttled 1000
      (198 ∷ 15 ∷ [])
      (record { key = 15; count = 5; reset_at = 2000 } ∷ [])
    ≡ throw_if
        (any
          (λ k. leb 5 (live_failures 1000 k (record { key = 15; count = 5; reset_at = 2000 } ∷ [])))
          (198 ∷ 15 ∷ []))
        too_many_requests
assert_admin_login_not_throttled-eq_example =
    assert_admin_login_not_throttled-eq 1000 (198 ∷ 15 ∷ [])
      (record { key = 15; count = 5; reset_at = 2000 } ∷ [])

-- ===== src/Auth/AuthSteps.antt =====
-- The operations of backend/src/modules/auth/auth.service.ts as steps, in any order and number.
use tuljai_stays.Base.{
  ℕ, ◌≡◌, arith, Bool, false, ◌||◌, not, Option, none, some, ◌==◌, find, any, if◌then◌else◌,
  Bool-cases, inl, inr,
}
use tuljai_stays.Base.Results.{
  Result, ok, err, unauthorized, or_throw, throw_if, other, bind_outcome,
}
use tuljai_stays.Auth.Rows.{
  User, OtpPurpose, OtpRequest, RefreshToken, AuthDb, AuthConfig, FreshSession, Secrets,
  PasswordResetToken, AuthAction, AuthIdentity,
}
use tuljai_stays.Auth.Tokens.{SignInDevice}
use tuljai_stays.Auth.Otp.{request_otp, otp_limited, verify_otp}
use tuljai_stays.Auth.Refresh.{Renewal, refresh_checked, refresh_token, logout, logout_found}
use tuljai_stays.Auth.Passwords.{owner_login, admin_login, has_allowed_owner_role, throttle_keys}
use tuljai_stays.Auth.Google.{
  GoogleProfile, of_subject, google_account, google_entered, google_checked, sign_in_with_google,
}
use tuljai_stays.Auth.Reset.{
  owner_reset_password, admin_set_password, owner_forgot_password, reset_checked, consume_token,
  set_password, set_found, end_sessions, forgot_found, forgot_limited,
}
use tuljai_stays.Auth.Ended.{
  Ended, live_hash, any-update_where-false, enter_account-Ended, admin_unthrottled-Ended,
  otp_checked-Ended, refresh-Ended, sign_in-Ended,
}

-- `h` is the hash of one refresh token; a sign-in draws another one.
pub data AuthStep (secrets : Secrets) (config : AuthConfig) (h : ℕ) (db : AuthDb)
    : AuthDb → Type 0 where
  requests_otp :
      (id salt otp now phone_number : ℕ) (purpose : OtpPurpose) (seen : AuthDb)
      → AuthStep secrets config h db
          (request_otp secrets config id salt otp now phone_number purpose seen db).1
  verifies_otp :
      (fresh : FreshSession) (device : SignInDevice) (now later phone_number otp : ℕ)
      (seen : AuthDb)
      → (secrets.hash_token fresh.refresh_token == h) ≡ false
      → AuthStep secrets config h db
          (verify_otp secrets config fresh device now later phone_number otp seen db).1
  owner_enters :
      (fresh : FreshSession) (device : SignInDevice) (now later email password : ℕ) (seen : AuthDb)
      → (secrets.hash_token fresh.refresh_token == h) ≡ false
      → AuthStep secrets config h db
          (owner_login secrets config fresh device now later email password seen db).1
  admin_enters :
      (fresh : FreshSession) (device : SignInDevice) (now later email password : ℕ)
      (code : Option ℕ) (ip_address : ℕ) (seen : AuthDb)
      → (secrets.hash_token fresh.refresh_token == h) ≡ false
      → AuthStep secrets config h db
          (admin_login secrets config fresh device now later email password code ip_address seen
            db).1
  enters_with_google :
      (fresh : FreshSession) (device : SignInDevice) (now later : ℕ)
      (verify_google : ℕ → Result GoogleProfile) (access_token : ℕ) (seen : AuthDb)
      → (secrets.hash_token fresh.refresh_token == h) ≡ false
      → AuthStep secrets config h db
          (sign_in_with_google secrets config fresh device now later verify_google access_token seen
            db).1
  renews :
      (now later token device_id : ℕ) (seen : AuthDb)
      → AuthStep secrets config h db
          (refresh_token secrets config now later token device_id seen db).1
  logs_out :
      (user_id now token device_id : ℕ) (deactivate : Bool) (seen : AuthDb)
      → AuthStep secrets config h db
          (logout secrets config user_id now token device_id deactivate seen db).1
  forgets :
      (token_id raw_token now email : ℕ) (seen : AuthDb)
      → AuthStep secrets config h db
          (owner_forgot_password secrets config token_id raw_token now email seen db).1
  resets :
      (new_id salt now new_password token : ℕ) (seen : AuthDb)
      → AuthStep secrets config h db
          (owner_reset_password secrets new_id salt now new_password token seen db).1
  sets_password :
      (new_id salt now new_password user_id : ℕ) (seen : AuthDb)
      → AuthStep secrets config h db
          (admin_set_password secrets new_id salt now new_password user_id seen db).1

pub data AuthRun (secrets : Secrets) (config : AuthConfig) (h : ℕ) (db : AuthDb)
    : AuthDb → Type 0 where
  unchanged : AuthRun secrets config h db db
  followed :
      {t u : AuthDb}
      → AuthRun secrets config h db t
      → AuthStep secrets config h t u
      → AuthRun secrets config h db u

module _ (h : ℕ) (secrets : Secrets) (config : AuthConfig) where
  request-Ended :
      (row : OtpRequest) (db : AuthDb) (r : Result (Unit {0}))
      → Ended h db
      → Ended h (otp_limited secrets config row db r).1
  request-Ended row db (err e) ended = ended
  request-Ended row db (ok _) ended = ended

  google_account-Ended :
      (fresh : FreshSession) (device : SignInDevice) (now later : ℕ) (p : GoogleProfile)
      (o : Option AuthIdentity) (db : AuthDb)
      → (secrets.hash_token fresh.refresh_token == h) ≡ false
      → Ended h db
      → Ended h
          (google_entered secrets config fresh device now later db
            (google_account secrets config fresh device now later p o db)).1
  unfolding google_account
  google_account-Ended fresh device now later p (some i) db new ended =
      bind_outcome (λ c. Ended h (google_entered secrets config fresh device now later db c).1)
        (or_throw (find (λ u. u.id == i.user_id) db.users) other) _ (λ e. ended)
        (λ row _. sign_in-Ended h secrets config fresh _ device none now later _ new ended)
  google_account-Ended fresh device now later p none db new ended =
      bind_outcome (λ c. Ended h (google_entered secrets config fresh device now later db c).1)
        (throw_if (any (of_subject p.provider_subject) db.auth_identities) other) _ (λ e. ended)
        (λ _ _. sign_in-Ended h secrets config fresh _ device none now later _ new ended)

  google_checked-Ended :
      (fresh : FreshSession) (device : SignInDevice) (now later : ℕ) (db : AuthDb)
      (r : Result (GoogleProfile × Option AuthIdentity))
      → (secrets.hash_token fresh.refresh_token == h) ≡ false
      → Ended h db
      → Ended h (google_checked secrets config fresh device now later db r).1
  unfolding google_checked
  google_checked-Ended fresh device now later db (err e) new ended = ended
  google_checked-Ended fresh device now later db (ok (p, o)) new ended =
      google_account-Ended fresh device now later p o db new ended

  renewed-Ended :
      (now later : ℕ) (db : AuthDb) (r : Result Renewal)
      → Ended h db
      → Ended h (refresh_checked secrets config now later db r).1
  unfolding refresh_checked
  renewed-Ended now later db (err e) ended = ended
  renewed-Ended now later db (ok r) ended = ended

  logout_found-Ended :
      (user_id now device_id : ℕ) (deactivate : Bool) (db : AuthDb) (r : Result RefreshToken)
      → Ended h db
      → Ended h (logout_found secrets config user_id now device_id deactivate db r).1
  unfolding logout_found
  logout_found-Ended user_id now device_id deactivate db (err e) ended = ended
  logout_found-Ended user_id now device_id deactivate db (ok t) ended =
      any-update_where-false (live_hash h) _ _ (λ x off own. ground arith) db.refresh_tokens ended

  forgot-Ended :
      (token_id raw_token now email : ℕ) (user : User) (db : AuthDb) (r : Result (Unit {0}))
      → Ended h db
      → Ended h (forgot_limited secrets config token_id raw_token now email user db r).1
  forgot-Ended token_id raw_token now email user db (err e) ended = ended
  forgot-Ended token_id raw_token now email user db (ok _) ended = ended

  forgot_found-Ended :
      (token_id raw_token now email : ℕ) (seen db : AuthDb) (o : Option User)
      → Ended h db
      → Ended h (forgot_found secrets config token_id raw_token now email seen db o).1
  unfolding forgot_found
  forgot_found-Ended token_id raw_token now email seen db none ended = ended
  forgot_found-Ended token_id raw_token now email seen db (some user) ended =
      elim (Bool-cases
        (user.is_deleted || not user.is_active || not (has_allowed_owner_role user))) [
          | inl e ↦ rw (e, if◌then◌else◌) ended
          | inr e ↦
              rw (e, if◌then◌else◌) (forgot-Ended token_id raw_token now email user db _ ended)
        ]

  set_password-Ended :
      (new_id salt now new_password user_id email : ℕ) (db : AuthDb)
      → Ended h db
      → Ended h (set_password secrets new_id salt now new_password user_id email db)
  unfolding set_password end_sessions
  set_password-Ended new_id salt now new_password user_id email db ended =
      any-update_where-false (live_hash h) _ _ (λ x off own. ground arith) db.refresh_tokens ended

  reset_checked-Ended :
      (new_id salt now new_password : ℕ) (db : AuthDb) (r : Result PasswordResetToken)
      → Ended h db
      → Ended h (reset_checked secrets new_id salt now new_password db r).1
  unfolding reset_checked
  reset_checked-Ended new_id salt now new_password db (err e) ended = ended
  reset_checked-Ended new_id salt now new_password db (ok t) ended =
      set_password-Ended new_id salt now new_password t.user_id t.email
        (consume_token secrets new_id salt now new_password t db) ended

  set_found-Ended :
      (new_id salt now new_password user_id : ℕ) (db : AuthDb) (r : Result ℕ)
      → Ended h db
      → Ended h (set_found secrets new_id salt now new_password user_id db r).1
  set_found-Ended new_id salt now new_password user_id db (err e) ended = ended
  set_found-Ended new_id salt now new_password user_id db (ok email) ended =
      set_password-Ended new_id salt now new_password user_id _ db ended

  AuthStep-Ended : {t u : AuthDb} → AuthStep secrets config h t u → Ended h t → Ended h u
  unfolding request_otp verify_otp owner_login admin_login sign_in_with_google refresh_token logout
      owner_forgot_password owner_reset_password admin_set_password
  AuthStep-Ended {t} (requests_otp id salt otp now phone_number purpose seen) ended =
      request-Ended _ t _ ended
  AuthStep-Ended {t} (verifies_otp fresh device now later phone_number otp seen new) ended =
      otp_checked-Ended h secrets config fresh device now later new phone_number otp t _ ended
  AuthStep-Ended {t} (owner_enters fresh device now later email password seen new) ended =
      enter_account-Ended h secrets config fresh device now later AuthAction.owner_password_login t
        _ new ended
  AuthStep-Ended {t} (admin_enters fresh device now later email password code ip_address seen new)
        ended =
      admin_unthrottled-Ended h secrets config fresh device now later new
        (secrets.normalize_email email) password code
        (throttle_keys (secrets.normalize_email email) ip_address) seen t _ ended
  AuthStep-Ended {t} (enters_with_google fresh device now later verify_google access_token seen new)
        ended =
      google_checked-Ended fresh device now later t _ new ended
  AuthStep-Ended {t} (renews now later token device_id seen) ended =
      renewed-Ended now later t _ ended
  AuthStep-Ended {t} (logs_out user_id now token device_id deactivate seen) ended =
      logout_found-Ended user_id now device_id deactivate t _ ended
  AuthStep-Ended {t} (forgets token_id raw_token now email seen) ended =
      forgot_found-Ended token_id raw_token now _ seen t _ ended
  AuthStep-Ended {t} (resets new_id salt now new_password token seen) ended =
      reset_checked-Ended new_id salt now new_password t _ ended
  AuthStep-Ended {t} (sets_password new_id salt now new_password user_id seen) ended =
      set_found-Ended new_id salt now new_password user_id t _ ended

  AuthRun-Ended : {t u : AuthDb} → AuthRun secrets config h t u → Ended h t → Ended h u
  AuthRun-Ended unchanged ended = ended
  AuthRun-Ended (followed r s) ended = AuthStep-Ended s (AuthRun-Ended r ended)

-- Once no live refresh token with the hash of `token` is left, no sequence of sign-ins, renewals,
-- logouts, resets and requests for passwords brings one back: a request to renew it that reads the
-- tables then is refused and writes nothing. Each sign-in draws a token with another hash.
pub refresh_token-Ended :
    (secrets : Secrets) (config : AuthConfig) (token : ℕ) {s t : AuthDb}
    → AuthRun secrets config (secrets.hash_token token) s t
    → Ended (secrets.hash_token token) s
    → (now later device_id : ℕ) (current : AuthDb)
    → refresh_token secrets config now later token device_id t current ≡ (err unauthorized, current)
refresh_token-Ended secrets config token {s} {t} run ended now later device_id current =
    refresh-Ended secrets config now later token device_id t current
      (AuthRun-Ended (secrets.hash_token token) secrets config run ended)

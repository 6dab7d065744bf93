-- ===== src/Auth/Passwords.antt =====
-- The sign-ins with a password: `ownerLogin` and `adminLogin` of
-- backend/src/modules/auth/auth.service.ts.
use tuljai_stays.Base.{
  ℕ, ◌+◌, ◌*◌, Bool, true, false, ◌&&◌, ◌||◌, not, Option, none, some, List, [], ◌∷◌, ◌==◌,
  if◌then◌else◌, any, find, update_where,
}
use tuljai_stays.Base.Results.{
  Result, ok, err, unauthorized, other, ◌>>=◌, ◌>>◌, throw_if, or_throw,
}
use tuljai_stays.Store.{Role, owner, staff, admin, super_admin}
use tuljai_stays.Auth.Rows.{
  User, AuthProvider, AuthIdentity, AuthDb, AuthConfig, AuthAction, FreshSession, Secrets,
  TotpCredential,
}
use tuljai_stays.Auth.Tokens.{AuthTokens, SignInDevice, sign_in}
use tuljai_stays.Auth.Otp.{enter}
use tuljai_stays.Auth.Throttle.{
  assert_admin_login_not_throttled, record_admin_login_failure, clear_admin_login_failures,
}

abbrev is_password : AuthProvider → Bool
is_password AuthProvider.password = true
is_password _ = false

abbrev pub with_email : ℕ → AuthIdentity → Bool
with_email email i = is_password i.provider && i.provider_subject == email

abbrev owner_app_allows : Role → Bool
owner_app_allows owner = true
owner_app_allows staff = true
owner_app_allows admin = true
owner_app_allows super_admin = true
owner_app_allows _ = false

abbrev pub has_allowed_owner_role : User → Bool
has_allowed_owner_role user = any owner_app_allows user.roles

abbrev is_admin_account : Role → Bool
is_admin_account admin = true
is_admin_account super_admin = true
is_admin_account _ = false

-- The account behind an e-mail and a password, if it may use the application.
unfoldable pub check_password : Secrets → (User → Bool) → ℕ → ℕ → AuthDb → Result User
check_password secrets may_enter email password seen = do
  identity ← or_throw (find (with_email email) seen.auth_identities) unauthorized
  hash ← or_throw identity.password_hash unauthorized
  user ← or_throw (find (λ u. u.id == identity.user_id) seen.users) other
  throw_if (user.is_deleted || not user.is_active) unauthorized
  throw_if (not (may_enter user)) unauthorized
  throw_if (not (secrets.verify_secret password hash)) unauthorized
  ok user

module _ (secrets : Secrets) (config : AuthConfig) (fresh : FreshSession) (device : SignInDevice)
    (now later : ℕ) where
  abbrev pub entered_db : ℕ → AuthDb → AuthDb
  entered_db user_id db = record db {
    users = update_where (λ u. u.id == user_id) (enter now) db.users;
  }

  -- `user.update`, then the tokens and the session.
  unfoldable pub enter_account : AuthAction → AuthDb → Result User → Result AuthTokens × AuthDb
  unfolding sign_in
  enter_account action current (err e) = (err e, current)
  enter_account action current (ok user) =
      sign_in secrets config fresh (enter now user) device (some action) now later
        (entered_db user.id current)

  unfoldable pub owner_login : ℕ → ℕ → AuthDb → AuthDb → Result AuthTokens × AuthDb
  unfolding check_password enter_account
  owner_login email password seen current =
      enter_account AuthAction.owner_password_login current (
        check_password secrets has_allowed_owner_role (secrets.normalize_email email) password seen)

-- An authenticator code is needed when two-factor sign-in is on. Only a wrong code is a failure that
-- the throttle counts.
pub data TotpCheck : Type 0 where
  passed wrong_code refused : TotpCheck

abbrev totp_answer : Option Bool → TotpCheck
totp_answer none = refused
totp_answer (some true) = passed
totp_answer (some false) = wrong_code

abbrev totp_code : Secrets → TotpCredential → Option ℕ → TotpCheck
totp_code secrets c none = refused
totp_code secrets c (some code) = totp_answer (secrets.verify_totp c.secret_encrypted code)

abbrev totp_of : Secrets → Option ℕ → Option TotpCredential → TotpCheck
totp_of secrets code none = passed
totp_of secrets code (some c) = if c.enabled then totp_code secrets c code else passed

unfoldable pub assert_admin_totp : Secrets → ℕ → Option ℕ → AuthDb → TotpCheck
assert_admin_totp secrets user_id code seen =
    totp_of secrets code (find (λ c. c.user_id == user_id) seen.admin_totp_credentials)

-- The keys `email:` and `ip:`, whose address may be 'unknown'.
abbrev pub throttle_keys : ℕ → ℕ → List ℕ
throttle_keys email ip_address = 2 * email ∷ (2 * ip_address + 1) ∷ []

module _ (secrets : Secrets) (config : AuthConfig) (fresh : FreshSession) (device : SignInDevice)
    (now later : ℕ) where
  abbrev pub failed : List ℕ → AuthDb → AuthDb
  failed keys db = record db {
    admin_login_failures = record_admin_login_failure now keys db.admin_login_failures;
  }

  abbrev pub cleared : List ℕ → AuthDb → AuthDb
  cleared keys db = record db {
    admin_login_failures = clear_admin_login_failures keys db.admin_login_failures;
  }

  unfoldable pub admin_totp : List ℕ → AuthDb → User → TotpCheck → Result AuthTokens × AuthDb
  unfolding enter_account record_admin_login_failure clear_admin_login_failures
  admin_totp keys current user passed =
      enter_account secrets config fresh device now later AuthAction.admin_password_login
        (cleared keys current) (ok user)
  admin_totp keys current user wrong_code = (err unauthorized, failed keys current)
  admin_totp keys current user refused = (err unauthorized, current)

  unfoldable pub admin_password :
      Option ℕ → List ℕ → AuthDb → AuthDb → Result User → Result AuthTokens × AuthDb
  unfolding assert_admin_totp admin_totp
  admin_password code keys seen current (err e) = (err e, failed keys current)
  admin_password code keys seen current (ok user) =
      admin_totp keys current user (assert_admin_totp secrets user.id code seen)

  unfoldable pub admin_unthrottled :
      ℕ → ℕ → Option ℕ → List ℕ → AuthDb → AuthDb → Result (Unit {0}) → Result AuthTokens × AuthDb
  unfolding admin_password check_password
  admin_unthrottled email password code keys seen current (err e) = (err e, current)
  admin_unthrottled email password code keys seen current (ok _) =
      admin_password code keys seen current
        (check_password secrets (λ u. any is_admin_account u.roles) email password seen)

  unfoldable pub admin_login : ℕ → ℕ → Option ℕ → ℕ → AuthDb → AuthDb → Result AuthTokens × AuthDb
  unfolding admin_unthrottled assert_admin_login_not_throttled
  admin_login email password code ip_address seen current =
      let subject = secrets.normalize_email email in
      admin_unthrottled subject password code (throttle_keys subject ip_address) seen current (
        assert_admin_login_not_throttled now (throttle_keys subject ip_address)
          current.admin_login_failures)

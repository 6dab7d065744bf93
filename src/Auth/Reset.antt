-- ===== src/Auth/Reset.antt =====
-- Setting a password: `ownerForgotPassword`, `ownerResetPassword` and `adminSetPassword` of
-- backend/src/modules/auth/auth.service.ts.
use tuljai_stays.Base.{
  ℕ, Bool, false, ◌&&◌, ◌||◌, not, Option, none, some, List, ◌∷◌, ◌==◌, leb, is_none, is_some_eq,
  if◌then◌else◌, any, count, find, update_where,
}
use tuljai_stays.Base.Results.{
  Result, ok, err, bad_request, unauthorized, too_many_requests, other, ◌>>=◌, ◌>>◌, throw_if,
  or_throw,
}
use tuljai_stays.Auth.Rows.{
  User, AuthProvider, AuthIdentity, PasswordResetToken, AuthDb, AuthConfig, AuthAction, Secrets,
}
use tuljai_stays.Auth.Tokens.{add_seconds, log_action}
use tuljai_stays.Auth.Passwords.{with_email, has_allowed_owner_role}

abbrev recent_reset : AuthConfig → ℕ → ℕ → PasswordResetToken → Bool
recent_reset config now user_id t =
    leb now (add_seconds t.created_at config.password_reset_rate_limit_window_seconds)
    && t.user_id == user_id

unfoldable pub enforce_password_reset_rate_limit : AuthConfig → ℕ → ℕ → AuthDb → Result (Unit {0})
enforce_password_reset_rate_limit config now user_id db =
    throw_if
      (leb config.password_reset_rate_limit_max_requests
        (count (recent_reset config now user_id) db.password_reset_tokens))
      too_many_requests

-- The account of a password identity, or the one that has the e-mail itself.
abbrev pub account_of : ℕ → AuthDb → Option AuthIdentity → Option User
account_of email db (some i) = find (λ u. u.id == i.user_id) db.users
account_of email db none = find (λ u. is_some_eq u.email email) db.users

module _ (secrets : Secrets) (config : AuthConfig) (token_id raw_token now : ℕ) where
  abbrev pub new_reset_token : ℕ → ℕ → PasswordResetToken
  new_reset_token email user_id = record {
    id = token_id;
    user_id = user_id;
    email = email;
    token_hash = secrets.hash_token raw_token;
    expires_at = add_seconds now config.password_reset_ttl_seconds;
    consumed_at = none;
    created_at = now;
  }

  abbrev pub forgot_limited : ℕ → User → AuthDb → Result (Unit {0}) → Result (Unit {0}) × AuthDb
  forgot_limited email user current (err e) = (err e, current)
  forgot_limited email user current (ok _) = (
    ok tt,
    log_action AuthAction.owner_password_reset_requested (some user.id) (record current {
      password_reset_tokens = new_reset_token email user.id ∷ current.password_reset_tokens;
    }),
  )

  -- The same answer whether or not there is an account. The delivery of the mail is not modelled.
  unfoldable pub forgot_found : ℕ → AuthDb → AuthDb → Option User → Result (Unit {0}) × AuthDb
  unfolding enforce_password_reset_rate_limit
  forgot_found email seen current none = (ok tt, current)
  forgot_found email seen current (some user) =
      if user.is_deleted || not user.is_active || not (has_allowed_owner_role user)
      then (ok tt, current)
      else forgot_limited email user current
          (enforce_password_reset_rate_limit config now user.id seen)

  unfoldable pub owner_forgot_password : ℕ → AuthDb → AuthDb → Result (Unit {0}) × AuthDb
  unfolding forgot_found
  owner_forgot_password email seen current =
      let subject = secrets.normalize_email email in
      forgot_found subject seen current
        (account_of subject seen (find (with_email subject) seen.auth_identities))

-- `authIdentity.upsert`
unfoldable pub upsert_password : ℕ → ℕ → ℕ → ℕ → List AuthIdentity → List AuthIdentity
upsert_password new_id user_id email hash table =
    if any (with_email email) table
    then update_where (with_email email) (λ i. record i { password_hash = some hash }) table
    else record {
      id = new_id;
      user_id = user_id;
      provider = AuthProvider.password;
      provider_subject = email;
      email = some email;
      password_hash = some hash;
    }
      ∷ table

-- All refresh tokens of a user are revoked, and all sessions end.
unfoldable pub end_sessions : ℕ → ℕ → AuthDb → AuthDb
end_sessions now user_id db = record db {
  refresh_tokens =
      update_where (λ t. is_none t.revoked_at && t.user_id == user_id)
        (λ t. record t { revoked_at = some now }) db.refresh_tokens;
  user_sessions =
      update_where (λ s. s.user_id == user_id) (λ s. record s { is_active = false })
        db.user_sessions;
}

unfoldable pub check_reset : Secrets → ℕ → ℕ → AuthDb → Result PasswordResetToken
check_reset secrets now token seen = do
  t ←
      or_throw (find (λ t. t.token_hash == secrets.hash_token token) seen.password_reset_tokens)
        unauthorized
  user ← or_throw (find (λ u. u.id == t.user_id) seen.users) unauthorized
  throw_if
      (not (is_none t.consumed_at)
        || leb t.expires_at now
        || user.is_deleted
        || not user.is_active
        || not (has_allowed_owner_role user))
      unauthorized
  ok t

module _ (secrets : Secrets) (new_id salt now new_password : ℕ) where
  unfoldable pub set_password : ℕ → ℕ → AuthDb → AuthDb
  unfolding upsert_password end_sessions
  set_password user_id email db = end_sessions now user_id (record db {
    auth_identities =
        upsert_password new_id user_id email (secrets.hash_secret salt new_password)
          db.auth_identities;
  })

  abbrev pub consume_token : PasswordResetToken → AuthDb → AuthDb
  consume_token t db = record db {
    password_reset_tokens =
        update_where (λ x. x.id == t.id) (λ x. record x { consumed_at = some now })
          db.password_reset_tokens;
  }

  unfoldable pub reset_checked : AuthDb → Result PasswordResetToken → Result (Unit {0}) × AuthDb
  unfolding set_password
  reset_checked current (err e) = (err e, current)
  reset_checked current (ok t) = (
    ok tt,
    log_action AuthAction.owner_password_reset_completed (some t.user_id)
        (set_password t.user_id t.email (consume_token t current)),
  )

  unfoldable pub owner_reset_password : ℕ → AuthDb → AuthDb → Result (Unit {0}) × AuthDb
  unfolding check_reset reset_checked
  owner_reset_password token seen current =
      reset_checked current (check_reset secrets now token seen)

  abbrev pub set_found : ℕ → AuthDb → Result ℕ → Result (Unit {0}) × AuthDb
  set_found user_id current (err e) = (err e, current)
  set_found user_id current (ok email) =
      (ok tt, set_password user_id (secrets.normalize_email email) current)

  unfoldable pub admin_set_password : ℕ → AuthDb → AuthDb → Result (Unit {0}) × AuthDb
  unfolding set_password
  admin_set_password user_id seen current = set_found user_id current (
      or_throw (find (λ u. u.id == user_id) seen.users) other >>= λ u. or_throw u.email bad_request)

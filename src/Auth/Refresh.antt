-- ===== src/Auth/Refresh.antt =====
-- The renewal and the end of a session: `refreshToken` and `logout` of
-- backend/src/modules/auth/auth.service.ts.
use tuljai_stays.Base.{
  ℕ, Bool, true, false, ◌&&◌, ◌||◌, not, some, List, ◌==◌, leb, is_none, find, update_where,
}
use tuljai_stays.Base.Results.{
  Result, ok, err, bad_request, unauthorized, ◌>>=◌, ◌>>◌, throw_if, or_throw,
}
use tuljai_stays.Auth.Rows.{
  User, RefreshToken, UserSession, DeviceToken, AuthDb, AuthConfig, Secrets,
}
use tuljai_stays.Auth.Tokens.{AccessToken, issue_access_token}

-- The token of a request, with its session and its user.
pub record Renewal : Type 0 where
  pub token : RefreshToken
  pub session : UserSession
  pub user : User

unfoldable pub check_refresh : Secrets → ℕ → ℕ → ℕ → AuthDb → Result Renewal
check_refresh secrets now refresh_token device_id seen = do
  token ←
      or_throw (find (λ t. t.token_hash == secrets.hash_token refresh_token) seen.refresh_tokens)
        unauthorized
  throw_if
      (not (token.device_id == device_id)
        || not (is_none token.revoked_at)
        || leb token.expires_at now)
      unauthorized
  session ← or_throw (find (λ s. s.refresh_token_id == token.id) seen.user_sessions) unauthorized
  throw_if (not session.is_active || leb session.session_expires_at now) unauthorized
  user ← or_throw (find (λ u. u.id == token.user_id) seen.users) unauthorized
  throw_if (not user.is_active || user.is_deleted) unauthorized
  ok (record { token = token; session = session; user = user })

module _ (secrets : Secrets) (config : AuthConfig) where
  unfoldable pub refresh_checked : ℕ → ℕ → AuthDb → Result Renewal → Result AccessToken × AuthDb
  unfolding issue_access_token
  refresh_checked now later current (err e) = (err e, current)
  refresh_checked now later current (ok r) = (
    issue_access_token config r.user r.token.id r.session.session_expires_at later,
    record current {
      user_sessions =
          update_where (λ s. s.refresh_token_id == r.token.id)
            (λ s. record s { last_seen_at = now }) current.user_sessions;
    },
  )

  unfoldable pub refresh_token : ℕ → ℕ → ℕ → ℕ → AuthDb → AuthDb → Result AccessToken × AuthDb
  unfolding check_refresh refresh_checked
  refresh_token now later token device_id seen current =
      refresh_checked now later current (check_refresh secrets now token device_id seen)

  unfoldable pub logout_token : ℕ → ℕ → ℕ → AuthDb → Result RefreshToken
  logout_token user_id token device_id seen =
      or_throw
        (find
          (λ t.
            t.device_id == device_id
            && t.token_hash == secrets.hash_token token
            && t.user_id == user_id)
          seen.refresh_tokens)
        bad_request

  abbrev switch_off : ℕ → ℕ → Bool → List DeviceToken → List DeviceToken
  switch_off user_id device_id false table = table
  switch_off user_id device_id true table =
      update_where (λ t. t.device_id == device_id && t.user_id == user_id)
        (λ t. record t { is_active = false }) table

  unfoldable pub logout_found :
      ℕ → ℕ → ℕ → Bool → AuthDb → Result RefreshToken → Result (Unit {0}) × AuthDb
  logout_found user_id now device_id deactivate current (err e) = (err e, current)
  logout_found user_id now device_id deactivate current (ok t) = (
    ok tt,
    record current {
      refresh_tokens =
          update_where (λ x. x.id == t.id) (λ x. record x { revoked_at = some now })
            current.refresh_tokens;
      user_sessions =
          update_where (λ s. s.refresh_token_id == t.id && s.user_id == user_id)
            (λ s. record s { is_active = false; last_seen_at = now }) current.user_sessions;
      device_tokens = switch_off user_id device_id deactivate current.device_tokens;
    },
  )

  unfoldable pub logout : ℕ → ℕ → ℕ → ℕ → Bool → AuthDb → AuthDb → Result (Unit {0}) × AuthDb
  unfolding logout_token logout_found
  logout user_id now token device_id deactivate seen current =
      logout_found user_id now device_id deactivate current
        (logout_token user_id token device_id seen)

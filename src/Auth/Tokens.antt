-- ===== src/Auth/Tokens.antt =====
-- `issueTokens`, `issueAccessToken`, `saveDeviceToken` and `parseDurationSeconds` of
-- backend/src/modules/auth/auth.service.ts, and the end that all sign-ins share.
use tuljai_stays.Base.{
  ℕ, ◌+◌, ◌-◌, ◌*◌, ◌/◌, min, Bool, true, false, ◌&&◌, not, Option, none, some, List, ◌∷◌, ◌==◌,
  if◌then◌else◌, any, update_where,
}
use tuljai_stays.Base.Results.{Result, ok, err, unauthorized, ◌>>=◌, ◌>>◌, throw_if}
use tuljai_stays.Store.{Role}
use tuljai_stays.Auth.Rows.{
  User, RefreshToken, UserSession, DeviceToken, AppType, AuthDb, AuthConfig, AuthAction, Duration,
  DurationUnit, FreshSession, Secrets,
}

abbrev seconds_of : DurationUnit → ℕ
seconds_of DurationUnit.second = 1
seconds_of DurationUnit.minute = 60
seconds_of DurationUnit.hour = 60 * 60
seconds_of DurationUnit.day = 60 * 60 * 24

abbrev in_unit : ℕ → Option DurationUnit → ℕ
in_unit value none = value
in_unit value (some unit) = value * seconds_of unit

unfoldable pub parse_duration_seconds : Duration → ℕ
parse_duration_seconds d = in_unit d.value d.unit

abbrev pub add_seconds : ℕ → ℕ → ℕ
add_seconds at seconds = at + seconds * 1000

-- The claims of the access token, and how long it lives.
pub record AccessToken : Type 0 where
  pub sub : ℕ
  pub phone_number : Option ℕ
  pub roles : List Role
  pub sid : ℕ
  pub expires_in_seconds : ℕ
  pub session_expires_at : ℕ

unfoldable pub expires_in : AuthConfig → ℕ → ℕ → ℕ
unfolding parse_duration_seconds
expires_in config session_expires_at at =
    min (parse_duration_seconds config.access_token_ttl) ((session_expires_at - at) / 1000)

unfoldable pub issue_access_token : AuthConfig → User → ℕ → ℕ → ℕ → Result AccessToken
unfolding expires_in
issue_access_token config user refresh_token_id session_expires_at at =
    throw_if (expires_in config session_expires_at at == 0) unauthorized
    >> ok (record {
      sub = user.id;
      phone_number = user.phone_number;
      roles = user.roles;
      sid = refresh_token_id;
      expires_in_seconds = expires_in config session_expires_at at;
      session_expires_at = session_expires_at;
    })

pub record AuthTokens : Type 0 where
  pub access_token : AccessToken
  pub refresh_token : ℕ

module _ (secrets : Secrets) (config : AuthConfig) (fresh : FreshSession) where
  abbrev pub session_end : ℕ → ℕ
  session_end now = add_seconds now (config.session_max_age_days * 86400)

  unfoldable pub new_refresh_token : User → ℕ → ℕ → RefreshToken
  unfolding parse_duration_seconds
  new_refresh_token user device_id now = record {
    id = fresh.token_id;
    user_id = user.id;
    token_hash = secrets.hash_token fresh.refresh_token;
    device_id = device_id;
    expires_at =
        min (session_end now) (add_seconds now (parse_duration_seconds config.refresh_token_ttl));
    revoked_at = none;
  }

  -- The refresh token is stored before the access token is signed.
  unfoldable pub issue_tokens : User → ℕ → ℕ → ℕ → AuthDb → Result AuthTokens × AuthDb
  unfolding issue_access_token new_refresh_token
  issue_tokens user device_id now later db = (
    issue_access_token config user fresh.token_id (session_end now) later >>= λ access.
        ok (record { access_token = access; refresh_token = fresh.refresh_token }),
    record db { refresh_tokens = new_refresh_token user device_id now ∷ db.refresh_tokens },
  )

  abbrev pub new_session : User → ℕ → AppType → ℕ → UserSession
  new_session user device_id app now = record {
    id = fresh.session_id;
    user_id = user.id;
    refresh_token_id = fresh.token_id;
    device_id = device_id;
    app_type = app;
    is_active = true;
    session_expires_at = session_end now;
    last_seen_at = now;
  }

abbrev same_app : AppType → AppType → Bool
same_app AppType.pilgrim_app AppType.pilgrim_app = true
same_app AppType.owner_app AppType.owner_app = true
same_app AppType.admin_panel AppType.admin_panel = true
same_app _ _ = false

abbrev of_device : ℕ → ℕ → AppType → DeviceToken → Bool
of_device user_id device_id app t =
    t.user_id == user_id && t.device_id == device_id && same_app t.app_type app

abbrev elsewhere : ℕ → ℕ → AppType → ℕ → DeviceToken → Bool
elsewhere user_id device_id app fcm_token t =
    same_app t.app_type app
    && not (t.device_id == device_id)
    && t.fcm_token == fcm_token
    && t.user_id == user_id

-- The same messaging token on another device is switched off; the device's own row is renewed.
unfoldable pub save_device_token : ℕ → ℕ → AppType → ℕ → AuthDb → AuthDb
save_device_token user_id device_id app fcm_token db =
    let others =
      update_where (elsewhere user_id device_id app fcm_token) (λ t. record t { is_active = false })
        db.device_tokens in
    record db {
      device_tokens =
          if any (of_device user_id device_id app) others
          then update_where (of_device user_id device_id app)
              (λ t. record t { fcm_token = fcm_token; is_active = true }) others
          else record {
            user_id = user_id;
            device_id = device_id;
            fcm_token = fcm_token;
            app_type = app;
            is_active = true;
          }
            ∷ others;
    }

abbrev pub save_if_given : ℕ → ℕ → AppType → Option ℕ → AuthDb → AuthDb
save_if_given user_id device_id app none db = db
save_if_given user_id device_id app (some fcm_token) db =
    save_device_token user_id device_id app fcm_token db

abbrev pub log_action : AuthAction → Option ℕ → AuthDb → AuthDb
log_action action actor db = record db {
  audit_logs = record { action = action; actor_user_id = actor } ∷ db.audit_logs;
}

-- The device a sign-in comes from.
pub record SignInDevice : Type 0 where
  pub device_id : ℕ
  pub app_type : AppType
  pub fcm_token : Option ℕ

-- `issueTokens`, `userSession.create`, `saveDeviceToken` and the audit log, one after the other.
module _ (secrets : Secrets) (config : AuthConfig) (fresh : FreshSession) where
  abbrev pub with_session :
      User
      → SignInDevice
      → ℕ
      → Option AuthAction
      → Result AuthTokens × AuthDb
      → Result AuthTokens × AuthDb
  with_session user device now action (err e, db) = (err e, db)
  with_session user device now none (ok tokens, db) = (
    ok tokens,
    save_if_given user.id device.device_id device.app_type device.fcm_token (record db {
      user_sessions =
          new_session secrets config fresh user device.device_id device.app_type now
          ∷ db.user_sessions;
    }),
  )
  with_session user device now (some action) (ok tokens, db) = (
    ok tokens,
    log_action action (some user.id) (
        save_if_given user.id device.device_id device.app_type device.fcm_token (record db {
          user_sessions =
              new_session secrets config fresh user device.device_id device.app_type now
              ∷ db.user_sessions;
        })),
  )

  unfoldable pub sign_in :
      User → SignInDevice → Option AuthAction → ℕ → ℕ → AuthDb → Result AuthTokens × AuthDb
  unfolding issue_tokens save_device_token
  sign_in user device action now later db =
      with_session user device now action
        (issue_tokens secrets config fresh user device.device_id now later db)

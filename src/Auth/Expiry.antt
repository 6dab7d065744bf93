-- ===== src/Auth/Expiry.antt =====
-- How long an access token lives (backend/src/modules/auth/auth.service.ts).
use tuljai_stays.Base.{
  ℕ, ◌+◌, ◌*◌, ◌-◌, ◌/◌, ◌≤◌, ◌<◌, ◌≡◌, min, refl, arith, Bool, List, [], ◌∷◌, ◌==◌, update_where,
  if◌then◌else◌, Bool-cases, inl, inr,
}
use tuljai_stays.Base.Results.{Result, ok, err, unauthorized, throw_if_then-eq-ok}
use tuljai_stays.Auth.Rows.{User, UserSession, AuthDb, AuthConfig, Secrets}
use tuljai_stays.Auth.Tokens.{AccessToken, expires_in, issue_access_token, parse_duration_seconds}
use tuljai_stays.Auth.Refresh.{Renewal, check_refresh, refresh_checked, refresh_token}

seconds_fit :
    (s ttl stop at : ℕ)
    → s ≡ min ttl ((stop - at) / 1000)
    → 0 < s
    → (s ≤ ttl) × (at + s * 1000 ≤ stop)
seconds_fit s ttl stop at e h = (ground arith, ground arith)

issue_access_token-bounds :
    (config : AuthConfig) (user : User) (sid stop at : ℕ) {a : AccessToken}
    → issue_access_token config user sid stop at ≡ ok a
    → (0 < a.expires_in_seconds)
      × (a.expires_in_seconds ≤ parse_duration_seconds config.access_token_ttl)
      × (at + a.expires_in_seconds * 1000 ≤ stop)
      × (a.session_expires_at ≡ stop)
      × (a.sub ≡ user.id)
unfolding issue_access_token expires_in
issue_access_token-bounds config user sid stop at {a} h =
    let (alive, made) = throw_if_then-eq-ok _ unauthorized _ h in
    let s = min (parse_duration_seconds config.access_token_ttl) ((stop - at) / 1000) in
    let positive : 0 < s = ground arith in
    let (short, inside) =
      seconds_fit s (parse_duration_seconds config.access_token_ttl) stop at refl positive in
    let same : record {
      sub = user.id;
      phone_number = user.phone_number;
      roles = user.roles;
      sid = sid;
      expires_in_seconds = expires_in config stop at;
      session_expires_at = stop;
    }
        ≡ a =
      cc in
    rw (← same) (positive, short, inside, refl, refl)

-- What a renewal gives: a token of the session that the refresh token has in what was read, for its
-- user, alive and over no later than the session.
abbrev pub RenewedFrom : AuthConfig → ℕ → AccessToken → Renewal → Type 0
RenewedFrom config later a r =
    (0 < a.expires_in_seconds)
    × (a.expires_in_seconds ≤ parse_duration_seconds config.access_token_ttl)
    × (later + a.expires_in_seconds * 1000 ≤ r.session.session_expires_at)
    × (a.session_expires_at ≡ r.session.session_expires_at)
    × (a.sub ≡ r.user.id)

-- When each session is over, by the refresh token that it belongs to.
abbrev pub ends : List UserSession → List (ℕ × ℕ)
ends [] = []
ends (s ∷ ss) = (s.refresh_token_id, s.session_expires_at) ∷ ends ss

ends-update_where :
    (p : UserSession → Bool) (now : ℕ) (ss : List UserSession)
    → ends (update_where p (λ s. record s { last_seen_at = now }) ss) ≡ ends ss
unfolding update_where
ends-update_where p now [] = refl
ends-update_where p now (s ∷ ss) =
    let rest = ends-update_where p now ss in
    elim (Bool-cases (p s)) [
      | inl e ↦ rw (e, if◌then◌else◌, rest) refl
      | inr e ↦ rw (e, if◌then◌else◌, rest) refl
    ]

-- What a request with a refresh token is answered: an error, or a token from a renewal that the
-- checks found.
abbrev pub Answered : AuthConfig → ℕ → Result Renewal → Result AccessToken → Type 0
Answered config later checked (err e) = Unit
Answered config later checked (ok a) =
    (r : Renewal) × (checked ≡ ok r) × RenewedFrom config later a r

-- A renewed access token belongs to the user of a refresh token that was found valid, lives no longer
-- than the configured time, and never outlives the session. Whatever its outcome, a renewal leaves
-- the end of every session and the refresh tokens as they were.
pub refresh_token-bounds :
    (secrets : Secrets) (config : AuthConfig) (now later token device_id : ℕ)
    (seen current : AuthDb)
    → Answered config later
        (check_refresh secrets now token device_id seen)
        (refresh_token secrets config now later token device_id seen current).0
      × (ends (refresh_token secrets config now later token device_id seen current).1.user_sessions
          ≡ ends current.user_sessions)
      × ((refresh_token secrets config now later token device_id seen current).1.refresh_tokens
          ≡ current.refresh_tokens)
unfolding refresh_token refresh_checked
refresh_token-bounds secrets config now later token device_id seen current =
    checked (check_refresh secrets now token device_id seen)
  where
    issued :
        (r : Renewal) (o : Result AccessToken)
        → issue_access_token config r.user r.token.id r.session.session_expires_at later ≡ o
        → Answered config later (ok r) o
    issued r (err e) h = tt
    issued r (ok a) h = (
      r,
      refl,
      issue_access_token-bounds config r.user r.token.id r.session.session_expires_at later h,
    )

    checked :
        (c : Result Renewal)
        → Answered config later c (refresh_checked secrets config now later current c).0
          × (ends (refresh_checked secrets config now later current c).1.user_sessions
              ≡ ends current.user_sessions)
          × ((refresh_checked secrets config now later current c).1.refresh_tokens
              ≡ current.refresh_tokens)
    checked (err e) = (tt, refl, refl)
    checked (ok r) = (
      issued r (issue_access_token config r.user r.token.id r.session.session_expires_at later)
          refl,
      ends-update_where (λ s. s.refresh_token_id == r.token.id) now current.user_sessions,
      refl,
    )

-- ===== src/Auth/Ended.antt =====
-- A refresh token that was revoked (backend/src/modules/auth/auth.service.ts).
use tuljai_stays.Base.{
  ℕ, ◌≡◌, refl, arith, Bool, true, false, ◌&&◌, ◌||◌, not, Option, none, some, List, [], ◌∷◌, ◌==◌,
  leb, is_none, is_some_eq, find, any, update_where, Bool-cases, Option-cases, inl, inr,
}
use tuljai_stays.Base.Results.{
  Result, ok, err, unauthorized, other, throw_if, or_throw, ◌>>=◌, bind_outcome,
}
use tuljai_stays.Auth.Rows.{
  User, OtpRequest, RefreshToken, AuthDb, AuthConfig, AuthAction, FreshSession, AppType, Secrets,
}
use tuljai_stays.Auth.Tokens.{
  AuthTokens, SignInDevice, sign_in, issue_tokens, new_refresh_token, with_session, save_if_given,
  save_device_token,
}
use tuljai_stays.Auth.Refresh.{check_refresh, refresh_checked, refresh_token}
use tuljai_stays.Auth.Otp.{
  otp_checked, OtpCheck, wrong, right, login_user, user_entered, enter, consumed_db,
}
use tuljai_stays.Auth.Passwords.{
  enter_account, TotpCheck, passed, wrong_code, refused, admin_totp, admin_password,
  admin_unthrottled, entered_db, cleared,
}

abbrev pub live_hash : ℕ → RefreshToken → Bool
live_hash h t = t.token_hash == h && is_none t.revoked_at

-- No refresh token with the hash `h` may be renewed.
abbrev pub Ended : ℕ → AuthDb → Type 0
Ended h db = any (live_hash h) db.refresh_tokens ≡ false

pub any-update_where-false :
    {A : Type 0} (p q : A → Bool) (f : A → A)
    → ((x : A) → p x ≡ false → q x ≡ true → p (f x) ≡ false)
    → (xs : List A) → any p xs ≡ false
    → any p (update_where q f xs) ≡ false
unfolding any update_where
any-update_where-false p q f h [] e = refl
any-update_where-false p q f h (x ∷ xs) e =
    let rest : any p xs ≡ false → any p (update_where q f xs) ≡ false =
      any-update_where-false p q f h xs in
    let this = h x in ground (arith, rest, this)

pub find-any-false :
    {A : Type 0} (p q : A → Bool) (xs : List A) {x : A}
    → any (λ y. p y && q y) xs ≡ false
    → find p xs ≡ some x
    → q x ≡ false
unfolding any find
find-any-false p q [] h e = cc
find-any-false p q (y ∷ ys) {x} h e =
    let rest : any (λ y. p y && q y) ys ≡ false → find p ys ≡ some x → q x ≡ false =
      find-any-false p q ys in
    elim (Bool-cases (p y)) [ inl c ↦ ground (arith, c) | inr c ↦ ground (arith, c, rest) ]

pub refresh-Ended :
    (secrets : Secrets) (config : AuthConfig) (now later token device_id : ℕ) (db current : AuthDb)
    → Ended (secrets.hash_token token) db
    → (refresh_token secrets config now later token device_id db current)
      ≡ (err unauthorized, current)
unfolding refresh_token check_refresh refresh_checked ◌>>=◌
refresh-Ended secrets config now later token device_id db current h =
    let p : RefreshToken → Bool = λ t. t.token_hash == secrets.hash_token token in
    elim (Option-cases (find p db.refresh_tokens)) [
      | inl e ↦ rw e refl
      | inr (t, e) ↦
          let revoked : is_none t.revoked_at ≡ false =
            find-any-false p (λ t. is_none t.revoked_at) db.refresh_tokens h e in
          let stop : throw_if
                (not (t.device_id == device_id)
                  || not (is_none t.revoked_at)
                  || leb t.expires_at now)
                unauthorized
              ≡ err unauthorized =
            ground (arith, revoked) in
          rw (e, stop) refl
    ]

save_if_given-refresh_tokens :
    (user_id device_id : ℕ) (app : AppType) (o : Option ℕ) (db : AuthDb)
    → (save_if_given user_id device_id app o db).refresh_tokens ≡ db.refresh_tokens
unfolding save_device_token
save_if_given-refresh_tokens user_id device_id app none db = refl
save_if_given-refresh_tokens user_id device_id app (some fcm_token) db = refl

with_session-Ended :
    (h : ℕ) (secrets : Secrets) (config : AuthConfig) (fresh : FreshSession) (user : User)
    (device : SignInDevice) (now : ℕ) (action : Option AuthAction)
    (out : Result AuthTokens × AuthDb)
    → Ended h out.1
    → Ended h (with_session secrets config fresh user device now action out).1
with_session-Ended h secrets config fresh user device now action (err e, db) ended = ended
with_session-Ended h secrets config fresh user device now none (ok tokens, db) ended =
    rw (save_if_given-refresh_tokens user.id device.device_id device.app_type device.fcm_token _)
      ended
with_session-Ended h secrets config fresh user device now (some action) (ok tokens, db) ended =
    rw (save_if_given-refresh_tokens user.id device.device_id device.app_type device.fcm_token _)
      ended

pub sign_in-Ended :
    (h : ℕ) (secrets : Secrets) (config : AuthConfig) (fresh : FreshSession) (user : User)
    (device : SignInDevice) (action : Option AuthAction) (now later : ℕ) (db : AuthDb)
    → (secrets.hash_token fresh.refresh_token == h) ≡ false
    → Ended h db
    → Ended h (sign_in secrets config fresh user device action now later db).1
unfolding sign_in issue_tokens new_refresh_token any
sign_in-Ended h secrets config fresh user device action now later db new ended =
    with_session-Ended h secrets config fresh user device now action
      (issue_tokens secrets config fresh user device.device_id now later db)
      (ground (arith, new, ended))

pub enter_account-Ended :
    (h : ℕ) (secrets : Secrets) (config : AuthConfig) (fresh : FreshSession) (device : SignInDevice)
    (now later : ℕ) (action : AuthAction) (db : AuthDb) (r : Result User)
    → (secrets.hash_token fresh.refresh_token == h) ≡ false
    → Ended h db
    → Ended h (enter_account secrets config fresh device now later action db r).1
unfolding enter_account
enter_account-Ended h secrets config fresh device now later action db (err e) new ended = ended
enter_account-Ended h secrets config fresh device now later action db (ok user) new ended =
    sign_in-Ended h secrets config fresh (enter now user) device (some action) now later
      (entered_db secrets config fresh device now later user.id db) new ended

module _ (h : ℕ) (secrets : Secrets) (config : AuthConfig) (fresh : FreshSession)
    (device : SignInDevice) (now later : ℕ)
    (new : (secrets.hash_token fresh.refresh_token == h) ≡ false) where
  admin_totp-Ended :
      (keys : List ℕ) (db : AuthDb) (user : User) (c : TotpCheck)
      → Ended h db
      → Ended h (admin_totp secrets config fresh device now later keys db user c).1
  unfolding admin_totp
  admin_totp-Ended keys db user passed ended =
      enter_account-Ended h secrets config fresh device now later AuthAction.admin_password_login
        (cleared secrets config fresh device now later keys db) (ok user) new ended
  admin_totp-Ended keys db user wrong_code ended = ended
  admin_totp-Ended keys db user refused ended = ended

  admin_password-Ended :
      (code : Option ℕ) (keys : List ℕ) (seen db : AuthDb) (r : Result User)
      → Ended h db
      → Ended h (admin_password secrets config fresh device now later code keys seen db r).1
  unfolding admin_password
  admin_password-Ended code keys seen db (err e) ended = ended
  admin_password-Ended code keys seen db (ok user) ended = admin_totp-Ended keys db user _ ended

  pub admin_unthrottled-Ended :
      (email password : ℕ) (code : Option ℕ) (keys : List ℕ) (seen db : AuthDb)
      (r : Result (Unit {0}))
      → Ended h db
      → Ended h
          (admin_unthrottled secrets config fresh device now later email password code keys seen db
            r).1
  unfolding admin_unthrottled
  admin_unthrottled-Ended email password code keys seen db (err e) ended = ended
  admin_unthrottled-Ended email password code keys seen db (ok _) ended =
      admin_password-Ended code keys seen db _ ended

  login_user-Ended :
      (phone_number otp : ℕ) (r : OtpRequest) (o : Option User) (db : AuthDb)
      → Ended h db
      → Ended h
          (user_entered secrets config fresh device now later phone_number otp r db
            (login_user fresh.user_id now phone_number o db)).1
  unfolding login_user
  login_user-Ended phone_number otp r (some u) db ended =
      bind_outcome
        (λ c.
          Ended h (user_entered secrets config fresh device now later phone_number otp r db c).1)
        (or_throw (find (λ x. x.id == u.id) db.users) other) _ (λ e. ended)
        (λ row _.
          sign_in-Ended h secrets config fresh (enter now row) device (some AuthAction.otp_verified)
            now later
            (consumed_db secrets config fresh device now later phone_number otp r
              (record db { users = update_where (λ x. x.id == u.id) (enter now) db.users }))
            new ended)
  login_user-Ended phone_number otp r none db ended =
      bind_outcome
        (λ c.
          Ended h (user_entered secrets config fresh device now later phone_number otp r db c).1)
        (throw_if (any (λ u. is_some_eq u.phone_number phone_number) db.users) other) _ (λ e. ended)
        (λ _ _.
          sign_in-Ended h secrets config fresh _ device (some AuthAction.otp_verified) now later _
            new ended)

  pub otp_checked-Ended :
      (phone_number otp : ℕ) (db : AuthDb) (c : Result OtpCheck)
      → Ended h db
      → Ended h (otp_checked secrets config fresh device now later phone_number otp db c).1
  unfolding otp_checked
  otp_checked-Ended phone_number otp db (err e) ended = ended
  otp_checked-Ended phone_number otp db (ok (wrong r)) ended = ended
  otp_checked-Ended phone_number otp db (ok (right r existing)) ended =
      login_user-Ended phone_number otp r existing db ended

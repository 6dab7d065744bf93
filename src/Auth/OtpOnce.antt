-- ===== src/Auth/OtpOnce.antt =====
-- How many sign-ins one-time passwords admit (backend/src/modules/auth/auth.service.ts), when the
-- checks of each request read the tables as they are.
use tuljai_stays.Base.{
  ℕ, suc, ◌+◌, ◌≤◌, ◌<◌, ◌≡◌, refl, arith, Bool, true, false, not, Option, none, some, List, [],
  ◌∷◌, ◌==◌, is_none, is_some_eq, find, any, count, update_where, if◌then◌else◌, Bool-cases, inl,
  inr,
}
use tuljai_stays.Base.Counts.{count-update_where_le}
use tuljai_stays.Base.Results.{
  Result, ok, err, Exception, unauthorized, other, throw_if, or_throw, bind_outcome, or_throw-eq-ok,
}
use tuljai_stays.Auth.Rows.{
  User, OtpRequest, AuthDb, AuthConfig, AuthAction, FreshSession, Secrets, AppType,
}
use tuljai_stays.Auth.Tokens.{
  AuthTokens, SignInDevice, sign_in, issue_tokens, with_session, save_if_given, save_device_token,
}
use tuljai_stays.Auth.Otp.{
  verify_otp, otp_checked, OtpCheck, wrong, check_otp, login_user, user_entered, consumed_db,
  unused_for, consume_otp, count_attempt,
}

-- A one-time password that may still be used.
abbrev pub unused : OtpRequest → Bool
unused r = is_none r.consumed_at

count-update_where_lt :
    {A : Type 0} (w p q : A → Bool) (f : A → A)
    → ((x : A) → w x ≡ true → p x ≡ true)
    → ((x : A) → q x ≡ true → p (f x) ≡ false)
    → (xs : List A) (t : A) → find w xs ≡ some t
    → q t ≡ true
    → count p (update_where q f xs) < count p xs
unfolding count update_where find
count-update_where_lt w p q f i h [] t e own = cc
count-update_where_lt w p q f i h (x ∷ xs) t e own =
    let rest : find w xs ≡ some t → count p (update_where q f xs) < count p xs =
      λ e'. count-update_where_lt w p q f i h xs t e' own in
    let fewer : count p (update_where q f xs) ≤ count p xs =
      count-update_where_le p p q f
        (λ y k. elim (Bool-cases (q y)) [
          | inl c ↦ ground (arith, c, h y c)
          | inr c ↦ ground (arith, c)
        ])
        xs in
    elim (Bool-cases (w x)) [
      | inl c ↦
          let found : find w (x ∷ xs) ≡ some x = rw (c, if◌then◌else◌) refl in
          let same : x ≡ t = cc in
          let mine : q x ≡ true = cc in
          let gone = h x mine in let counted = i x c in ground (arith, mine)
      | inr c ↦ elim (Bool-cases (q x)) [
        | inl d ↦ let gone = h x d in ground (arith, c, d, rest)
        | inr d ↦ ground (arith, c, d, rest)
      ]
    ]

save_if_given-otp_requests :
    (user_id device_id : ℕ) (app : AppType) (o : Option ℕ) (db : AuthDb)
    → (save_if_given user_id device_id app o db).otp_requests ≡ db.otp_requests
unfolding save_device_token
save_if_given-otp_requests user_id device_id app none db = refl
save_if_given-otp_requests user_id device_id app (some fcm_token) db = refl

with_session-otp_requests :
    (secrets : Secrets) (config : AuthConfig) (fresh : FreshSession) (user : User)
    (device : SignInDevice) (now : ℕ) (action : Option AuthAction)
    (out : Result AuthTokens × AuthDb)
    → (with_session secrets config fresh user device now action out).1.otp_requests
      ≡ out.1.otp_requests
with_session-otp_requests secrets config fresh user device now action (err e, db) = refl
with_session-otp_requests secrets config fresh user device now none (ok tokens, db) =
    save_if_given-otp_requests user.id device.device_id device.app_type device.fcm_token _
with_session-otp_requests secrets config fresh user device now (some action) (ok tokens, db) =
    save_if_given-otp_requests user.id device.device_id device.app_type device.fcm_token _

-- A sign-in uses one password up, and nothing brings one back.
abbrev pub Spent : AuthDb → Result AuthTokens × AuthDb → Type 0
Spent db out =
    (count unused out.1.otp_requests ≤ count unused db.otp_requests)
    × ((tokens : AuthTokens)
        → out.0 ≡ ok tokens
        → count unused out.1.otp_requests < count unused db.otp_requests)

module _ (secrets : Secrets) (config : AuthConfig) (fresh : FreshSession) (device : SignInDevice)
    (now later phone_number otp : ℕ) (db : AuthDb) where
  refused_Spent : (e : Exception) → Spent db (err e, db)
  refused_Spent e = (ground arith, λ tokens h. cc)

  entered_Spent :
      (r : OtpRequest) (user : User) (entered : AuthDb)
      → entered.otp_requests ≡ db.otp_requests
      → find (unused_for phone_number) db.otp_requests ≡ some r
      → Spent db (
          user_entered secrets config fresh device now later phone_number otp r db
            (ok (user, entered)))
  unfolding sign_in issue_tokens
  entered_Spent r user entered same found =
      let kept =
        with_session-otp_requests secrets config fresh user device now
          (some AuthAction.otp_verified)
          (issue_tokens secrets config fresh user device.device_id now later
            (consumed_db secrets config fresh device now later phone_number otp r entered)) in
      let fewer : count unused (update_where (λ x. x.id == r.id) (consume_otp now) db.otp_requests)
          < count unused db.otp_requests =
        count-update_where_lt (unused_for phone_number) unused (λ x. x.id == r.id) (consume_otp now)
          (λ x w. ground arith) (λ x q. refl) db.otp_requests r found (ground arith) in
      rw (kept, same) (ground arith, λ tokens h. fewer)

  login_Spent :
      (r : OtpRequest) (o : Option User)
      → find (unused_for phone_number) db.otp_requests ≡ some r
      → Spent db (
          user_entered secrets config fresh device now later phone_number otp r db
            (login_user fresh.user_id now phone_number o db))
  unfolding login_user
  login_Spent r (some u) found =
      bind_outcome
        (λ c. Spent db (user_entered secrets config fresh device now later phone_number otp r db c))
        (or_throw (find (λ x. x.id == u.id) db.users) other) _ refused_Spent
        (λ row _. entered_Spent r _ _ refl found)
  login_Spent r none found =
      bind_outcome
        (λ c. Spent db (user_entered secrets config fresh device now later phone_number otp r db c))
        (throw_if (any (λ u. is_some_eq u.phone_number phone_number) db.users) other) _
        refused_Spent (λ _ _. entered_Spent r _ _ refl found)

  wrong_Spent :
      (r : OtpRequest)
      → Spent db
          (otp_checked secrets config fresh device now later phone_number otp db (ok (wrong r)))
  unfolding otp_checked
  wrong_Spent r = (
    count-update_where_le unused unused (λ x. x.id == r.id) count_attempt (λ x h. ground arith)
        db.otp_requests,
    λ tokens h. cc,
  )

  verify_otp-Spent :
      Spent db (verify_otp secrets config fresh device now later phone_number otp db db)
  unfolding verify_otp check_otp otp_checked
  verify_otp-Spent =
      let P : Result OtpCheck → Type 0 =
        λ c. Spent db (otp_checked secrets config fresh device now later phone_number otp db c) in
      bind_outcome P _ _ refused_Spent λ r read.
        let found = or_throw-eq-ok _ unauthorized read in
        bind_outcome P _ _ refused_Spent λ _ _. bind_outcome P _ _ refused_Spent λ _ _.
          elim (Bool-cases (not (secrets.verify_secret otp r.otp_hash))) [
            | inl c ↦ rw (c, if◌then◌else◌) (wrong_Spent r)
            | inr c ↦
                rw (c, if◌then◌else◌)
                  (bind_outcome P _ _ refused_Spent λ _ _. login_Spent r _ found)
          ]

-- Attempts to sign in with one-time passwords, one after the other, and how many were admitted.
pub data OtpRun (db : AuthDb) : ℕ → AuthDb → Type 0 where
  no_attempt : OtpRun db 0 db
  turned_away :
      {n : ℕ} {t : AuthDb} (secrets : Secrets) (config : AuthConfig) (fresh : FreshSession)
      (device : SignInDevice) (now later phone_number otp : ℕ)
      → OtpRun db n t
      → OtpRun db n (verify_otp secrets config fresh device now later phone_number otp t t).1
  admitted :
      {n : ℕ} {t : AuthDb} (secrets : Secrets) (config : AuthConfig) (fresh : FreshSession)
      (device : SignInDevice) (now later phone_number otp : ℕ) (tokens : AuthTokens)
      → OtpRun db n t
      → (verify_otp secrets config fresh device now later phone_number otp t t).0 ≡ ok tokens
      → OtpRun db (suc n) (verify_otp secrets config fresh device now later phone_number otp t t).1

-- However often guests try, one request after the other, whatever the phone numbers, codes and times,
-- the sign-ins that are admitted and the passwords that are still unused are together no more than the
-- passwords that were unused before.
pub OtpRun-bounds :
    (db : AuthDb) {n : ℕ} {t : AuthDb}
    → OtpRun db n t
    → n + count unused t.otp_requests ≤ count unused db.otp_requests
OtpRun-bounds db no_attempt = ground arith
OtpRun-bounds db (turned_away {n} {t} secrets config fresh device now later phone_number otp run) =
    let before = OtpRun-bounds db run in
    let (kept, _) = verify_otp-Spent secrets config fresh device now later phone_number otp t in
    ground (arith, before, kept)
OtpRun-bounds db
      (admitted {n} {t} secrets config fresh device now later phone_number otp tokens run entered) =
    let before = OtpRun-bounds db run in
    let (_, used) = verify_otp-Spent secrets config fresh device now later phone_number otp t in
    let fewer = used tokens entered in ground (arith, before, fewer)

-- ===== src/Auth/Google.antt =====
-- `signInWithGoogle` of backend/src/modules/auth/auth.service.ts. What the identity service says of
-- an access token is a parameter.
use tuljai_stays.Base.{
  ℕ, Bool, true, false, ◌&&◌, Option, none, some, [], ◌∷◌, ◌==◌, if◌then◌else◌, any, find,
  update_where,
}
use tuljai_stays.Base.Results.{
  Result, ok, err, unauthorized, other, ◌>>=◌, ◌>>◌, throw_if, or_throw,
}
use tuljai_stays.Store.{pilgrim}
use tuljai_stays.Auth.Rows.{
  User, AuthProvider, AuthIdentity, AuthDb, AuthConfig, FreshSession, Secrets,
}
use tuljai_stays.Auth.Tokens.{AuthTokens, SignInDevice, sign_in}
use tuljai_stays.Auth.Otp.{locked_out}

pub record GoogleProfile : Type 0 where
  pub provider_subject : ℕ
  pub email : Option ℕ
  pub full_name : ℕ

abbrev same_email : Option ℕ → Option ℕ → Bool
same_email none none = true
same_email none (some _) = false
same_email (some a) none = false
same_email (some a) (some b) = a == b

abbrev is_google : AuthProvider → Bool
is_google AuthProvider.google = true
is_google _ = false

abbrev pub of_subject : ℕ → AuthIdentity → Bool
of_subject subject i = is_google i.provider && i.provider_subject == subject

abbrev user_of : AuthDb → Option AuthIdentity → Option User
user_of db none = none
user_of db (some i) = find (λ u. u.id == i.user_id) db.users

unfoldable pub check_google :
    (ℕ → Result GoogleProfile) → ℕ → AuthDb → Result (GoogleProfile × Option AuthIdentity)
check_google verify_google access_token seen = do
  profile ← verify_google access_token
  let identity = find (of_subject profile.provider_subject) seen.auth_identities
  throw_if (locked_out (user_of seen identity)) unauthorized
  ok (profile, identity)

module _ (secrets : Secrets) (config : AuthConfig) (fresh : FreshSession) (device : SignInDevice)
    (now later : ℕ) where
  abbrev known_as : GoogleProfile → User → User
  known_as p u = record u {
    display_name = some p.full_name;
    is_active = true;
    last_login_at = some now;
  }

  abbrev google_user : GoogleProfile → User
  google_user p = record {
    id = fresh.user_id;
    phone_number = none;
    email = none;
    display_name = some p.full_name;
    roles = pilgrim ∷ [];
    is_active = true;
    is_deleted = false;
    last_login_at = some now;
  }

  abbrev google_identity : GoogleProfile → AuthIdentity
  google_identity p = record {
    id = fresh.identity_id;
    user_id = fresh.user_id;
    provider = AuthProvider.google;
    provider_subject = p.provider_subject;
    email = p.email;
    password_hash = none;
  }

  -- The account is updated, and the identity when its e-mail is another one; or both are created.
  unfoldable pub google_account :
      GoogleProfile → Option AuthIdentity → AuthDb → Result (User × AuthDb)
  google_account p (some i) db = do
    row ← or_throw (find (λ u. u.id == i.user_id) db.users) other
    ok (
      known_as p row,
      record db {
        users = update_where (λ u. u.id == i.user_id) (known_as p) db.users;
        auth_identities =
            if same_email i.email p.email
            then db.auth_identities
            else update_where (λ x. x.id == i.id) (λ x. record x { email = p.email })
                db.auth_identities;
      },
    )
  google_account p none db =
      throw_if (any (of_subject p.provider_subject) db.auth_identities) other
      >> ok (
        google_user p,
        record db {
          users = google_user p ∷ db.users;
          auth_identities = google_identity p ∷ db.auth_identities;
        },
      )

  abbrev pub google_entered : AuthDb → Result (User × AuthDb) → Result AuthTokens × AuthDb
  google_entered current (err e) = (err e, current)
  google_entered current (ok (user, db)) =
      sign_in secrets config fresh user device none now later db

  unfoldable pub google_checked :
      AuthDb → Result (GoogleProfile × Option AuthIdentity) → Result AuthTokens × AuthDb
  unfolding google_account sign_in
  google_checked current (err e) = (err e, current)
  google_checked current (ok (p, identity)) =
      google_entered current (google_account p identity current)

  unfoldable pub sign_in_with_google :
      (ℕ → Result GoogleProfile) → ℕ → AuthDb → AuthDb → Result AuthTokens × AuthDb
  unfolding check_google google_checked
  sign_in_with_google verify_google access_token seen current =
      google_checked current (check_google verify_google access_token seen)

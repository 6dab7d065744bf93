-- ===== src/Auth/SignedOut.antt =====
-- What a password reset and a logout leave (backend/src/modules/auth/auth.service.ts).
use tuljai_stays.Base.{
  ℕ, ◌≤◌, ◌≡◌, refl, arith, Bool, true, false, ◌&&◌, List, [], ◌∷◌, ◌==◌, is_none, find, any, count,
  update_where, if◌then◌else◌, Bool-cases, inl, inr, some,
}
use tuljai_stays.Base.Results.{Result, ok, err, bad_request, or_throw-eq-ok}
use tuljai_stays.Auth.Rows.{RefreshToken, AuthDb, AuthConfig, PasswordResetToken, Secrets}
use tuljai_stays.Auth.Reset.{owner_reset_password, check_reset, reset_checked}
use tuljai_stays.Auth.Refresh.{logout, logout_found, logout_token}
use tuljai_stays.Auth.Ended.{Ended, live_hash}

any-update_where_gone :
    {A : Type 0} (p q : A → Bool) (f : A → A)
    → ((x : A) → p (if q x then f x else x) ≡ false)
    → (xs : List A) → any p (update_where q f xs) ≡ false
unfolding any update_where
any-update_where_gone p q f h [] = refl
any-update_where_gone p q f h (x ∷ xs) =
    let rest = any-update_where_gone p q f h xs in let this = h x in ground (arith, rest, this)

-- A user with no refresh token that may be renewed and no active session.
abbrev pub SignedOut : ℕ → AuthDb → Type 0
SignedOut user_id db =
    (any (λ t. t.user_id == user_id && is_none t.revoked_at) db.refresh_tokens ≡ false)
    × (any (λ s. s.user_id == user_id && s.is_active) db.user_sessions ≡ false)

-- A password reset that succeeds was made with a link that was found valid; it signs the owner out
-- everywhere, whatever sessions and tokens there are when it writes, and uses the link up.
pub owner_reset_password-SignedOut :
    (secrets : Secrets) (new_id salt now new_password token : ℕ) (seen current : AuthDb)
    {u : Unit {0}}
    → (owner_reset_password secrets new_id salt now new_password token seen current).0 ≡ ok u
    → (r : PasswordResetToken) × (check_reset secrets now token seen ≡ ok r)
      × SignedOut r.user_id
          (owner_reset_password secrets new_id salt now new_password token seen current).1
      × (any
            (λ x. x.id == r.id && is_none x.consumed_at)
            (owner_reset_password secrets new_id salt now new_password token seen
              current).1.password_reset_tokens
          ≡ false)
unfolding owner_reset_password
owner_reset_password-SignedOut secrets new_id salt now new_password token seen current {u} =
    checked (check_reset secrets now token seen) refl
  where
    written :
        (r : PasswordResetToken)
        → SignedOut r.user_id (reset_checked secrets new_id salt now new_password current (ok r)).1
          × (any
                (λ x. x.id == r.id && is_none x.consumed_at)
                (reset_checked secrets new_id salt now new_password current
                  (ok r)).1.password_reset_tokens
              ≡ false)
    written r = (
      (
        any-update_where_gone _ _ _ (λ x. ground arith) current.refresh_tokens,
        any-update_where_gone _ _ _ (λ x. ground arith) current.user_sessions,
      ),
      any-update_where_gone _ _ _ (λ x. ground arith) current.password_reset_tokens,
    )

    checked :
        (c : Result PasswordResetToken)
        → check_reset secrets now token seen ≡ c
        → (reset_checked secrets new_id salt now new_password current c).0 ≡ ok u
        → (r : PasswordResetToken) × (check_reset secrets now token seen ≡ ok r)
          × SignedOut r.user_id (reset_checked secrets new_id salt now new_password current c).1
          × (any
                (λ x. x.id == r.id && is_none x.consumed_at)
                (reset_checked secrets new_id salt now new_password current
                  c).1.password_reset_tokens
              ≡ false)
    checked (err e) read h = cc
    checked (ok r) read h = let (out, used) = written r in (r, read, out, used)

any-none_left :
    {A : Type 0} (p l q : A → Bool) (f : A → A)
    → ((x : A) → p x ≡ false → l (if q x then f x else x) ≡ false)
    → (xs : List A) → count p xs ≡ 0
    → any l (update_where q f xs) ≡ false
unfolding any update_where count
any-none_left p l q f off [] none_left = refl
any-none_left p l q f off (x ∷ xs) none_left =
    let out : p x ≡ false = ground arith in
    let this = off x out in
    let rest : any l (update_where q f xs) ≡ false =
      any-none_left p l q f off xs (ground (arith, out)) in
    ground (arith, this, rest)

count-found :
    {A : Type 0} (p w : A → Bool)
    → ((x : A) → w x ≡ true → p x ≡ true)
    → (xs : List A) (t : A) → find w xs ≡ some t
    → 1 ≤ count p xs
unfolding find count
count-found p w i [] t e = cc
count-found p w i (x ∷ xs) t e =
    let rest : find w xs ≡ some t → 1 ≤ count p xs = count-found p w i xs t in
    let this = i x in ground (arith, this, rest)

-- The row that a search finds is the only one with `p`, and the update takes it out of `l`.
any-only_updated :
    {A : Type 0} (p w l q : A → Bool) (f : A → A)
    → ((x : A) → w x ≡ true → p x ≡ true)
    → ((x : A) → p x ≡ false → l (if q x then f x else x) ≡ false)
    → ((x : A) → q x ≡ true → l (f x) ≡ false)
    → (xs : List A) (t : A) → find w xs ≡ some t
    → q t ≡ true
    → count p xs ≤ 1
    → any l (update_where q f xs) ≡ false
unfolding any update_where count find
any-only_updated p w l q f i off gone [] t e own one = refl
any-only_updated p w l q f i off gone (x ∷ xs) t e own one = elim (Bool-cases (w x)) [
  | inl c ↦
      let found : find w (x ∷ xs) ≡ some x = rw (c, if◌then◌else◌) refl in
      let same : x ≡ t = cc in
      let mine : q x ≡ true = cc in
      let counted = i x c in
      let this = gone x mine in
      let rest : any l (update_where q f xs) ≡ false =
        any-none_left p l q f off xs (ground (arith, counted)) in
      ground (arith, mine, this, rest)
  | inr c ↦
      let later : find w xs ≡ some t = ground (arith, c) in
      let some_left : 1 ≤ count p xs = count-found p w i xs t later in
      let not_this : p x ≡ false = ground (arith, some_left) in
      let this = off x not_this in
      let rest : any l (update_where q f xs) ≡ false =
        any-only_updated p w l q f i off gone xs t later own (ground (arith, not_this)) in
      ground (arith, this, rest)
]

-- Refresh tokens have different hashes, so a logout that succeeds leaves no live token with the
-- hash of the one it was given, when it writes the table that it read.
pub logout-Ended :
    (secrets : Secrets) (config : AuthConfig) (user_id now token device_id : ℕ) (deactivate : Bool)
    (db : AuthDb) {u : Unit {0}}
    → count (λ t. t.token_hash == secrets.hash_token token) db.refresh_tokens ≤ 1
    → (logout secrets config user_id now token device_id deactivate db db).0 ≡ ok u
    → Ended
        (secrets.hash_token token)
        (logout secrets config user_id now token device_id deactivate db db).1
unfolding logout logout_token logout_found
logout-Ended secrets config user_id now token device_id deactivate db {u} one =
    checked (logout_token secrets config user_id token device_id db) refl
  where
    checked :
        (c : Result RefreshToken)
        → logout_token secrets config user_id token device_id db ≡ c
        → (logout_found secrets config user_id now device_id deactivate db c).0 ≡ ok u
        → Ended
            (secrets.hash_token token)
            (logout_found secrets config user_id now device_id deactivate db c).1
    checked (err e) read h = cc
    checked (ok t) read h =
        any-only_updated (λ t. t.token_hash == secrets.hash_token token) _
          (live_hash (secrets.hash_token token)) (λ x. x.id == t.id) _ (λ x w. ground arith)
          (λ x off. ground arith) (λ x q. ground arith) db.refresh_tokens t
          (or_throw-eq-ok _ bad_request read) (ground arith) one

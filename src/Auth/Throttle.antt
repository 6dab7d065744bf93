-- ===== src/Auth/Throttle.antt =====
-- The throttle of the admin panel's sign-in: `assertAdminLoginNotThrottled`,
-- `recordAdminLoginFailure` and `clearAdminLoginFailures` of
-- backend/src/modules/auth/auth.service.ts. A key stands for an e-mail or an address, and a table
-- of failures holds at most one entry for each key.
use tuljai_stays.Base.{
  ℕ, ◌+◌, ◌*◌, Bool, false, ◌&&◌, not, Option, none, some, List, [], ◌∷◌, ◌==◌, leb, ltb,
  if◌then◌else◌, filter, find, update_where,
}
use tuljai_stays.Base.Results.{Result, ok, too_many_requests, ◌>>◌, throw_if}
use tuljai_stays.Auth.Rows.{LoginFailure}

abbrev pub exhausted : ℕ → Option LoginFailure → Bool
exhausted now none = false
exhausted now (some e) = ltb now e.reset_at && leb 5 e.count

abbrev pub of_key : ℕ → LoginFailure → Bool
of_key key e = e.key == key

unfoldable pub assert_admin_login_not_throttled : ℕ → List ℕ → List LoginFailure → Result (Unit {0})
assert_admin_login_not_throttled now [] failures = ok tt
assert_admin_login_not_throttled now (key ∷ keys) failures =
    throw_if (exhausted now (find (of_key key) failures)) too_many_requests
    >> assert_admin_login_not_throttled now keys failures

abbrev pub first_failure : ℕ → ℕ → LoginFailure
first_failure now key = record { key = key; count = 1; reset_at = now + 15 * 60 * 1000 }

abbrev pub one_more : LoginFailure → LoginFailure
one_more e = record e { count = e.count + 1 }

-- `entry.count += 1`, or a new entry when there is none or its time is over.
abbrev pub record_failure : ℕ → ℕ → Option LoginFailure → List LoginFailure → List LoginFailure
record_failure now key none failures = first_failure now key ∷ failures
record_failure now key (some e) failures =
    if leb e.reset_at now
    then first_failure now key ∷ filter (λ x. not (of_key key x)) failures
    else update_where (of_key key) one_more failures

unfoldable pub record_admin_login_failure : ℕ → List ℕ → List LoginFailure → List LoginFailure
record_admin_login_failure now [] failures = failures
record_admin_login_failure now (key ∷ keys) failures =
    record_admin_login_failure now keys
      (record_failure now key (find (of_key key) failures) failures)

unfoldable pub clear_admin_login_failures : List ℕ → List LoginFailure → List LoginFailure
clear_admin_login_failures [] failures = failures
clear_admin_login_failures (key ∷ keys) failures =
    clear_admin_login_failures keys (filter (λ x. not (of_key key x)) failures)

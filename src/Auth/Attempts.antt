-- ===== src/Auth/Attempts.antt =====
-- What the throttle of the admin panel's sign-in counts (backend/src/modules/auth/auth.service.ts).
use tuljai_stays.Base.{
  ℕ, ◌+◌, ◌≡◌, refl, ap, ◌∙◌, arith, false, zero, suc, not, Option, none, some, List, [], ◌∷◌, ◌==◌,
  leb, ltb, find, any, count, filter, update_where, if◌then◌else◌, Bool-cases, Option-cases,
  ==_refl, inl, inr,
}
use tuljai_stays.Base.Finds.{find-passes, find-update_where}
use tuljai_stays.Base.Results.{too_many_requests, throw_if, ◌>>=◌}
use tuljai_stays.Auth.Rows.{LoginFailure}
use tuljai_stays.Auth.Throttle.{
  exhausted, of_key, assert_admin_login_not_throttled, first_failure, one_more, record_failure,
  record_admin_login_failure,
}

-- The failures of a key that still count.
abbrev live_count : ℕ → Option LoginFailure → ℕ
live_count now none = 0
live_count now (some e) = if ltb now e.reset_at then e.count else 0

abbrev pub live_failures : ℕ → ℕ → List LoginFailure → ℕ
live_failures now key table = live_count now (find (of_key key) table)

find-filter_other :
    (k key : ℕ) (table : List LoginFailure)
    → (k == key) ≡ false
    → find (of_key k) (filter (λ x. not (of_key key x)) table) ≡ find (of_key k) table
unfolding find filter
find-filter_other k key [] h = refl
find-filter_other k key (x ∷ xs) h =
    let rest = find-filter_other k key xs h in
    elim (Bool-cases (x.key == key)) [
      | inl c ↦
          let other : x.key == k ≡ false = ground (arith, c, h) in rw (c, other, if◌then◌else◌) rest
      | inr c ↦ elim (Bool-cases (x.key == k)) [
        | inl d ↦ rw (c, d, if◌then◌else◌) refl
        | inr d ↦ rw (c, d, if◌then◌else◌) rest
      ]
    ]

find-one_more_other :
    (k key : ℕ) (table : List LoginFailure)
    → (k == key) ≡ false
    → find (of_key k) (update_where (of_key key) one_more table) ≡ find (of_key k) table
unfolding find update_where
find-one_more_other k key [] h = refl
find-one_more_other k key (x ∷ xs) h =
    let rest = find-one_more_other k key xs h in
    elim (Bool-cases (x.key == key)) [
      | inl c ↦
          let other : x.key == k ≡ false = ground (arith, c, h) in
          rw (c, if◌then◌else◌, other, if◌then◌else◌) rest
      | inr c ↦ elim (Bool-cases (x.key == k)) [
        | inl d ↦ rw (c, if◌then◌else◌, d, if◌then◌else◌) refl
        | inr d ↦ rw (c, if◌then◌else◌, d, if◌then◌else◌) rest
      ]
    ]

find-first :
    (now key : ℕ) (table : List LoginFailure)
    → find (of_key key) (first_failure now key ∷ table) ≡ some (first_failure now key)
unfolding find
find-first now key table = let hit = ==_refl key in rw (hit, if◌then◌else◌) refl

-- The entry of a key after one more failure at `at`.
abbrev bump : ℕ → ℕ → Option LoginFailure → LoginFailure
bump at key none = first_failure at key
bump at key (some e) = if leb e.reset_at at then first_failure at key else one_more e

record_failure-own :
    (at key : ℕ) (table : List LoginFailure)
    → find (of_key key) (record_failure at key (find (of_key key) table) table)
      ≡ some (bump at key (find (of_key key) table))
record_failure-own at key table = elim (Option-cases (find (of_key key) table)) [
  | inl e ↦ rw (e, find-first at key table) refl
  | inr (f, e) ↦ elim (Bool-cases (leb f.reset_at at)) [
    | inl c ↦
        rw (e, c, if◌then◌else◌, find-first at key (filter (λ x. not (of_key key x)) table)) refl
    | inr c ↦
        rw (e, c, if◌then◌else◌)
          (find-update_where (of_key key) (of_key key) one_more (λ x. refl) table e
            (find-passes (of_key key) table e))
  ]
]

record_failure-other :
    (now k key : ℕ) (table : List LoginFailure)
    → (key == k) ≡ false
    → find (of_key k) (record_failure now key (find (of_key key) table) table)
      ≡ find (of_key k) table
unfolding find
record_failure-other now k key table h =
    let h' : k == key ≡ false = ground arith in
    elim (Option-cases (find (of_key key) table)) [
      | inl e ↦ rw (e, h, if◌then◌else◌) refl
      | inr (f, e) ↦ elim (Bool-cases (leb f.reset_at now)) [
        | inl c ↦ rw (e, c, if◌then◌else◌, h, if◌then◌else◌) (find-filter_other k key table h')
        | inr c ↦ rw (e, c, if◌then◌else◌) (find-one_more_other k key table h')
      ]
    ]

-- When the failures of a key stop counting, once one more is recorded at `at`: a window that is open
-- stays, and a new one lasts fifteen minutes.
abbrev pub window_end : ℕ → Option LoginFailure → ℕ
window_end at none = at + 900000
window_end at (some e) = if ltb at e.reset_at then e.reset_at else at + 900000

-- What counts at `now` of a key with that entry, after `n` more failures at `at`.
abbrev pub failures_after : ℕ → ℕ → ℕ → Option LoginFailure → ℕ
failures_after now at zero o = live_count now o
failures_after now at (suc n) o = if ltb now (window_end at o) then suc n + live_count at o else 0

failures_after-bump :
    (now at key n : ℕ) (o : Option LoginFailure)
    → failures_after now at n (some (bump at key o)) ≡ failures_after now at (suc n) o
failures_after-bump now at key zero none = ground arith
failures_after-bump now at key (suc n) none = ground arith
failures_after-bump now at key zero (some e) = ground arith
failures_after-bump now at key (suc n) (some e) = ground arith

-- When recordAdminLoginFailure has recorded the listed keys at `at`, what counts of a key that is
-- listed is what counted at `at` and one more for each time it is listed, up to the end of its window,
-- and nothing from then on. The window is the one that was open at `at`, or else ends fifteen minutes
-- after `at`. A key that is not listed counts as before.
pub record_admin_login_failure-counts :
    (now at k : ℕ) (keys : List ℕ) (table : List LoginFailure)
    → live_failures now k (record_admin_login_failure at keys table)
      ≡ failures_after now at (count (λ key. key == k) keys) (find (of_key k) table)
unfolding record_admin_login_failure count
record_admin_login_failure-counts now at k [] table = refl
record_admin_login_failure-counts now at k (key ∷ keys) table =
    let n = count (λ x. x == k) keys in
    let table' = record_failure at key (find (of_key key) table) table in
    let rest = record_admin_login_failure-counts now at k keys table' in
    elim (Bool-cases (key == k)) [
      | inl d ↦
          let same : key ≡ k = ground (arith, d) in
          let own : find (of_key k) table' ≡ some (bump at k (find (of_key k) table)) =
            rw (← same) (record_failure-own at key table) in
          let one : 1 + n ≡ suc n = ground arith in
          rw (d, if◌then◌else◌, one)
            (rest
              ∙ ap (failures_after now at n) own
              ∙ failures_after-bump now at k n (find (of_key k) table))
      | inr d ↦
          let same : 0 + n ≡ n = ground arith in
          rw (d, if◌then◌else◌, same)
            (rest ∙ ap (failures_after now at n) (record_failure-other at k key table d))
    ]

exhausted-eq : (now : ℕ) (o : Option LoginFailure) → exhausted now o ≡ leb 5 (live_count now o)
exhausted-eq now none = ground arith
exhausted-eq now (some e) = ground arith

-- assertAdminLoginNotThrottled refuses exactly when one of the keys has five failures or more that
-- still count.
pub assert_admin_login_not_throttled-eq :
    (now : ℕ) (keys : List ℕ) (table : List LoginFailure)
    → assert_admin_login_not_throttled now keys table
      ≡ throw_if (any (λ k. leb 5 (live_failures now k table)) keys) too_many_requests
unfolding assert_admin_login_not_throttled any ◌>>=◌
assert_admin_login_not_throttled-eq now [] table = refl
assert_admin_login_not_throttled-eq now (key ∷ keys) table =
    let rest = assert_admin_login_not_throttled-eq now keys table in
    elim (Bool-cases (leb 5 (live_failures now key table))) [
      | inl c ↦ rw (exhausted-eq now (find (of_key key) table), c) refl
      | inr c ↦ rw (exhausted-eq now (find (of_key key) table), c) rest
    ]

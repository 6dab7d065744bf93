-- ===== src/Bookings/Scheduler.antt =====
-- The expiry cycle of backend/src/modules/bookings/booking-scheduler.service.ts. Its parts run at
-- the same time and write different tables; here they run one after the other. The retry of failed
-- notifications is left out.
use tuljai_stays.Base.{
  ℕ, ◌≡◌, refl, arith, Bool, true, false, ◌&&◌, not, List, [], ◌∷◌, ◌==◌, leb, any, count, filter,
  update_where, if◌then◌else◌, Bool-cases, inl, inr,
}
use tuljai_stays.Store.{Db}
use tuljai_stays.Store.Status.{TokenStatus, BookingStatus, token_active}
use tuljai_stays.Store.Rows.{QrToken, Booking}
use tuljai_stays.Bookings.Lifecycle.{
  overdue, expire_one, expire_each, expire_pending_bookings, set_status,
}
use tuljai_stays.Locks.Defs.{lapsed, expire_locks}
use tuljai_stays.Qr.Issue.{set_token}

abbrev pub run_out : ℕ → QrToken → Bool
run_out now t = leb t.expires_at now && token_active t.status

unfoldable pub expire_qr_tokens : ℕ → Db → ℕ × Db
expire_qr_tokens now db = (
  count (run_out now) db.qr_tokens,
  record db { qr_tokens = update_where (run_out now) (set_token TokenStatus.expired) db.qr_tokens },
)

-- How many holds, bookings and tokens expired.
unfoldable pub run_expiry_cycle : ℕ → Db → (ℕ × ℕ × ℕ) × Db
unfolding expire_locks expire_pending_bookings expire_qr_tokens
run_expiry_cycle now db =
    let (locks, after_locks) = expire_locks now db in
    let (bookings, after_bookings) = expire_pending_bookings now after_locks after_locks in
    let (tokens, after_tokens) = expire_qr_tokens now after_bookings in
    ((locks, bookings, tokens), after_tokens)

-- A booking that is overdue and not in the list that is worked off.
abbrev missed : ℕ → List Booking → Booking → Bool
missed now bs x = overdue now x && not (any (λ b. b.id == x.id) bs)

any-weaker :
    {A : Type 0} (p q s : A → Bool) (f : A → A)
    → ((x : A) → s x ≡ false → p x ≡ false → q x ≡ false)
    → ((x : A) → s x ≡ true → q (f x) ≡ false)
    → (xs : List A) → any p xs ≡ false
    → any q (update_where s f xs) ≡ false
unfolding any update_where
any-weaker p q s f off on [] h = refl
any-weaker p q s f off on (x ∷ xs) h =
    let rest : any q (update_where s f xs) ≡ false =
      any-weaker p q s f off on xs (ground (arith, h)) in
    elim (Bool-cases (s x)) [
      | inl c ↦ let this = on x c in ground (arith, c, this, rest)
      | inr c ↦ let this = off x c (ground (arith, h)) in ground (arith, c, this, rest)
    ]

expire_one-missed :
    (now : ℕ) (b : Booking) (bs : List Booking) (db : Db)
    → any (missed now (b ∷ bs)) db.bookings ≡ false
    → any (missed now bs) (expire_one b db).bookings ≡ false
unfolding expire_one any
expire_one-missed now b bs db h =
    any-weaker (missed now (b ∷ bs)) (missed now bs) (λ x. x.id == b.id)
      (set_status BookingStatus.expired) (λ x other m. ground (arith, other, m))
      (λ x same. ground arith) db.bookings h

expire_each-missed :
    (now : ℕ) (bs : List Booking) (db : Db)
    → any (missed now bs) db.bookings ≡ false
    → any (missed now []) (expire_each bs db).bookings ≡ false
unfolding expire_each
expire_each-missed now [] db h = h
expire_each-missed now (b ∷ bs) db h =
    expire_each-missed now bs (expire_one b db) (expire_one-missed now b bs db h)

abbrev overdue_as : ℕ → Booking → Booking → Bool
overdue_as now x y = overdue now y && y.id == x.id

filter-covers :
    (now : ℕ) (x : Booking) (ys : List Booking)
    → any (overdue_as now x) ys ≡ true
    → any (λ b. b.id == x.id) (filter (overdue now) ys) ≡ true
unfolding any filter
filter-covers now x [] h = cc
filter-covers now x (y ∷ ys) h =
    let rest : any (overdue_as now x) ys ≡ true
        → any (λ b. b.id == x.id) (filter (overdue now) ys) ≡ true =
      filter-covers now x ys in
    elim (Bool-cases (overdue now y)) [
      | inl c ↦ rw (c, if◌then◌else◌) (ground (arith, c, rest))
      | inr c ↦ rw (c, if◌then◌else◌) (ground (arith, c, rest))
    ]

nothing_missed :
    (now : ℕ) (bs xs : List Booking)
    → ((x : Booking) → any (overdue_as now x) xs ≡ true → any (λ b. b.id == x.id) bs ≡ true)
    → any (missed now bs) xs ≡ false
unfolding any
nothing_missed now bs [] covers = refl
nothing_missed now bs (x ∷ xs) covers =
    let rest = nothing_missed now bs xs (λ z m. covers z (ground (arith, m))) in
    elim (Bool-cases (overdue now x)) [
      | inl c ↦ let this = covers x (ground (arith, c)) in ground (arith, c, this, rest)
      | inr c ↦ ground (arith, c, rest)
    ]

any-expired :
    {A : Type 0} (p : A → Bool) (f : A → A)
    → ((x : A) → p (f x) ≡ false)
    → (xs : List A) → any p (update_where p f xs) ≡ false
unfolding any update_where
any-expired p f h [] = refl
any-expired p f h (x ∷ xs) =
    let rest = any-expired p f h xs in
    let this = h x in
    elim (Bool-cases (p x)) [
      | inl c ↦ rw (c, if◌then◌else◌, this) rest
      | inr c ↦ rw (c, if◌then◌else◌, c) rest
    ]

expire_each-tables :
    (bs : List Booking) (db : Db)
    → ((expire_each bs db).booking_locks ≡ db.booking_locks)
      × ((expire_each bs db).qr_tokens ≡ db.qr_tokens)
unfolding expire_each expire_one
expire_each-tables [] db = (refl, refl)
expire_each-tables (b ∷ bs) db = expire_each-tables bs (expire_one b db)

none_missed :
    (now : ℕ) (xs : List Booking) → any (missed now []) xs ≡ false → any (overdue now) xs ≡ false
unfolding any
none_missed now [] h = refl
none_missed now (x ∷ xs) h =
    let rest : any (overdue now) xs ≡ false = none_missed now xs (ground (arith, h)) in
    ground (arith, h, rest)

-- After a cycle nothing is left to expire at its time: no active hold is past its end, no booking
-- that waits for the owner is past its deadline, and no active QR token is past its end.
pub run_expiry_cycle-nothing_left :
    (now : ℕ) (db : Db)
    → (any (lapsed now) (run_expiry_cycle now db).1.booking_locks ≡ false)
      × (any (overdue now) (run_expiry_cycle now db).1.bookings ≡ false)
      × (any (run_out now) (run_expiry_cycle now db).1.qr_tokens ≡ false)
unfolding run_expiry_cycle expire_locks expire_pending_bookings expire_qr_tokens
run_expiry_cycle-nothing_left now db =
    let bs = filter (overdue now) db.bookings in
    let held = (expire_locks now db).1 in
    let (locks, tokens) = expire_each-tables bs held in
    (
      rw locks (any-expired (lapsed now) _ (λ l. ground arith) db.booking_locks),
      none_missed now _ (
          expire_each-missed now bs held
            (nothing_missed now bs db.bookings (λ x m. filter-covers now x db.bookings m))),
      any-expired (run_out now) (set_token TokenStatus.expired) (λ t. ground arith) _,
    )

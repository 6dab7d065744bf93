-- ===== src/Locks/Idempotency.antt =====
-- A checkout attempt gets one hold.
use tuljai_stays.Base.{
  ℕ, ◌≡◌, refl, true, false, ◌||◌, not, Option, none, some, List, [], ◌∷◌, arith, ltb, leb, find,
  ==_refl,
}
use tuljai_stays.Base.Results.{
  ok, conflict, bad_request, ◌>>=◌, commit, >>=-eq-ok, commit-eq-ok, throw_if_then-eq-ok,
}
use tuljai_stays.Store.{Db, Config, AuthenticatedUser}
use tuljai_stays.Store.Status.{lock_active}
use tuljai_stays.Store.Rows.{BookingLock, Stay}
use tuljai_stays.Inventory.Defs.{available, get_availability, parse_date_range}
use tuljai_stays.Locks.Defs.{
  CreateBookingLockDto, FreshLock, text_eq, same_details, find_attempt, new_lock, write_lock,
  lock_query, create_lock_tx, create_lock, answer_attempt, rejected_key,
}

text_eq_refl : (k : List ℕ) → text_eq k k ≡ true
unfolding text_eq
text_eq_refl [] = refl
text_eq_refl (c ∷ k) = let own = ==_refl c in rw (own, text_eq_refl k) refl

-- The attempt has its hold, with the details of the request.
record Held (dto : CreateBookingLockDto) (user_id : ℕ) (key : Option (List ℕ)) (stay : Stay)
    (l : BookingLock) (db : Db) : Type 0 where
  finds : find_attempt key user_id db.booking_locks ≡ some l
  same : same_details dto stay l ≡ true
  active : lock_active l.status ≡ true

module _ (config : Config) (fresh : FreshLock) (dto : CreateBookingLockDto) (user_id c : ℕ)
    (k : List ℕ) (stay : Stay) where
  write_lock-Held :
      (now : ℕ) (db : Db)
      → Held dto user_id
          (some (c ∷ k))
          stay
          (new_lock config now fresh dto user_id (some (c ∷ k)) stay)
          (write_lock config now fresh dto user_id (some (c ∷ k)) stay db)
  unfolding write_lock find
  write_lock-Held now db =
      let own_user = ==_refl user_id in
      let own_key = text_eq_refl (c ∷ k) in
      record { finds = rw (own_user, own_key) refl; same = ground arith; active = refl }

  answer_attempt-Held :
      (now : ℕ) (db : Db) (o : Option BookingLock) {l : BookingLock} {db' : Db}
      → find_attempt (some (c ∷ k)) user_id db.booking_locks ≡ o
      → answer_attempt config now fresh dto user_id (some (c ∷ k)) stay o db ≡ ok (l, db')
      → Held dto user_id (some (c ∷ k)) stay l db'
  unfolding answer_attempt
  answer_attempt-Held now db none {l} {db'} e h =
      let (a, _, rest) =
        >>=-eq-ok
          (get_availability db (lock_query config now fresh dto user_id (some (c ∷ k)) stay)
            dto.lodge_id dto.room_type_id)
          _ h in
      let (_, done) = throw_if_then-eq-ok (not (available a)) conflict _ rest in
      let made : new_lock config now fresh dto user_id (some (c ∷ k)) stay ≡ l = cc in
      let kept : write_lock config now fresh dto user_id (some (c ∷ k)) stay db ≡ db' = cc in
      rw (← made, ← kept) (write_lock-Held now db)
  answer_attempt-Held now db (some x) {l} {db'} e h =
      let (same, rest) = throw_if_then-eq-ok (not (same_details dto stay x)) conflict _ h in
      let (live, done) =
        throw_if_then-eq-ok (not (lock_active x.status) || leb x.expires_at now) conflict _ rest in
      let this : x ≡ l = cc in
      let kept : db ≡ db' = cc in
      rw (← this, ← kept) record { finds = e; same = ground arith; active = ground arith }

  -- A repetition before the hold ends.
  answer_attempt-again :
      (now : ℕ) (db : Db) (l : BookingLock)
      → same_details dto stay l ≡ true
      → lock_active l.status ≡ true
      → ltb now l.expires_at ≡ true
      → answer_attempt config now fresh dto user_id (some (c ∷ k)) stay (some l) db ≡ ok (l, db)
  unfolding answer_attempt ◌>>=◌
  answer_attempt-again now db l same active live =
      let open_still : leb l.expires_at now ≡ false = ground arith in
      rw (same, active, open_still) refl

-- createLock, repeated next with the same key, which is not empty, user and details before the hold
-- that it returned ends, returns the same hold and changes nothing: whatever the configuration, the
-- time and the random values are.
pub create_lock-again :
    (config config' : Config) (now now' : ℕ) (fresh fresh' : FreshLock) (dto : CreateBookingLockDto)
    (user : AuthenticatedUser) (c : ℕ) (k : List ℕ) (db : Db) {l : BookingLock} {db' : Db}
    → create_lock config now fresh dto user (some (c ∷ k)) db ≡ (ok l, db')
    → ltb now' l.expires_at ≡ true
    → create_lock config' now' fresh' dto user (some (c ∷ k)) db' ≡ (ok l, db')
unfolding create_lock create_lock_tx ◌>>=◌ commit
create_lock-again config config' now now' fresh fresh' dto user c k db {l} {db'} h live =
    let (good, rest) =
      throw_if_then-eq-ok (rejected_key (some (c ∷ k))) bad_request _ (commit-eq-ok db _ h) in
    let (stay, dates, made) =
      >>=-eq-ok (parse_date_range dto.check_in_date dto.check_out_date) _ rest in
    let held = answer_attempt-Held config fresh dto user.id c k stay now db _ refl made in
    let again =
      answer_attempt-again config' fresh' dto user.id c k stay now' db' l held.same held.active
        live in
    rw (good, dates, held.finds, again) refl

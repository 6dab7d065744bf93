-- ===== src/Cash/Once.antt =====
-- Cash is collected in full, and once.
use tuljai_stays.Base.{
  ℕ, ◌≡◌, refl, Bool, true, false, ◌&&◌, ◌||◌, not, Option, List, [], ◌∷◌, arith, ◌==◌, leb, ltb,
  if◌then◌else◌, is_some_eq, any, filter, update_where, length, Bool-cases, inl, inr, ==_refl,
}
use tuljai_stays.Base.Finds.{find-update_where, filter-update_where}
use tuljai_stays.Base.Results.{
  Result, ok, not_found, commit, >>=-eq-ok, commit-eq-ok, commit_outcome, conflict,
  throw_if_then-eq-ok, or_throw-eq-ok,
}
use tuljai_stays.Store.{Db}
use tuljai_stays.Store.Rows.{Booking, PaymentCollection}
use tuljai_stays.Bookings.Defs.{find_booking_or_throw}
use tuljai_stays.Cash.Defs.{
  Collected, total_of, due_of, cash_row, cash_rows, paid_sum, adjusted, pay, settle_row,
  clear_balance, write_collection, collect, settle, check_collectable, record_cash_collection,
}

paid_sum-update_where_one :
    (id due at : ℕ) (r : PaymentCollection)
    → paid_sum (update_where (λ c. c.id == r.id) (pay id due at) (r ∷ [])) ≡ due
unfolding paid_sum update_where
paid_sum-update_where_one id due at r =
    let own = ==_refl r.id in rw (own, if◌then◌else◌) (ground arith)

-- Settling the only row, or a new one, pays what is due.
settle_row-paid :
    (fresh id due at : ℕ) (table rows : List PaymentCollection)
    → cash_rows id table ≡ rows
    → ltb 1 (length rows) ≡ false
    → paid_sum (cash_rows id (settle_row fresh id due at rows table)) ≡ due
unfolding cash_rows paid_sum filter
settle_row-paid fresh id due at table [] e few =
    let own = ==_refl id in rw (own, if◌then◌else◌, e) (ground arith)
settle_row-paid fresh id due at table (r ∷ []) e few =
    rw (filter-update_where (cash_row id) (λ c. c.id == r.id) (pay id due at) (λ c. refl) table, e)
      (paid_sum-update_where_one id due at r)
settle_row-paid fresh id due at table (r ∷ s ∷ rows) e few = ground arith

-- The booking has been paid for in cash.
pub record Settled (db : Db) (id : ℕ) : Type 0 where
  pub booking : Booking
  pub finds : find_booking_or_throw db id ≡ ok booking
  pub in_full :
      leb (total_of booking) (paid_sum (cash_rows booking.id db.payment_collections)) ≡ true

module _ (fresh at actor : ℕ) (expected : Option ℕ) where
  write_collection-paid :
      (b : Booking) (db : Db)
      → due_of b ≡ total_of b
      → ltb 1 (length (cash_rows b.id db.payment_collections)) ≡ false
      → leb (total_of b) (
          paid_sum
            (cash_rows b.id (write_collection fresh at actor expected b db).payment_collections))
        ≡ true
  unfolding write_collection
  write_collection-paid b db full one =
      rw
        (
          settle_row-paid fresh b.id (due_of b) at db.payment_collections
              (cash_rows b.id db.payment_collections) refl one,
          full,
        )
        (ground arith)

  find-write_collection :
      (id : ℕ) (b : Booking) (db : Db)
      → find_booking_or_throw db id ≡ ok b
      → find_booking_or_throw (write_collection fresh at actor expected b db) id
        ≡ ok (clear_balance b)
  unfolding find_booking_or_throw write_collection
  find-write_collection id b db finds =
      let found = or_throw-eq-ok _ not_found finds in
      let after =
        find-update_where (λ x. not x.is_deleted && x.id == id) (λ x. x.id == b.id) clear_balance
          (λ x. refl) db.bookings found (==_refl b.id) in
      rw after refl

  collect-Settled :
      (id : ℕ) (b : Booking) (db : Db) {c : Collected} {db' : Db}
      → find_booking_or_throw db id ≡ ok b
      → collect fresh at actor expected b db ≡ ok (c, db')
      → Settled db' id
  unfolding collect
  collect-Settled id b db {c} {db'} finds h =
      let rows = cash_rows b.id db.payment_collections in
      let (few, rest) =
        throw_if_then-eq-ok (ltb 0 (paid_sum rows) || any adjusted rows || ltb 1 (length rows))
          conflict _ h in
      let (full, done) =
        throw_if_then-eq-ok (not (is_some_eq expected (due_of b)) || not (due_of b == total_of b))
          conflict _ rest in
      let written : write_collection fresh at actor expected b db ≡ db' = cc in
      let one : ltb 1 (length rows) ≡ false = ground arith in
      rw (← written) record {
        booking = clear_balance b;
        finds = find-write_collection id b db finds;
        in_full = write_collection-paid b db (ground arith) one;
      }

  settle-Settled :
      (id : ℕ) (b : Booking) (db : Db) {c : Collected} {db' : Db}
      → find_booking_or_throw db id ≡ ok b
      → settle fresh at actor expected b db ≡ ok (c, db')
      → Settled db' id
  unfolding settle
  settle-Settled id b db {c} {db'} finds h =
      elim (Bool-cases (leb (total_of b) (paid_sum (cash_rows b.id db.payment_collections)))) [
        | inl paid ↦
            let unchanged : db ≡ db' = unchanged_if _ _ paid h in
            rw (← unchanged) record { booking = b; finds = finds; in_full = paid }
        | inr owing ↦ collect-Settled id b db finds (collects_if _ _ owing h)
      ]
    where
      unchanged_if :
          (t : Bool) (other : Result (Collected × Db))
          → t ≡ true
          → (if t then ok (record { changed = false; lodge_id = b.lodge_id }, db) else other)
            ≡ ok (c, db')
          → db ≡ db'
      unchanged_if true other e h = cc
      unchanged_if false other e h = cc

      collects_if :
          {X : Type 0} (t : Bool) (x : X) {y z : X} → t ≡ false → (if t then x else y) ≡ z → y ≡ z
      collects_if true x e h = cc
      collects_if false x e h = h

  -- A booking that is settled is not collected for again.
  settle-again :
      (b : Booking) (db : Db)
      → leb (total_of b) (paid_sum (cash_rows b.id db.payment_collections)) ≡ true
      → settle fresh at actor expected b db
        ≡ ok (record { changed = false; lodge_id = b.lodge_id }, db)
  unfolding settle
  settle-again b db paid = rw (paid, if◌then◌else◌) refl

-- Nothing is written, and a success says so.
abbrev pub Unchanged : Db → Result Collected × Db → Type 0
Unchanged db (result, db') = (db' ≡ db) × ((c : Collected) → result ≡ ok c → c.changed ≡ false)

record_cash_collection-Settled :
    (fresh at actor : ℕ) (expected : Option ℕ) (access : ℕ → Result (Unit {0})) (id : ℕ) (db : Db)
    {c : Collected} {db' : Db}
    → record_cash_collection fresh at actor expected access id db ≡ (ok c, db')
    → Settled db' id
unfolding record_cash_collection
record_cash_collection-Settled fresh at actor expected access id db h =
    let (b, finds, step1) = >>=-eq-ok (find_booking_or_throw db id) _ (commit-eq-ok db _ h) in
    let (_, _, step2) = >>=-eq-ok (access b.lodge_id) _ step1 in
    let (_, _, step3) = >>=-eq-ok (check_collectable fresh at actor expected b) _ step2 in
    settle-Settled fresh at actor expected id b db finds step3

Settled-Unchanged :
    (fresh at actor : ℕ) (expected : Option ℕ) (access : ℕ → Result (Unit {0})) (id : ℕ) (db : Db)
    → Settled db id
    → Unchanged db (record_cash_collection fresh at actor expected access id db)
unfolding record_cash_collection commit
Settled-Unchanged fresh at actor expected access id db s =
    commit_outcome (Unchanged db) db (find_booking_or_throw db id) _ (λ e. (refl, λ c h. cc))
      (λ b finds.
        commit_outcome (Unchanged db) db (access b.lodge_id) _ (λ e. (refl, λ c h. cc))
          (λ _ _.
            commit_outcome (Unchanged db) db (check_collectable fresh at actor expected b) _
              (λ e. (refl, λ c h. cc))
              (λ _ _.
                let same : s.booking ≡ b = same_booking b finds in
                rw (settle-again fresh at actor expected b db (rw (← same) s.in_full))
                  (refl, λ c h. changed_nothing c h))))
  where
    same_booking : (b : Booking) → find_booking_or_throw db id ≡ ok b → s.booking ≡ b
    same_booking b finds = let own = s.finds in cc

    changed_nothing :
        {l : ℕ} (c : Collected)
        → ok (record { changed = false; lodge_id = l }) ≡ ok c
        → c.changed ≡ false
    changed_nothing c h = cc

-- After recordCashCollection has succeeded, the PAID cash receipts of the booking come to its total
-- at least; and a call for it made next, with any confirmed amount, by anybody, writes nothing and
-- does not say that it collected.
pub record_cash_collection-once :
    (fresh at actor : ℕ) (expected : Option ℕ) (access : ℕ → Result (Unit {0}))
    (fresh' at' actor' : ℕ) (expected' : Option ℕ) (access' : ℕ → Result (Unit {0})) (id : ℕ)
    (db : Db) {c : Collected} {db' : Db}
    → record_cash_collection fresh at actor expected access id db ≡ (ok c, db')
    → Settled db' id
      × Unchanged db' (record_cash_collection fresh' at' actor' expected' access' id db')
record_cash_collection-once fresh at actor expected access fresh' at' actor' expected' access' id db
      h =
    let s = record_cash_collection-Settled fresh at actor expected access id db h in
    (s, Settled-Unchanged fresh' at' actor' expected' access' id _ s)

-- ===== src/Bookings/Ways.antt =====
-- The ways through each transaction of the booking service: it changes nothing, or it makes its
-- writes, and then its tests have passed.
use tuljai_stays.Base.{
  ℕ, ◌≡◌, refl, Bool, true, false, not, Option, none, some, ◌∷◌, arith, ◌==◌, if◌then◌else◌, find,
  count,
}
use tuljai_stays.Base.Results.{Result, ok, Exception, throw_if, or_throw, commit, commit_bind}
use tuljai_stays.Store.{Db, Config, AuthenticatedUser}
use tuljai_stays.Store.Status.{is_pending, is_cancelled, is_cancellable}
use tuljai_stays.Store.Rows.{Booking, BookingLock, CreateBookingDto, Room, Lodge, BookingHistory}
use tuljai_stays.Inventory.Defs.{find_available_room}
use tuljai_stays.Bookings.Defs.{Fresh, find_by_source, lowest_room, update_booking}
use tuljai_stays.Bookings.Create.{create_booking_tx, write_booking, claimable, unless_prior}
use tuljai_stays.Bookings.Prepaid.{Payment, create_prepaid_tx, write_prepaid, allocatable}
use tuljai_stays.Bookings.Owner.{accept_tx, write_accept, write_reject, reject_checked}
use tuljai_stays.Bookings.Lifecycle.{cancel_tx, write_cancel, write_status}

-- A test that did not throw.
thrown : (n : ℕ) (e : Exception) → throw_if (not (n == 1)) e ≡ ok tt → n ≡ 1
thrown n e h = ground arith

passed : (b : Bool) (e : Exception) → throw_if (not b) e ≡ ok tt → b ≡ true
passed b e h = ground arith

or_thrown {ℓ} :
    {A : Type ℓ} (o : Option A) (e : Exception) {a : A} → or_throw o e ≡ ok a → o ≡ some a
or_thrown none e h = cc
or_thrown (some x) e h = cc

commit_prior {ℓ} :
    (P : Db → Type ℓ) (db : Db) (o : Option Booking) (rest : Result ((Booking × Bool) × Db))
    → P db
    → (o ≡ none → P (commit db rest).1)
    → P (commit db (unless_prior o db rest)).1
unfolding commit
commit_prior P db (some b) rest h k = h
commit_prior P db none rest h k = k refl

commit_if {ℓ} :
    {A : Type 0} (P : Db → Type ℓ) (db : Db) (b : Bool) (x y : Result (A × Db))
    → P (commit db x).1
    → P (commit db y).1
    → P (commit db (if b then x else y)).1
commit_if P db true x y h k = h
commit_if P db false x y h k = k

-- The transaction of `createBooking` changes nothing, or writes one booking from a claimed hold.
module _ {ℓ} (P : Db → Type ℓ) (config : Config) (now : ℕ) (fresh : Fresh) (dto : CreateBookingDto)
    (user : AuthenticatedUser) (lock : BookingLock) (lodge : Lodge) (db : Db) where
  pub create_tx_cases :
      P db
      → ((price : ℕ)
          → find_by_source db lock.id ≡ none
          → count (claimable lock.id now) db.booking_locks ≡ 1
          → P (write_booking config now fresh dto user lock lodge db price))
      → P (commit db (create_booking_tx config now fresh dto user lock lodge db)).1
  unfolding create_booking_tx commit
  create_tx_cases same written = commit_prior P db (find_by_source db lock.id) _ same λ new.
      commit_bind P db _ _ same λ _ one. commit_bind P db _ _ same λ t _.
        commit_bind P db _ _ same λ a _. commit_bind P db _ _ same λ _ _.
          commit_bind P db _ _ same
            λ price _. commit_bind P db _ _ same λ _ _. written price new (thrown _ _ one)

module _ {ℓ} (P : Db → Type ℓ) (config : Config) (now : ℕ) (fresh : Fresh) (dto : CreateBookingDto)
    (user : AuthenticatedUser) (lock : BookingLock) (lodge : Lodge) (order_amount : ℕ)
    (payment : Payment) (skipped : ℕ → Bool) (db : Db) where
  pub prepaid_tx_cases :
      P db
      → ((room : Room)
          → find_by_source db lock.id ≡ none
          → count (claimable lock.id now) db.booking_locks ≡ 1
          → lowest_room
              (allocatable config now fresh dto user lock lodge order_amount payment skipped db)
              db.rooms
            ≡ some room
          → P (write_prepaid config now fresh dto user lock lodge order_amount payment db room))
      → P
          (commit db (
            create_prepaid_tx config now fresh dto user lock lodge order_amount payment skipped
              db)).1
  unfolding create_prepaid_tx commit
  prepaid_tx_cases same written = commit_prior P db (find_by_source db lock.id) _ same λ new.
      commit_bind P db _ _ same λ _ _. commit_bind P db _ _ same λ _ _.
        commit_bind P db _ _ same λ _ _. commit_bind P db _ _ same λ _ one.
          commit_bind P db _ _ same λ room found.
            commit_bind P db _ _ same λ _ _. written room new (thrown _ _ one) (or_thrown _ _ found)

module _ {ℓ} (P : Db → Type ℓ) (now id : ℕ) (user : AuthenticatedUser) (existing : Booking)
    (db : Db) where
  pub accept_tx_cases :
      P db
      → ((row : Booking) (room : Room)
          → find (λ b. b.id == id) db.bookings ≡ some row
          → is_pending row.status ≡ true
          → find_available_room db
              (record {
                stay = existing.stay;
                now = now;
                exclude_booking_id = some id;
                exclude_lock_id = none;
              })
              existing.lodge_id
              existing.room_type_id
            ≡ some room
          → P (write_accept now id user existing room db))
      → P (commit db (accept_tx now id user existing db)).1
  unfolding accept_tx commit
  accept_tx_cases same written = commit_bind P db _ _ same λ row there.
      commit_bind P db _ _ same λ _ open_still. commit_bind P db _ _ same λ room found.
        written row room (or_thrown _ _ there) (passed _ _ open_still) (or_thrown _ _ found)

module _ {ℓ} (P : Db → Type ℓ) (id : ℕ) (reason : Option ℕ) (actor : ℕ) (existing : Booking)
    (db : Db) where
  pub cancel_tx_cases :
      P db
      → ((row : Booking)
          → find (λ b. b.id == id) db.bookings ≡ some row
          → is_cancellable row.status ≡ true
          → P (write_cancel id reason actor existing row db))
      → P (commit db (cancel_tx id reason actor existing db)).1
  unfolding cancel_tx commit
  cancel_tx_cases same written = commit_bind P db _ _ same λ row there.
      commit_if P db (is_cancelled row.status) _ _ same
        (commit_bind P db _ _ same λ _ may. written row (or_thrown _ _ there) (passed _ _ may))

module _ {ℓ} (P : Db → Type ℓ) (id : ℕ) (f : Booking → Booking) (entry : BookingHistory)
    (db : Db) where
  pub write_status_cases :
      P db
      → ((row : Booking)
          → find (λ b. b.id == id) db.bookings ≡ some row
          → P (record db {
            bookings = update_booking id f db.bookings;
            booking_history = entry ∷ db.booking_history;
          }))
      → P (write_status id f entry db).1
  unfolding write_status commit
  write_status_cases same written =
      commit_bind P db _ _ same λ row there. written row (or_thrown _ _ there)

module _ {ℓ} (P : Db → Type ℓ) (id reason : ℕ) (user : AuthenticatedUser) (existing : Booking)
    (db : Db) where
  pub reject_cases :
      P db
      → ((row : Booking)
          → find (λ b. b.id == id) db.bookings ≡ some row
          → P (write_reject id user.id reason existing db))
      → P (reject_checked id reason user db (ok existing)).1
  unfolding reject_checked commit
  reject_cases same written =
      commit_bind P db _ _ same λ row there. written row (or_thrown _ _ there)

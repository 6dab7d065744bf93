-- ===== src/Payments/Released.antt =====
-- `createPrepaidHold` of backend/src/modules/payments/payments.service.ts when its order fails.
use tuljai_stays.Base.{ℕ, ◌≡◌, refl, arith, true, false, none, List, [], ◌∷◌, any, update_where}
use tuljai_stays.Base.Results.{Result, ok, err, Exception}
use tuljai_stays.Store.{Db, Config, AuthenticatedUser}
use tuljai_stays.Store.Status.{LockStatus}
use tuljai_stays.Store.Rows.{BookingLock}
use tuljai_stays.Locks.Defs.{CreateBookingLockDto, FreshLock, create_lock, release_lock, releasable}
use tuljai_stays.Payments.Order.{PaymentOrder, PostOutcome}
use tuljai_stays.Payments.Checkout.{
  Books, create_prepaid_hold, order_held, after_hold, create_prepaid_order,
  assert_online_payments_enabled,
}

none_releasable :
    (now lock_code user_id : ℕ) (table : List BookingLock)
    → any (releasable lock_code user_id) (
        update_where
          (releasable lock_code user_id)
          (λ l. record l { expires_at = now; status = LockStatus.released })
          table)
      ≡ false
unfolding any update_where
none_releasable now lock_code user_id [] = refl
none_releasable now lock_code user_id (l ∷ ls) =
    let rest = none_releasable now lock_code user_id ls in ground (arith, rest)

module _ (receipt_of : ℕ → ℕ) (outcome : PostOutcome) (fresh_id now : ℕ)
    (user : AuthenticatedUser) where
  after_hold-released :
      (lock_code : ℕ) (out : Result PaymentOrder × Books) (e : Exception)
      → (after_hold receipt_of outcome fresh_id now lock_code user none out).0 ≡ err e
      → any
          (releasable lock_code user.id)
          (after_hold receipt_of outcome fresh_id now lock_code user none out).1.db.booking_locks
        ≡ false
  unfolding release_lock
  after_hold-released lock_code (ok order, books) e h = cc
  after_hold-released lock_code (err thrown, books) e h =
      none_releasable now lock_code user.id books.db.booking_locks

  order_held-released :
      (config : Config) (books : Books) (out : Result BookingLock × Db) (lock : BookingLock)
      (e : Exception)
      → out.0 ≡ ok lock
      → (order_held receipt_of outcome fresh_id now config user none books out).0 ≡ err e
      → any
          (releasable lock.lock_code user.id)
          (order_held receipt_of outcome fresh_id now config user none books out).1.db.booking_locks
        ≡ false
  unfolding order_held
  order_held-released config books (err thrown, db) lock e made h = cc
  order_held-released config books (ok l, db) lock e made h =
      let same : l ≡ lock = cc in
      rw (← same) (
        after_hold-released l.lock_code
          (create_prepaid_order receipt_of outcome fresh_id now config l.lock_code user true
            (record books { db = db }))
          e h)

  -- createPrepaidHold without an idempotency key, when online payments are on and the hold was made
  -- but it ends with an error, leaves the user no active hold with the code: a room is not kept for
  -- a payment that cannot be made.
  pub create_prepaid_hold-released :
      (config : Config) (fresh : FreshLock) (dto : CreateBookingLockDto) (books : Books)
      (lock : BookingLock) (e : Exception)
      → assert_online_payments_enabled books.db ≡ ok tt
      → (create_lock config now fresh dto user none books.db).0 ≡ ok lock
      → (create_prepaid_hold receipt_of outcome fresh_id now config fresh dto user none books).0
        ≡ err e
      → any
          (releasable lock.lock_code user.id)
          (create_prepaid_hold receipt_of outcome fresh_id now config fresh dto user none
            books).1.db.booking_locks
        ≡ false
  unfolding create_prepaid_hold
  create_prepaid_hold-released config fresh dto books lock e on made = rw on (
      order_held-released config books (create_lock config now fresh dto user none books.db) lock e
        made)

-- ===== src/Payments/Confirmed.antt =====
-- Confirmed intents, and what the writes of a payment make of them
-- (backend/src/modules/payments/payments.service.ts).
use tuljai_stays.Base.{ℕ, ◌≡◌, Bool, true, false, ◌&&◌, Option, none, some, arith, ◌==◌, any}
use tuljai_stays.Base.Counts.{any-update_where}
use tuljai_stays.Base.Results.{Result, ok, err, Exception, commit, commit_bind}
use tuljai_stays.Store.{Db, Config, AuthenticatedUser}
use tuljai_stays.Store.Status.{intent_confirmed}
use tuljai_stays.Store.Rows.{Booking, PaymentIntent, CreateBookingDto}
use tuljai_stays.Bookings.Defs.{Fresh}
use tuljai_stays.Bookings.Ways.{prepaid_tx_cases}
use tuljai_stays.Bookings.Prepaid.{
  Payment, Payable, paid_before, payable, create_prepaid_tx, announce_prepaid, prepaid_checked,
  write_prepaid,
}
use tuljai_stays.Payments.Gateway.{Gateway, GatewayPayment, PaymentVerificationInput}
use tuljai_stays.Payments.Verify.{
  Verified, assign_room, verify_tx, write_verified, fail_verification, confirm_intents,
  after_verify, verify_checked,
}
use tuljai_stays.Payments.Reconcile.{mark_mismatch, fail_reconciliation}

abbrev pub confirmed_with : ℕ → PaymentIntent → Bool
confirmed_with k i = i.provider_order_id == k && intent_confirmed i.status

-- The intent of the order `k` is confirmed.
abbrev pub Confirmed : ℕ → Db → Type 0
Confirmed k db = any (confirmed_with k) db.payment_intents ≡ true

module _ (k : ℕ) where
  confirm_intents-Confirmed :
      (input : PaymentVerificationInput) (db : Db)
      → Confirmed k db
      → Confirmed k (confirm_intents input db)
  unfolding confirm_intents
  confirm_intents-Confirmed input db h =
      any-update_where (confirmed_with k) _ _ (λ x c _. ground arith) db.payment_intents h

  fail_verification-Confirmed :
      (input : PaymentVerificationInput) (later : ℕ) (e : Exception) (db : Db)
      → Confirmed k db
      → Confirmed k (fail_verification input later e db)
  unfolding fail_verification
  fail_verification-Confirmed input later e db h =
      any-update_where (confirmed_with k) _ _ (λ x c o. ground arith) db.payment_intents h

  pub mark_mismatch-Confirmed :
      (i : PaymentIntent) (db : Db) → Confirmed k db → Confirmed k (mark_mismatch i db)
  unfolding mark_mismatch
  mark_mismatch-Confirmed i db h =
      any-update_where (confirmed_with k) _ _ (λ x c o. ground arith) db.payment_intents h

  pub fail_reconciliation-Confirmed :
      (i : PaymentIntent) (p : GatewayPayment) (e : Exception) (db : Db)
      → Confirmed k db
      → Confirmed k (fail_reconciliation i p e db)
  unfolding fail_reconciliation
  fail_reconciliation-Confirmed i p e db h =
      any-update_where (confirmed_with k) _ _ (λ x c o. ground arith) db.payment_intents h

  after_verify-Confirmed :
      (input : PaymentVerificationInput) (later : ℕ) (v : Verified) (out : Result (ℕ × Bool) × Db)
      → Confirmed k out.1
      → Confirmed k (after_verify input later v out).1
  unfolding after_verify
  after_verify-Confirmed input later v (err e, db) h =
      fail_verification-Confirmed input later e db h
  after_verify-Confirmed input later v (ok (room, true), db) h =
      confirm_intents-Confirmed input db h
  after_verify-Confirmed input later v (ok (room, false), db) h =
      confirm_intents-Confirmed input db h

  assign_room-Confirmed :
      (pilgrim_user_id : ℕ) (input : PaymentVerificationInput) (skipped : ℕ → Bool) (later : ℕ)
      (v : Verified) (db : Db) (row : Booking) (o : Option ℕ)
      → Confirmed k db
      → Confirmed k (commit db (assign_room pilgrim_user_id input skipped later v row db o)).1
  unfolding assign_room write_verified commit
  assign_room-Confirmed pilgrim_user_id input skipped later v db row (some room_id) h = h
  assign_room-Confirmed pilgrim_user_id input skipped later v db row none h =
      commit_bind (Confirmed k) db _ _ h (λ _ _.
        commit_bind (Confirmed k) db _ _ h
          (λ room _. commit_bind (Confirmed k) db _ _ h (λ _ _. h)))

  pub verify_checked-Confirmed :
      (gateway : Gateway) (skipped : ℕ → Bool) (booking_id pilgrim_user_id : ℕ)
      (input : PaymentVerificationInput) (reconciling : Bool) (current : Db) (later : ℕ)
      (c : Result Verified)
      → Confirmed k current
      → Confirmed k
          (verify_checked gateway skipped booking_id pilgrim_user_id input reconciling current later
            c).1
  unfolding verify_checked verify_tx commit
  verify_checked-Confirmed gateway skipped booking_id pilgrim_user_id input reconciling current
        later (err e) h =
      h
  verify_checked-Confirmed gateway skipped booking_id pilgrim_user_id input reconciling current
        later (ok v) h =
      after_verify-Confirmed input later v
        (commit current (verify_tx pilgrim_user_id input skipped later v current))
        (commit_bind (Confirmed k) current _ _ h
          (λ row _. assign_room-Confirmed pilgrim_user_id input skipped later v current row _ h))

  announce_prepaid-Confirmed :
      (out : Result (Booking × Bool) × Db)
      → Confirmed k out.1
      → Confirmed k (announce_prepaid out).1
  announce_prepaid-Confirmed (ok (b, true), db) h = h
  announce_prepaid-Confirmed (ok (b, false), db) h = h
  announce_prepaid-Confirmed (err e, db) h = h

  pub prepaid_checked-Confirmed :
      (config : Config) (fresh : Fresh) (skipped : ℕ → Bool) (dto : CreateBookingDto)
      (user : AuthenticatedUser) (upload : Result (Unit {0})) (payment : Payment) (current : Db)
      (later : ℕ) (c : Result Payable)
      → Confirmed k current
      → Confirmed k (prepaid_checked config fresh skipped dto user upload payment current later c).1
  unfolding prepaid_checked write_prepaid
  prepaid_checked-Confirmed config fresh skipped dto user upload payment current later (err e) h = h
  prepaid_checked-Confirmed config fresh skipped dto user upload payment current later
        (ok (paid_before b)) h =
      h
  prepaid_checked-Confirmed config fresh skipped dto user upload payment current later
        (ok (payable lock lodge amount)) h =
      announce_prepaid-Confirmed
        (commit current
          (create_prepaid_tx config later fresh dto user lock lodge amount payment skipped current))
        (prepaid_tx_cases (Confirmed k) config later fresh dto user lock lodge amount payment
          skipped current h
          (λ room _ _ _.
            any-update_where (confirmed_with k) _ _ (λ x c _. ground arith) current.payment_intents
              h))

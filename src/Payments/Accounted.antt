-- ===== src/Payments/Accounted.antt =====
-- What `reconcileOrder` of backend/src/modules/payments/payments.service.ts makes of the intent of a
-- captured payment.
use tuljai_stays.Base.{
  ℕ, ◌≡◌, refl, Bool, true, false, ◌&&◌, ◌||◌, Option, none, some, List, arith, ◌==◌, find, any,
  is_some_eq, if◌then◌else◌, Bool-cases, inl, inr,
}
use tuljai_stays.Base.Counts.{any-update_where, any-update_where_to}
use tuljai_stays.Base.Finds.{find-passes}
use tuljai_stays.Base.Results.{
  Result, ok, err, Exception, bad_request, conflict, or_throw-eq-ok, commit, commit_bind,
  commit_outcome, bind_outcome,
}
use tuljai_stays.Store.{Db, Config, AuthenticatedUser}
use tuljai_stays.Store.Status.{intent_confirmed, intent_pending, needs_recovery, IntentStatus}
use tuljai_stays.Store.Rows.{
  Booking, BookingLock, Lodge, PaymentIntent, CreateBookingDto, LastError,
}
use tuljai_stays.Bookings.Defs.{Fresh, find_by_source}
use tuljai_stays.Bookings.Prepaid.{
  Payment, Payable, check_prepaid, create_prepaid_tx, announce_prepaid, prepaid_checked,
  create_prepaid_booking, write_prepaid,
}
use tuljai_stays.Payments.Gateway.{Gateway, GatewayPayment, PaymentVerificationInput, is_captured}
use tuljai_stays.Payments.Verify.{
  Verified, assign_room, verify_tx, write_verified, fail_verification, confirm_intents,
  after_verify, verify_checked, verify_booking_payment, requires_review,
}
use tuljai_stays.Payments.Reconcile.{
  mark_mismatch, fail_reconciliation, recover, forget, settle_for, settle_payment,
  reconcile_captured, reconcile_intent, reconcile_order, mismatch, payer, payment_of,
}

abbrev pub to_retry : Option LastError → Bool
to_retry (some LastError.confirmation_retry_pending) = true
to_retry _ = false

status_known :
    (s : IntentStatus) → (intent_confirmed s || needs_recovery s || intent_pending s) ≡ true
status_known IntentStatus.pending = refl
status_known IntentStatus.confirmed = refl
status_known IntentStatus.recovery_required = refl

-- Confirmed, for a person to look at, or to be tried again.
abbrev pub accounted_for : PaymentIntent → Bool
accounted_for i =
    intent_confirmed i.status
    || needs_recovery i.status
    || intent_pending i.status && to_retry i.last_error

-- The hold of an order has not become a booking.
abbrev pub Unbooked : ℕ → Db → Type 0
Unbooked order_id db =
    (l : BookingLock)
    → is_some_eq l.provider_order_id order_id ≡ true
    → find_by_source db l.id ≡ none

module _ (i : PaymentIntent) (order_id : ℕ) where
  abbrev pub row_of : PaymentIntent → Bool
  row_of x = x.id == i.id && x.provider_order_id == order_id

  abbrev pub settled_row : PaymentIntent → Bool
  settled_row x = row_of x && accounted_for x

  -- The intent's row is there, and accounted for.
  abbrev pub Accounted : Db → Type 0
  Accounted db = any settled_row db.payment_intents ≡ true

  abbrev pub Stored : Db → Type 0
  Stored db = any row_of db.payment_intents ≡ true

  fail_reconciliation-Accounted :
      (p : GatewayPayment) (e : Exception) (db : Db)
      → Stored db
      → Accounted (fail_reconciliation i p e db)
  unfolding fail_reconciliation
  fail_reconciliation-Accounted p e db h = elim (Bool-cases (requires_review e)) [
    | inl c ↦
        rw (c, if◌then◌else◌)
          (any-update_where_to row_of settled_row _ _ (λ x r. ground arith) db.payment_intents h)
    | inr c ↦
        rw (c, if◌then◌else◌)
          (any-update_where_to row_of settled_row _ _ (λ x r. ground arith) db.payment_intents h)
  ]

  module _ (p : GatewayPayment) where
    after_verify-Accounted :
        (input : PaymentVerificationInput) (later : ℕ) (v : Verified) (out : Result (ℕ × Bool) × Db)
        → input.order_id ≡ order_id
        → Stored out.1
        → Accounted (recover i p (forget (after_verify input later v out))).1
    unfolding after_verify fail_verification confirm_intents
    after_verify-Accounted input later v (err e, db) same h =
        fail_reconciliation-Accounted p _ (fail_verification input later e db)
          (any-update_where row_of _ _ (λ x r _. r) db.payment_intents h)
    after_verify-Accounted input later v (ok (room, true), db) same h =
        any-update_where_to row_of settled_row _ _ (λ x r. ground (arith, same)) db.payment_intents
          h
    after_verify-Accounted input later v (ok (room, false), db) same h =
        any-update_where_to row_of settled_row _ _ (λ x r. ground (arith, same)) db.payment_intents
          h

    assign_room-Stored :
        (pilgrim_user_id : ℕ) (input : PaymentVerificationInput) (skipped : ℕ → Bool) (later : ℕ)
        (v : Verified) (db : Db) (row : Booking) (o : Option ℕ)
        → Stored db
        → Stored (commit db (assign_room pilgrim_user_id input skipped later v row db o)).1
    unfolding assign_room write_verified commit
    assign_room-Stored pilgrim_user_id input skipped later v db row (some room_id) h = h
    assign_room-Stored pilgrim_user_id input skipped later v db row none h =
        commit_bind Stored db _ _ h
          (λ _ _. commit_bind Stored db _ _ h (λ room _. commit_bind Stored db _ _ h (λ _ _. h)))

    verify_checked-Accounted :
        (gateway : Gateway) (skipped : ℕ → Bool) (booking_id pilgrim_user_id : ℕ)
        (input : PaymentVerificationInput) (reconciling : Bool) (current : Db) (later : ℕ)
        (c : Result Verified)
        → input.order_id ≡ order_id
        → Stored current
        → Accounted
            (recover i p (
              forget (
                verify_checked gateway skipped booking_id pilgrim_user_id input reconciling current
                  later c))).1
    unfolding verify_checked verify_tx
    verify_checked-Accounted gateway skipped booking_id pilgrim_user_id input reconciling current
          later (err e) same h =
        fail_reconciliation-Accounted p e current h
    verify_checked-Accounted gateway skipped booking_id pilgrim_user_id input reconciling current
          later (ok v) same h =
        after_verify-Accounted input later v
          (commit current (verify_tx pilgrim_user_id input skipped later v current)) same
          (commit_bind Stored current _ _ h
            (λ row _. assign_room-Stored pilgrim_user_id input skipped later v current row _ h))

    module _ (config : Config) (fresh : Fresh) (skipped : ℕ → Bool) (dto : CreateBookingDto)
        (user : AuthenticatedUser) (upload : Result (Unit {0})) (payment : Payment) (current : Db)
        (later : ℕ) (same : payment.provider_order_id ≡ order_id) (h : Stored current)
        (free : Unbooked order_id current) where
      abbrev Recovered : Result (Booking × Bool) × Db → Type 0
      Recovered out = Accounted (recover i p (forget (announce_prepaid out))).1

      prepaid_tx-Accounted :
          (lock : BookingLock) (lodge : Lodge) (amount : ℕ)
          → is_some_eq lock.provider_order_id order_id ≡ true
          → Recovered (
              commit current (
                create_prepaid_tx config later fresh dto user lock lodge amount payment skipped
                  current))
      unfolding create_prepaid_tx commit write_prepaid
      prepaid_tx-Accounted lock lodge amount own =
          let new : find_by_source current lock.id ≡ none = free lock own in
          let failed : (e : Exception) → Recovered (err e, current) =
            λ e. fail_reconciliation-Accounted p e current h in
          rw new (
            commit_outcome Recovered current _ _ failed λ _ _.
              commit_outcome Recovered current _ _ failed λ _ _.
                commit_outcome Recovered current _ _ failed λ _ _.
                  commit_outcome Recovered current _ _ failed λ _ _.
                    commit_outcome Recovered current _ _ failed λ room _.
                      commit_outcome Recovered current _ _ failed λ _ _.
                        any-update_where_to row_of settled_row _ _ (λ x r. ground (arith, same))
                          current.payment_intents h)

      create_prepaid_booking-Accounted :
          (seen : Db) (now : ℕ)
          → Unbooked order_id seen
          → Accounted
              (recover i p (
                forget (
                  create_prepaid_booking config fresh skipped dto user upload payment seen now
                    current later))).1
      unfolding create_prepaid_booking check_prepaid prepaid_checked
      create_prepaid_booking-Accounted seen now unbooked =
          let P : Result Payable → Type 0 = λ c.
            Accounted
              (recover i p (
                forget (
                  prepaid_checked config fresh skipped dto user upload payment current later
                    c))).1 in
          let failed : (e : Exception) → P (err e) =
            λ e. fail_reconciliation-Accounted p e current h in
          bind_outcome P _ _ failed λ lock found. bind_outcome P _ _ failed λ amount _.
            let mine = find-passes _ seen.booking_locks (or_throw-eq-ok _ bad_request found) in
            let own : is_some_eq lock.provider_order_id order_id ≡ true =
              ground (arith, mine, same) in
            let new : find_by_source seen lock.id ≡ none = unbooked lock own in
            rw new (
              bind_outcome P _ _ failed λ _ _. bind_outcome P _ _ failed λ _ _.
                bind_outcome P _ _ failed λ lodge _. bind_outcome P _ _ failed λ _ _.
                  bind_outcome P _ _ failed λ _ _. bind_outcome P _ _ failed λ _ _.
                    bind_outcome P _ _ failed λ _ _.
                      bind_outcome P _ _ failed λ _ _. prepaid_tx-Accounted lock lodge amount own)

module _ (gateway : Gateway) (config : Config) (fresh : Fresh) (skipped : ℕ → Bool)
    (upload : Result (Unit {0})) (order_id : ℕ) (seen : Db) (now : ℕ) (current : Db) (later : ℕ)
    (i : PaymentIntent) (h : Stored i order_id current) (free : Unbooked order_id current)
    (unbooked : Unbooked order_id seen) where
  settle_payment-Accounted :
      (p : GatewayPayment) (b : Option ℕ) (d : Option CreateBookingDto)
      → Accounted i order_id
          (recover i p (
            settle_for gateway config fresh skipped upload order_id seen now current later i p b
              d)).1
  unfolding verify_booking_payment
  settle_payment-Accounted p (some booking_id) d =
      verify_checked-Accounted i order_id p gateway skipped booking_id i.pilgrim_user_id
        (record { order_id = order_id; payment_id = p.id; signature = 0 }) true current later _ refl
        h
  settle_payment-Accounted p none (some dto) =
      create_prepaid_booking-Accounted i order_id p config fresh skipped dto (payer i) upload
        (payment_of order_id p) current later refl h free seen now unbooked
  settle_payment-Accounted p none none =
      fail_reconciliation-Accounted i order_id p conflict current h

  mark_mismatch-Accounted : Accounted i order_id (mark_mismatch i current)
  unfolding mark_mismatch
  mark_mismatch-Accounted =
      any-update_where_to (row_of i order_id) (settled_row i order_id) _ _
        (λ x r. let known = status_known x.status in ground (arith, known)) current.payment_intents
        h

-- A captured payment is never lost: reconcileOrder, when the gateway lists a captured payment for
-- an order whose intent is neither confirmed nor waiting for a person, leaves the intent's row
-- confirmed, marked for recovery, or pending with the note that the confirmation is tried again.
-- The row is still stored, and no booking has been made from a hold of the order, in what is read
-- and in what is written.
pub reconcile_order-Accounted :
    (gateway : Gateway) (config : Config) (fresh : Fresh) (skipped : ℕ → Bool)
    (upload : Result (Unit {0})) (order_id : ℕ) (seen : Db) (now : ℕ) (current : Db) (later : ℕ)
    (i : PaymentIntent) (payments : List GatewayPayment) (p : GatewayPayment)
    → find (λ x. x.provider_order_id == order_id) seen.payment_intents ≡ some i
    → (intent_confirmed i.status || needs_recovery i.status) ≡ false
    → gateway.get_order_payments order_id ≡ ok payments
    → find is_captured payments ≡ some p
    → Stored i order_id current
    → Unbooked order_id current
    → Unbooked order_id seen
    → Accounted i order_id
        (reconcile_order gateway config fresh skipped upload order_id seen now current later).1
unfolding reconcile_order reconcile_intent reconcile_captured settle_payment
reconcile_order-Accounted gateway config fresh skipped upload order_id seen now current later i
      payments p found open_ answered captured h free unbooked =
    rw (found, open_, if◌then◌else◌, answered, captured)
      (elim (Bool-cases (mismatch order_id p i)) [
        | inl e ↦
            rw (e, if◌then◌else◌)
              (mark_mismatch-Accounted gateway config fresh skipped upload order_id seen now current
                later i h free unbooked)
        | inr e ↦
            rw (e, if◌then◌else◌)
              (settle_payment-Accounted gateway config fresh skipped upload order_id seen now
                current later i h free unbooked p i.booking_id i.guest_details)
      ])

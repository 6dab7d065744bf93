-- ===== src/Payments/AllOrNothing.antt =====
-- A payment that fails, in `verifyBookingPayment` or `confirmPrepaidBooking` of
-- backend/src/modules/payments/payments.service.ts, and the tables of the bookings.
use tuljai_stays.Base.{ℕ, ◌≡◌, refl, ◌∙◌, Bool, true, false, Option, none, some}
use tuljai_stays.Base.Results.{Result, ok, err, Exception, commit}
use tuljai_stays.Store.{Db, Config, AuthenticatedUser}
use tuljai_stays.Store.Rows.{Booking, CreateBookingDto, PaymentIntent, PaymentCollection}
use tuljai_stays.Bookings.Defs.{Fresh}
use tuljai_stays.Bookings.Prepaid.{
  Payment, Payable, paid_before, payable, check_prepaid, create_prepaid_tx, announce_prepaid,
  prepaid_checked, create_prepaid_booking,
}
use tuljai_stays.Payments.Gateway.{Gateway, GatewayPayment, PaymentVerificationInput}
use tuljai_stays.Payments.Verify.{
  Verified, fail_verification, after_verify, verify_checked, verify_tx, verify_booking_payment,
}
use tuljai_stays.Payments.Reconcile.{payment_of}
use tuljai_stays.Payments.Confirm.{
  Preparation, is_ready, to_store, store_details, prepare_checked, check_prepare,
  prepare_prepaid_intent, fail_confirmation, after_confirm, confirm_details, confirm_once,
  confirm_checked, confirm_prepared, confirm_unless_done, confirm_requested,
  confirm_prepaid_booking, check_confirm,
}

-- What a guest, a lodge and the accounts see is the same.
abbrev pub SameStays : Db → Db → Type 0
SameStays db db' =
    (db'.bookings ≡ db.bookings)
    × (db'.booking_locks ≡ db.booking_locks)
    × (db'.rooms ≡ db.rooms)
    × (db'.payment_collections ≡ db.payment_collections)
    × (db'.booking_history ≡ db.booking_history)

-- An error leaves the stays as they were.
abbrev pub Atomic {ℓ} : {A : Type ℓ} → Db → Result A × Db → Type ℓ
Atomic db out = (e : Exception) → out.0 ≡ err e → SameStays db out.1

same : (db : Db) → SameStays db db
same db = (refl, refl, refl, refl, refl)

same_again : (db t u : Db) → SameStays db t → SameStays t u → SameStays db u
same_again db t u (b, l, r, c, h) (b', l', r', c', h') = (b' ∙ b, l' ∙ l, r' ∙ r, c' ∙ c, h' ∙ h)

Atomic-after :
    {A : Type 0} (db t : Db) (out : Result A × Db) → SameStays db t → Atomic t out → Atomic db out
Atomic-after db t out kept atomic e h = same_again db t out.1 kept (atomic e h)

commit-Atomic : {A : Type 0} (db : Db) (m : Result (A × Db)) → Atomic db (commit db m)
unfolding commit
commit-Atomic db (ok (a, written)) e h = cc
commit-Atomic db (err thrown) e h = same db

after_verify-Atomic :
    (input : PaymentVerificationInput) (later : ℕ) (v : Verified) (db : Db)
    (out : Result (ℕ × Bool) × Db)
    → Atomic db out
    → Atomic db (after_verify input later v out)
unfolding after_verify fail_verification
after_verify-Atomic input later v db (err thrown, t) atomic e h = atomic thrown refl
after_verify-Atomic input later v db (ok (room, true), t) atomic e h = cc
after_verify-Atomic input later v db (ok (room, false), t) atomic e h = cc

verify_checked-Atomic :
    (gateway : Gateway) (skipped : ℕ → Bool) (booking_id pilgrim_user_id : ℕ)
    (input : PaymentVerificationInput) (reconciling : Bool) (current : Db) (later : ℕ)
    (c : Result Verified)
    → Atomic current (
        verify_checked gateway skipped booking_id pilgrim_user_id input reconciling current later c)
unfolding verify_checked
verify_checked-Atomic gateway skipped booking_id pilgrim_user_id input reconciling current later
      (err thrown) =
    λ e h. same current
verify_checked-Atomic gateway skipped booking_id pilgrim_user_id input reconciling current later
      (ok v) =
    after_verify-Atomic input later v current _
      (commit-Atomic current (verify_tx pilgrim_user_id input skipped later v current))

announce_prepaid-Atomic :
    (db : Db) (out : Result (Booking × Bool) × Db)
    → Atomic db out
    → Atomic db (announce_prepaid out)
announce_prepaid-Atomic db (ok (b, true), t) atomic e h = cc
announce_prepaid-Atomic db (ok (b, false), t) atomic e h = cc
announce_prepaid-Atomic db (err thrown, t) atomic e h = atomic thrown refl

prepaid_checked-Atomic :
    (config : Config) (fresh : Fresh) (skipped : ℕ → Bool) (dto : CreateBookingDto)
    (user : AuthenticatedUser) (upload : Result (Unit {0})) (payment : Payment) (current : Db)
    (later : ℕ) (c : Result Payable)
    → Atomic current (prepaid_checked config fresh skipped dto user upload payment current later c)
unfolding prepaid_checked
prepaid_checked-Atomic config fresh skipped dto user upload payment current later (err thrown) =
    λ e h. same current
prepaid_checked-Atomic config fresh skipped dto user upload payment current later
      (ok (paid_before b)) =
    λ e h. cc
prepaid_checked-Atomic config fresh skipped dto user upload payment current later
      (ok (payable lock lodge amount)) =
    announce_prepaid-Atomic current _ (
      commit-Atomic current
        (create_prepaid_tx config later fresh dto user lock lodge amount payment skipped current))

prepare_checked-SameStays :
    (fresh_id now : ℕ) (dto : CreateBookingDto) (user : AuthenticatedUser) (db : Db)
    (c : Result Preparation)
    → SameStays db (prepare_checked fresh_id now dto user db c).1
unfolding prepare_checked store_details
prepare_checked-SameStays fresh_id now dto user db (err e) = same db
prepare_checked-SameStays fresh_id now dto user db (ok is_ready) = same db
prepare_checked-SameStays fresh_id now dto user db (ok (to_store lock order_id amount)) =
    (refl, refl, refl, refl, refl)

module _ (gateway : Gateway) (config : Config) (fresh : Fresh) (skipped : ℕ → Bool)
    (upload : Result (Unit {0})) (dto : CreateBookingDto) (user : AuthenticatedUser)
    (input : PaymentVerificationInput) where
  after_confirm-Atomic :
      (db : Db) (out : Result Booking × Db)
      → Atomic db out
      → Atomic db (after_confirm gateway config fresh skipped upload dto user input out)
  unfolding fail_confirmation
  after_confirm-Atomic db (ok b, t) atomic e h = cc
  after_confirm-Atomic db (err thrown, t) atomic e h = atomic thrown refl

  confirm_details-Atomic :
      (now later : ℕ) (p : GatewayPayment) (db : Db) (d : Option CreateBookingDto)
      → Atomic db
          (confirm_details gateway config fresh skipped upload dto user input now later p db d)
  unfolding create_prepaid_booking
  confirm_details-Atomic now later p db none = λ e h. same db
  confirm_details-Atomic now later p db (some details) =
      let payment = payment_of input.order_id (record p { id = input.payment_id }) in
      prepaid_checked-Atomic config fresh skipped details user upload payment db later
        (check_prepaid db now details user upload payment)

  confirm_once-Atomic :
      (now later : ℕ) (i : PaymentIntent) (p : GatewayPayment) (db : Db) (b : Option ℕ)
      → Atomic db
          (confirm_once gateway config fresh skipped upload dto user input now later i p db b)
  confirm_once-Atomic now later i p db (some booking_id) = λ e h. same db
  confirm_once-Atomic now later i p db none =
      after_confirm-Atomic db _ (confirm_details-Atomic now later p db i.guest_details)

  confirm_checked-Atomic :
      (now later : ℕ) (db : Db) (c : Result (PaymentIntent × GatewayPayment))
      → Atomic db
          (confirm_checked gateway config fresh skipped upload dto user input now later db c)
  unfolding confirm_checked
  confirm_checked-Atomic now later db (err thrown) = λ e h. same db
  confirm_checked-Atomic now later db (ok (i, p)) = confirm_once-Atomic now later i p db _

  confirm_prepared-Atomic :
      (now later : ℕ) (db : Db) (out : Result (Unit {0}) × Db)
      → SameStays db out.1
      → Atomic db
          (confirm_prepared gateway config fresh skipped upload dto user input now later out)
  unfolding confirm_prepared
  confirm_prepared-Atomic now later db (err thrown, t) kept = λ e h. kept
  confirm_prepared-Atomic now later db (ok _, t) kept =
      Atomic-after db t
        (confirm_checked gateway config fresh skipped upload dto user input now later t
          (check_confirm gateway config fresh skipped upload dto user input t))
        kept
        (confirm_checked-Atomic now later t
          (check_confirm gateway config fresh skipped upload dto user input t))

  confirm_unless_done-Atomic :
      (intent_id now later : ℕ) (seen current : Db) (o : Option PaymentCollection)
      → Atomic current (
          confirm_unless_done gateway config fresh skipped upload dto user input intent_id now later
            seen current o)
  unfolding confirm_unless_done prepare_prepaid_intent
  confirm_unless_done-Atomic intent_id now later seen current (some c) = λ e h. same current
  confirm_unless_done-Atomic intent_id now later seen current none =
      confirm_prepared-Atomic now later current _ (
        prepare_checked-SameStays intent_id now dto user current
          (check_prepare seen now dto user upload))

  confirm_requested-Atomic :
      (intent_id now later : ℕ) (seen current : Db) (c : Result (Unit {0}))
      → Atomic current (
          confirm_requested gateway config fresh skipped upload dto user input intent_id now later
            seen current c)
  unfolding confirm_requested
  confirm_requested-Atomic intent_id now later seen current (err thrown) = λ e h. same current
  confirm_requested-Atomic intent_id now later seen current (ok _) =
      confirm_unless_done-Atomic intent_id now later seen current _

-- confirmPrepaidBooking that fails leaves the bookings, the holds, the rooms, the collections and the
-- history of the bookings as they were: an error is never a half-made booking.
pub confirm_prepaid_booking-Atomic :
    (gateway : Gateway) (config : Config) (fresh : Fresh) (skipped : ℕ → Bool)
    (upload : Result (Unit {0})) (dto : CreateBookingDto) (user : AuthenticatedUser)
    (input : PaymentVerificationInput) (intent_id now later : ℕ) (seen current : Db) (e : Exception)
    → (confirm_prepaid_booking gateway config fresh skipped upload dto user input intent_id now
        later seen current).0
      ≡ err e
    → SameStays current
        (confirm_prepaid_booking gateway config fresh skipped upload dto user input intent_id now
          later seen current).1
unfolding confirm_prepaid_booking
confirm_prepaid_booking-Atomic gateway config fresh skipped upload dto user input intent_id now
      later seen current =
    confirm_requested-Atomic gateway config fresh skipped upload dto user input intent_id now later
      seen current _

-- verifyBookingPayment that fails leaves the bookings, the holds, the rooms, the collections and the
-- history of the bookings as they were.
pub verify_booking_payment-Atomic :
    (gateway : Gateway) (skipped : ℕ → Bool) (booking_id pilgrim_user_id : ℕ)
    (input : PaymentVerificationInput) (reconciling : Bool) (seen current : Db) (later : ℕ)
    (e : Exception)
    → (verify_booking_payment gateway skipped booking_id pilgrim_user_id input reconciling seen
        current later).0
      ≡ err e
    → SameStays current
        (verify_booking_payment gateway skipped booking_id pilgrim_user_id input reconciling seen
          current later).1
unfolding verify_booking_payment
verify_booking_payment-Atomic gateway skipped booking_id pilgrim_user_id input reconciling seen
      current later =
    verify_checked-Atomic gateway skipped booking_id pilgrim_user_id input reconciling current later
      _

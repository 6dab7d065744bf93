-- ===== src/Locks/Defs.antt =====
-- The operations of backend/src/modules/bookings/booking-locks.service.ts.
use tuljai_stays.Base.{
  ℕ, ◌+◌, Bool, true, false, ◌&&◌, ◌||◌, not, Option, none, some, List, [], ◌∷◌, ltb, leb, ◌==◌,
  if◌then◌else◌, is_none, find, count, update_where, length,
}
use tuljai_stays.Base.Results.{
  Result, ok, err, bad_request, conflict, ◌>>=◌, ◌>>◌, throw_if, commit,
}
use tuljai_stays.Store.{Db, Config, AuthenticatedUser}
use tuljai_stays.Store.Status.{LockStatus, lock_active}
use tuljai_stays.Store.Rows.{BookingLock, Stay, Action}
use tuljai_stays.Inventory.Defs.{Query, parse_date_range, get_availability, available}
use tuljai_stays.Bookings.Defs.{seconds}

-- a character of `[a-zA-Z0-9_-]`
abbrev pub key_char : ℕ → Bool
key_char c =
    leb b'a' c && leb c b'z'
    || leb b'A' c && leb c b'Z'
    || leb b'0' c && leb c b'9'
    || c == b'_'
    || c == b'-'

unfoldable pub all_key_chars : List ℕ → Bool
all_key_chars [] = true
all_key_chars (c ∷ cs) = key_char c && all_key_chars cs

-- `/^[a-zA-Z0-9_-]{16,128}$/`
unfoldable pub valid_key : List ℕ → Bool
unfolding all_key_chars
valid_key key = leb 16 (length key) && leb (length key) 128 && all_key_chars key

abbrev pub rejected_key : Option (List ℕ) → Bool
rejected_key none = false
rejected_key (some key) = not (valid_key key)

unfoldable pub text_eq : List ℕ → List ℕ → Bool
text_eq [] [] = true
text_eq (c ∷ cs) (d ∷ ds) = c == d && text_eq cs ds
text_eq _ _ = false

abbrev pub has_key : List ℕ → Option (List ℕ) → Bool
has_key key none = false
has_key key (some k) = text_eq k key

pub record CreateBookingLockDto : Type 0 where
  pub lodge_id : ℕ
  pub room_type_id : ℕ
  pub check_in_date : Option ℕ
  pub check_out_date : Option ℕ

-- the identifier and the code that a new hold draws
pub record FreshLock : Type 0 where
  pub id : ℕ
  pub lock_code : ℕ

-- a repeated key with other booking details
abbrev pub same_details : CreateBookingLockDto → Stay → BookingLock → Bool
same_details dto stay l =
    l.lodge_id == dto.lodge_id
    && l.room_type_id == dto.room_type_id
    && l.stay.check_in == stay.check_in
    && l.stay.check_out == stay.check_out

-- An empty key counts as none.
abbrev pub find_attempt : Option (List ℕ) → ℕ → List BookingLock → Option BookingLock
find_attempt none user_id locks = none
find_attempt (some []) user_id locks = none
find_attempt (some key) user_id locks =
    find (λ l. l.pilgrim_user_id == user_id && has_key key l.checkout_attempt_key) locks

module _ (config : Config) (now : ℕ) (fresh : FreshLock) (dto : CreateBookingLockDto) (user_id : ℕ)
    (key : Option (List ℕ)) (stay : Stay) where
  abbrev pub new_lock : BookingLock
  new_lock = record {
    id = fresh.id;
    lock_code = fresh.lock_code;
    checkout_attempt_key = key;
    pilgrim_user_id = user_id;
    lodge_id = dto.lodge_id;
    room_type_id = dto.room_type_id;
    room_id = none;
    stay = stay;
    expires_at = now + seconds config.lock_ttl_seconds;
    status = LockStatus.active;
    provider_order_id = none;
    order_amount = none;
  }

  unfoldable pub write_lock : Db → Db
  write_lock db = record db {
    booking_locks = new_lock ∷ db.booking_locks;
    audit_logs =
        record {
          action = Action.booking_lock_created;
          actor_user_id = some user_id;
          entity_id = fresh.id;
        }
        ∷ db.audit_logs;
  }

  abbrev pub lock_query : Query
  lock_query = record { stay = stay; now = now; exclude_booking_id = none; exclude_lock_id = none }

  -- The transaction, from the look at an earlier attempt on.
  unfoldable pub answer_attempt : Option BookingLock → Db → Result (BookingLock × Db)
  unfolding write_lock get_availability
  answer_attempt (some existing) db = do
    throw_if (not (same_details dto stay existing)) conflict
    throw_if (not (lock_active existing.status) || leb existing.expires_at now) conflict
    ok (existing, db)
  answer_attempt none db = do
    availability ← get_availability db lock_query dto.lodge_id dto.room_type_id
    throw_if (not (available availability)) conflict
    ok (new_lock, write_lock db)

  unfoldable pub create_lock_tx : Db → Result (BookingLock × Db)
  unfolding answer_attempt
  create_lock_tx db = answer_attempt (find_attempt key user_id db.booking_locks) db

unfoldable pub create_lock :
    Config
    → ℕ
    → FreshLock
    → CreateBookingLockDto
    → AuthenticatedUser
    → Option (List ℕ)
    → Db
    → Result BookingLock × Db
unfolding create_lock_tx parse_date_range
create_lock config now fresh dto user key db = commit db (do
  throw_if (rejected_key key) bad_request
  stay ← parse_date_range dto.check_in_date dto.check_out_date
  create_lock_tx config now fresh dto user.id key stay db)

abbrev pub prepaid_order_expiry : Config → ℕ → ℕ
prepaid_order_expiry config now = now + seconds config.prepaid_order_hold_seconds

abbrev attachable : ℕ → ℕ → BookingLock → Bool
attachable id now l =
    l.id == id && lock_active l.status && ltb now l.expires_at && is_none l.provider_order_id

abbrev pub attach : Config → ℕ → ℕ → ℕ → BookingLock → BookingLock
attach config now order amount l = record l {
  expires_at = prepaid_order_expiry config now;
  order_amount = some amount;
  provider_order_id = some order;
}

unfoldable pub attach_provider_order : Config → ℕ → ℕ → ℕ → ℕ → Db → Result (Unit {0}) × Db
attach_provider_order config now lock_id order amount db =
    let written = record db {
      booking_locks =
          update_where (attachable lock_id now) (attach config now order amount) db.booking_locks;
    } in
    if count (attachable lock_id now) db.booking_locks == 1
    then (ok tt, written)
    else (err conflict, written)

abbrev pub releasable : ℕ → ℕ → BookingLock → Bool
releasable lock_code user_id l =
    l.lock_code == lock_code && l.pilgrim_user_id == user_id && lock_active l.status

unfoldable pub release_lock : ℕ → ℕ → AuthenticatedUser → Db → Bool × Db
release_lock now lock_code user db = (
  ltb 0 (count (releasable lock_code user.id) db.booking_locks),
  record db {
    booking_locks =
        update_where (releasable lock_code user.id)
          (λ l. record l { expires_at = now; status = LockStatus.released }) db.booking_locks;
  },
)

abbrev pub lapsed : ℕ → BookingLock → Bool
lapsed now l = leb l.expires_at now && lock_active l.status

unfoldable pub expire_locks : ℕ → Db → ℕ × Db
expire_locks now db = (
  count (lapsed now) db.booking_locks,
  record db {
    booking_locks =
        update_where (lapsed now) (λ l. record l { status = LockStatus.expired }) db.booking_locks;
  },
)

-- ===== src/Cash/Defs.antt =====
-- `recordCashCollection`. The caller's access check is an argument, and so is the confirmed amount:
-- none stands for a text that is no amount. The collector's name in the audit entry is left out.
use tuljai_stays.Base.{
  ℕ, ◌+◌, Bool, true, false, ◌&&◌, ◌||◌, not, Option, none, some, List, [], ◌∷◌, ◌==◌, leb, ltb,
  if◌then◌else◌, is_some_eq, is_none, any, filter, update_where, length,
}
use tuljai_stays.Base.Results.{Result, ok, bad_request, conflict, ◌>>=◌, ◌>>◌, throw_if, commit}
use tuljai_stays.Store.{Db}
use tuljai_stays.Store.Status.{
  PaymentMethod, CollectionStatus, is_online, is_paid, collection_pending, at_lodge, is_checked_in,
}
use tuljai_stays.Store.Rows.{Booking, PaymentCollection, cash_reference, Action}
use tuljai_stays.Bookings.Defs.{find_booking_or_throw, update_booking}
use tuljai_stays.Bookings.Owner.{audit}

pub record Collected : Type 0 where
  pub changed : Bool
  pub lodge_id : ℕ

abbrev pub or_zero : Option ℕ → ℕ
or_zero none = 0
or_zero (some a) = a

abbrev pub or_else : Option ℕ → ℕ → ℕ
or_else none b = b
or_else (some a) b = a

abbrev pub total_of : Booking → ℕ
total_of b = or_zero b.total_amount

-- `balanceAmount ?? totalAmount ?? 0`
abbrev pub due_of : Booking → ℕ
due_of b = or_else b.balance_amount (total_of b)

abbrev pub cash_row : ℕ → PaymentCollection → Bool
cash_row booking_id c = c.booking_id == booking_id && not (is_online c.method)

unfoldable pub cash_rows : ℕ → List PaymentCollection → List PaymentCollection
cash_rows booking_id = filter (cash_row booking_id)

-- the sum of the rows with status PAID
unfoldable pub paid_sum : List PaymentCollection → ℕ
paid_sum [] = 0
paid_sum (c ∷ cs) = (if is_paid c.status then c.amount else 0) + paid_sum cs

abbrev pub adjusted : PaymentCollection → Bool
adjusted c = not (collection_pending c.status) || not (is_none c.provider)

abbrev pub pay : ℕ → ℕ → ℕ → PaymentCollection → PaymentCollection
pay booking_id due at c = record c {
  status = CollectionStatus.paid;
  amount = due;
  paid_at = some at;
  provider_reference = some (cash_reference booking_id);
}

abbrev pub cash_receipt : ℕ → ℕ → ℕ → ℕ → PaymentCollection
cash_receipt fresh booking_id due at = record {
  id = fresh;
  booking_id = booking_id;
  method = PaymentMethod.pay_at_lodge;
  provider = none;
  amount = due;
  status = CollectionStatus.paid;
  provider_order_id = none;
  provider_payment_id = none;
  provider_reference = some (cash_reference booking_id);
  paid_at = some at;
}

abbrev pub settle_row :
    ℕ → ℕ → ℕ → ℕ → List PaymentCollection → List PaymentCollection → List PaymentCollection
settle_row fresh booking_id due at [] table = cash_receipt fresh booking_id due at ∷ table
settle_row fresh booking_id due at (r ∷ _) table =
    update_where (λ c. c.id == r.id) (pay booking_id due at) table

abbrev pub clear_balance : Booking → Booking
clear_balance b = record b { balance_amount = some 0 }

module _ (fresh at actor : ℕ) (expected : Option ℕ) where
  unfoldable pub write_collection : Booking → Db → Db
  unfolding cash_rows
  write_collection b db = audit Action.pay_at_lodge_collected actor b.id (record db {
    payment_collections =
        settle_row fresh b.id (due_of b) at (cash_rows b.id db.payment_collections)
          db.payment_collections;
    bookings = update_booking b.id clear_balance db.bookings;
  })

  -- The checks on earlier collections and on the amount, and the write.
  unfoldable pub collect : Booking → Db → Result (Collected × Db)
  unfolding cash_rows paid_sum write_collection
  collect b db = do
    let rows = cash_rows b.id db.payment_collections
    throw_if (ltb 0 (paid_sum rows) || any adjusted rows || ltb 1 (length rows)) conflict
    throw_if (not (is_some_eq expected (due_of b)) || not (due_of b == total_of b)) conflict
    ok (record { changed = true; lodge_id = b.lodge_id }, write_collection b db)

  unfoldable pub settle : Booking → Db → Result (Collected × Db)
  unfolding collect
  settle b db =
      if leb (total_of b) (paid_sum (cash_rows b.id db.payment_collections))
      then ok (record { changed = false; lodge_id = b.lodge_id }, db)
      else collect b db

  unfoldable pub check_collectable : Booking → Result (Unit {0})
  check_collectable b = do
    throw_if (not (at_lodge b.payment_status) || not (is_checked_in b.status)) bad_request
    throw_if (total_of b == 0) bad_request

  unfoldable pub record_cash_collection : (ℕ → Result (Unit {0})) → ℕ → Db → Result Collected × Db
  unfolding find_booking_or_throw settle check_collectable
  record_cash_collection access booking_id db = commit db (do
    booking ← find_booking_or_throw db booking_id
    access booking.lodge_id
    check_collectable booking
    settle booking db)

-- ===== src/Tests/LockExamples.antt =====
-- The theorems on holds, applied.
use tuljai_stays.Base.{
  ℕ, suc, false, ◌-◌, ◌≡◌, refl, true, none, some, List, [], ◌∷◌, ltb, find, any, count,
}
use tuljai_stays.Base.Int.{◌+ℤ◌, ◌*ℤ◌, ◌-ℤ◌}
use tuljai_stays.Base.Results.{Result, ok, err, unavailable, ◌>>=◌, commit}
use tuljai_stays.Store.{Db}
use tuljai_stays.Store.Rows.{BookingLock}
use tuljai_stays.Inventory.Defs.{count_available_rooms}
use tuljai_stays.Locks.Defs.{
  CreateBookingLockDto, FreshLock, releasable, create_lock, find_attempt, new_lock, valid_key,
}
use tuljai_stays.Locks.Idempotency.{create_lock-again}
use tuljai_stays.Locks.Counting.{create_lock-takes_one}
use tuljai_stays.Payments.Order.{lost, create_idempotent_payment_order}
use tuljai_stays.Payments.Checkout.{
  Books, assert_online_payments_enabled, create_prepaid_hold, order_held, create_prepaid_order,
  order_resolved, place_order, attach_placed,
}
use tuljai_stays.Payments.Released.{create_prepaid_hold-released}
use tuljai_stays.Tests.Data.{the_db, the_config, the_pilgrim}

abbrev the_dto : CreateBookingLockDto
the_dto = record {
  lodge_id = 1;
  room_type_id = 1;
  check_in_date = some 30;
  check_out_date = some 32;
}

abbrev fresh_lock : FreshLock
fresh_lock = record { id = 34; lock_code = 340 }

abbrev rest_of_key : List ℕ
rest_of_key = 48 ∷ 49 ∷ 50 ∷ 51 ∷ 52 ∷ 53 ∷ 54 ∷ 55 ∷ 65 ∷ 66 ∷ 67 ∷ 68 ∷ 95 ∷ 45 ∷ 98 ∷ []

abbrev holding : Result BookingLock × Db
holding = create_lock the_config 500 fresh_lock the_dto the_pilgrim (some (97 ∷ rest_of_key)) the_db

abbrev held : BookingLock
held =
    new_lock the_config 500 fresh_lock the_dto 5 (some (97 ∷ rest_of_key))
      (record { check_in = 30; check_out = 32 })

holds : holding ≡ (ok held, holding.1)
unfolding create_lock ◌>>=◌ commit find any valid_key ◌+ℤ◌ ◌*ℤ◌ ◌-ℤ◌ count
holds = refl

create_lock-again_example :
    create_lock the_config 900
      (record { id = 35; lock_code = 350 })
      the_dto
      the_pilgrim
      (some (97 ∷ rest_of_key))
      holding.1
    ≡ (ok held, holding.1)
create_lock-again_example =
    create_lock-again the_config the_config 500 900 fresh_lock (record { id = 35; lock_code = 350 })
      the_dto the_pilgrim 97 rest_of_key the_db holds refl

not_used : find_attempt (some (97 ∷ rest_of_key)) 5 the_db.booking_locks ≡ none
unfolding find
not_used = refl

create_lock-takes_one_example :
    let left = λ (x : Db) (at : ℕ).
      count_available_rooms x
        (record { stay = held.stay; now = at; exclude_booking_id = none; exclude_lock_id = none })
        1
        1 in
    (ltb 0 (left the_db 500) ≡ true) × (left holding.1 900 ≡ left the_db 900 - 1)
create_lock-takes_one_example =
    create_lock-takes_one the_config 500 900 fresh_lock the_dto the_pilgrim
      (some (97 ∷ rest_of_key)) the_db not_used holds refl

abbrev open_books : Books
open_books = record {
  db = record the_db {
    payment_settings =
        some (record { online_payments_enabled = true; by_razorpay = true; is_displayed = true });
  };
  requests = [];
  orders = [];
}

abbrev no_key_lock : BookingLock
no_key_lock =
    new_lock the_config 500 fresh_lock the_dto 5 none (record { check_in = 30; check_out = 32 })

enabled_now : assert_online_payments_enabled open_books.db ≡ ok tt
unfolding assert_online_payments_enabled
enabled_now = refl

no_key_made :
    (create_lock the_config 500 fresh_lock the_dto the_pilgrim none open_books.db).0
    ≡ ok no_key_lock
unfolding create_lock ◌>>=◌ commit find any valid_key ◌+ℤ◌ ◌*ℤ◌ ◌-ℤ◌ count
no_key_made = refl

order_lost :
    (create_prepaid_hold
      (λ r. suc r)
      (lost none)
      63
      500
      the_config
      fresh_lock
      the_dto
      the_pilgrim
      none
      open_books).0
    ≡ err unavailable
unfolding create_prepaid_hold order_held create_prepaid_order order_resolved place_order
    attach_placed create_idempotent_payment_order create_lock ◌>>=◌ commit find any valid_key ◌+ℤ◌
    ◌*ℤ◌ ◌-ℤ◌ count
order_lost = refl

create_prepaid_hold-released_example :
    any
      (releasable 340 5)
      (create_prepaid_hold
        (λ r. suc r)
        (lost none)
        63
        500
        the_config
        fresh_lock
        the_dto
        the_pilgrim
        none
        open_books).1.db.booking_locks
    ≡ false
create_prepaid_hold-released_example =
    create_prepaid_hold-released (λ r. suc r) (lost none) 63 500 the_pilgrim the_config fresh_lock
      the_dto open_books no_key_lock unavailable enabled_now no_key_made order_lost

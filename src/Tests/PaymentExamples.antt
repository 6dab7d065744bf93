-- ===== src/Tests/PaymentExamples.antt =====
-- The theorems on payments, applied.
use tuljai_stays.Base.{
  ℕ, suc, ◌==◌, if◌then◌else◌, ◌≡◌, refl, ◌≤◌, ◌<◌, true, some, [], ◌∷◌, arith, count, find, filter,
  any,
}
use tuljai_stays.Base.Results.{Result, ok, ◌>>=◌, commit}
use tuljai_stays.Store.{Db}
use tuljai_stays.Store.Status.{BookingStatus}
use tuljai_stays.Store.Rows.{Booking}
use tuljai_stays.Payments.Order.{
  GatewayOrder, CreatePaymentInput, answered, with_receipt, upsert_request, claim_request,
  fail_request, unknown, new_with, create_idempotent_payment_order,
}
use tuljai_stays.Payments.OrderSteps.{
  World, Reach, raise, lower, here, next, upserts, claims, posts, records_unknown,
}
use tuljai_stays.Payments.OneOrder.{empty_world, at_most_one_order}
use tuljai_stays.Payments.OrderRuns.{Leads, MadeFor, create_idempotent_payment_order-Leads}
use tuljai_stays.Cash.Defs.{Collected, record_cash_collection}
use tuljai_stays.Cash.Once.{Settled, Unchanged, record_cash_collection-once}
use tuljai_stays.Tests.Data.{the_db, first_booking}

abbrev the_order : GatewayOrder
the_order = record { id = 900; receipt = 8; amount = 200000; currency = 0 }

abbrev the_input : CreatePaymentInput
the_input = record { amount = 200000; currency = 0 }

abbrev the_receipt : ℕ → ℕ
the_receipt r = suc r

abbrev requested : World
requested = record empty_world { requests = (upsert_request the_receipt 7 the_input []).1 }

abbrev claimed : World
claimed = record requested {
  requests = claim_request 7 requested.requests;
  posting = λ k. if k == 7 then 1 else 0;
}

-- An order is made and its answer is lost; a second attempt meets the request.
abbrev after_retry : World
after_retry = record empty_world {
  requests =
      (upsert_request the_receipt 7 the_input
        (fail_request 7 unknown (claim_request 7 requested.requests))).1;
  orders = the_order ∷ [];
  posting = lower 7 (raise 7 (λ k. 0));
}

one_right : 0 < count (new_with 7) requested.requests
unfolding upsert_request count find
one_right = ground arith

retrying : Reach the_receipt empty_world after_retry
retrying =
    next
      (next
        (next (next (next here (upserts 7 the_input)) (claims 7 one_right))
          (posts 7 the_order (ground arith) refl))
        (records_unknown 7))
      (upserts 7 the_input)

at_most_one_order_example : count (with_receipt 8) (the_order ∷ []) ≤ 1
at_most_one_order_example = at_most_one_order the_receipt (λ r s h. ground arith) 7 retrying

create_idempotent_payment_order-Leads_example :
    let out = create_idempotent_payment_order the_receipt 7 the_input (answered the_order) [] [] in
    Leads the_receipt empty_world out.1 out.2
unfolding MadeFor
create_idempotent_payment_order-Leads_example =
    create_idempotent_payment_order-Leads the_receipt empty_world 7 the_input (answered the_order)
      empty_world refl here

-- The first guest has checked in, and pays.
abbrev arrived : Booking
arrived = record first_booking { status = BookingStatus.checked_in }

abbrev arrived_db : Db
arrived_db = record the_db { bookings = arrived ∷ [] }

abbrev paying : Result Collected × Db
paying = record_cash_collection 61 400 9 (some 200000) (λ l. ok tt) 1 arrived_db

paid : paying ≡ (ok (record { changed = true; lodge_id = 1 }), paying.1)
unfolding record_cash_collection ◌>>=◌ commit find filter any
paid = refl

record_cash_collection-once_example :
    Settled paying.1 1
    × Unchanged paying.1 (record_cash_collection 62 500 9 (some 200000) (λ l. ok tt) 1 paying.1)
record_cash_collection-once_example =
    record_cash_collection-once 61 400 9 (some 200000) (λ l. ok tt) 62 500 9 (some 200000)
      (λ l. ok tt) 1 arrived_db paid

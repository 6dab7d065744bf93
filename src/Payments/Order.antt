-- ===== src/Payments/Order.antt =====
-- backend/src/modules/payments/payment-order-idempotency.ts: at most one gateway order for a
-- reference, through crashes, retries and lost answers. The receipt of a reference, a hash, is a
-- parameter.
use tuljai_stays.Base.{
  ℕ, Bool, true, false, ◌&&◌, Option, none, some, List, [], ◌∷◌, ltb, ◌==◌, if◌then◌else◌, find,
  count, filter, update_where,
}
use tuljai_stays.Base.Results.{Result, ok, err, bad_request, conflict, unavailable}

pub data RequestStatus : Type 0 where
  new creating created unknown : RequestStatus

-- a row of `payment_order_requests`
pub record OrderRequest : Type 0 where
  pub reference : ℕ
  pub receipt : ℕ
  pub amount : ℕ
  pub currency : ℕ
  pub status : RequestStatus
  pub provider_order_id : Option ℕ

-- an order as the gateway keeps it
pub record GatewayOrder : Type 0 where
  pub id : ℕ
  pub receipt : ℕ
  pub amount : ℕ
  pub currency : ℕ

pub record PaymentOrder : Type 0 where
  pub order_id : ℕ
  pub amount : ℕ
  pub currency : ℕ

pub record CreatePaymentInput : Type 0 where
  pub amount : ℕ
  pub currency : ℕ

-- How the gateway meets a POST: an order and its answer; an explicit rejection
-- (`RazorpayOrderRejectedException`); an order or none, and an answer with no order's identifier; or
-- an order or none, and no answer that proves which.
pub data PostOutcome : Type 0 where
  answered : GatewayOrder → PostOutcome
  rejected : PostOutcome
  answered_without_id : Option GatewayOrder → PostOutcome
  lost : Option GatewayOrder → PostOutcome

abbrev pub is_new : RequestStatus → Bool
is_new new = true
is_new _ = false

abbrev pub is_creating : RequestStatus → Bool
is_creating creating = true
is_creating _ = false

abbrev pub has_reference : ℕ → OrderRequest → Bool
has_reference r q = q.reference == r

abbrev pub new_with : ℕ → OrderRequest → Bool
new_with r q = q.reference == r && is_new q.status

abbrev pub creating_with : ℕ → OrderRequest → Bool
creating_with r q = q.reference == r && is_creating q.status

abbrev pub set_request_status : RequestStatus → OrderRequest → OrderRequest
set_request_status s q = record q { status = s }

module _ (receipt_of : ℕ → ℕ) where
  abbrev pub new_request : ℕ → CreatePaymentInput → OrderRequest
  new_request r input = record {
    reference = r;
    receipt = receipt_of r;
    amount = input.amount;
    currency = input.currency;
    status = new;
    provider_order_id = none;
  }

  abbrev pub or_insert :
      Option OrderRequest → OrderRequest → List OrderRequest → OrderRequest × List OrderRequest
  or_insert (some q) fresh table = (q, table)
  or_insert none fresh table = (fresh, fresh ∷ table)

  -- `upsert` with an empty update
  unfoldable pub upsert_request :
      ℕ → CreatePaymentInput → List OrderRequest → OrderRequest × List OrderRequest
  upsert_request r input table =
      or_insert (find (has_reference r) table) (new_request r input) table

-- the three updates of the claim: NEW to CREATING, CREATING to NEW or UNKNOWN, and any to CREATED
unfoldable pub claim_request : ℕ → List OrderRequest → List OrderRequest
claim_request r = update_where (new_with r) (set_request_status creating)

unfoldable pub fail_request : ℕ → RequestStatus → List OrderRequest → List OrderRequest
fail_request r s = update_where (creating_with r) (set_request_status s)

unfoldable pub complete_request : ℕ → ℕ → List OrderRequest → List OrderRequest
complete_request r id =
    update_where (has_reference r) (λ q. record q { status = created; provider_order_id = some id })

abbrev pub keep : Option GatewayOrder → List GatewayOrder → List GatewayOrder
keep none orders = orders
keep (some o) orders = o ∷ orders

abbrev pub as_order : OrderRequest → ℕ → PaymentOrder
as_order q id = record { order_id = id; amount = q.amount; currency = q.currency }

abbrev pub of_gateway : GatewayOrder → PaymentOrder
of_gateway o = record { order_id = o.id; amount = o.amount; currency = o.currency }

-- The end of an attempt: the order must be the one that was asked for.
unfoldable pub record_order :
    ℕ → OrderRequest → PaymentOrder → List OrderRequest → Result PaymentOrder × List OrderRequest
unfolding complete_request
record_order r q order table =
    if order.amount == q.amount && order.currency == q.currency
    then (ok order, complete_request r order.order_id table)
    else (err conflict, table)

-- After a claim: the POST.
unfoldable pub post_order :
    ℕ
    → OrderRequest
    → PostOutcome
    → List OrderRequest × List GatewayOrder
    → Result PaymentOrder × List OrderRequest × List GatewayOrder
unfolding record_order fail_request
post_order r q (answered o) (table, orders) =
    let (result, table') = record_order r q (of_gateway o) table in (result, table', o ∷ orders)
post_order r q rejected (table, orders) = (err bad_request, fail_request r new table, orders)
post_order r q (answered_without_id o) (table, orders) = (err conflict, table, keep o orders)
post_order r q (lost o) (table, orders) =
    (err unavailable, fail_request r unknown table, keep o orders)

-- Without a claim: the lookup by receipt.
unfoldable pub adopt_order :
    ℕ
    → OrderRequest
    → ℕ
    → List GatewayOrder
    → List OrderRequest
    → Result PaymentOrder × List OrderRequest
unfolding record_order
adopt_order r q receipt [] table = (err unavailable, table)
adopt_order r q receipt (o ∷ []) table =
    if o.receipt == receipt then record_order r q (of_gateway o) table else (err conflict, table)
adopt_order r q receipt (o ∷ _ ∷ _) table = (err conflict, table)

abbrev pub with_receipt : ℕ → GatewayOrder → Bool
with_receipt receipt o = o.receipt == receipt

abbrev pub beside :
    List GatewayOrder
    → Result PaymentOrder × List OrderRequest
    → Result PaymentOrder × List OrderRequest × List GatewayOrder
beside orders (result, table) = (result, table, orders)

-- From the row on: an order that is known is the answer.
unfoldable pub attempt_order :
    ℕ
    → OrderRequest
    → ℕ
    → PostOutcome
    → List OrderRequest
    → List GatewayOrder
    → Option ℕ
    → Result PaymentOrder × List OrderRequest × List GatewayOrder
unfolding claim_request post_order adopt_order
attempt_order r q receipt outcome table orders (some id) = (ok (as_order q id), table, orders)
attempt_order r q receipt outcome table orders none =
    if ltb 0 (count (new_with r) table)
    then post_order r q outcome (claim_request r table, orders)
    else beside orders (adopt_order r q receipt (filter (with_receipt receipt) orders) table)

unfoldable pub create_idempotent_payment_order :
    (ℕ → ℕ)
    → ℕ
    → CreatePaymentInput
    → PostOutcome
    → List OrderRequest
    → List GatewayOrder
    → Result PaymentOrder × List OrderRequest × List GatewayOrder
unfolding upsert_request attempt_order
create_idempotent_payment_order receipt_of r input outcome table orders =
    let (q, table') = upsert_request receipt_of r input table in
    if q.amount == input.amount && q.currency == input.currency
    then attempt_order r q (receipt_of r) outcome table' orders q.provider_order_id
    else (err conflict, table', orders)

-- ===== src/Payments/OrderRuns.antt =====
-- A whole run of createIdempotentPaymentOrder is a sequence of the atomic steps.
use tuljai_stays.Base.{
  ℕ, ◌<◌, ◌≡◌, refl, ◌&&◌, Option, none, some, List, [], ◌∷◌, arith, ◌==◌, ltb, if◌then◌else◌,
  count, Bool-cases, inl, inr, ltb→lt,
}
use tuljai_stays.Payments.Order.{
  OrderRequest, GatewayOrder, PaymentOrder, CreatePaymentInput, PostOutcome, answered, rejected,
  answered_without_id, lost, new_with, of_gateway, upsert_request, record_order, post_order,
  adopt_order, attempt_order, create_idempotent_payment_order,
}
use tuljai_stays.Payments.OrderSteps.{
  World, Reach, raise, upserts, claims, posts, fails, is_refused, records_refusal, records_unknown,
  records_order, next,
}

-- What the gateway is relied on for: an order it makes carries the receipt that was posted.
unfoldable pub MadeFor : ℕ → PostOutcome → Type 0
MadeFor receipt (answered o) = o.receipt ≡ receipt
MadeFor receipt rejected = Unit
MadeFor receipt (answered_without_id none) = Unit
MadeFor receipt (answered_without_id (some o)) = o.receipt ≡ receipt
MadeFor receipt (lost none) = Unit
MadeFor receipt (lost (some o)) = o.receipt ≡ receipt

module _ (receipt_of : ℕ → ℕ) (start : World) where
  -- Steps lead to a world with these two tables.
  abbrev pub Leads : List OrderRequest → List GatewayOrder → Type 0
  Leads table orders =
      (w : World) × Reach receipt_of start w × (w.requests ≡ table) × (w.orders ≡ orders)

  record_order-Leads :
      (r : ℕ) (q : OrderRequest) (order : PaymentOrder) (w : World)
      → Reach receipt_of start w
      → Leads (record_order r q order w.requests).1 w.orders
  unfolding record_order
  record_order-Leads r q order w before =
      elim (Bool-cases (order.amount == q.amount && order.currency == q.currency)) [
        | inl e ↦
            rw (e, if◌then◌else◌) (_, next before (records_order r order.order_id), refl, refl)
        | inr e ↦ rw (e, if◌then◌else◌) (w, before, refl, refl)
      ]

  post_order-Leads :
      (r : ℕ) (q : OrderRequest) (outcome : PostOutcome) (w : World)
      → 0 < w.posting r
      → MadeFor (receipt_of r) outcome
      → Reach receipt_of start w
      → let out = post_order r q outcome (w.requests, w.orders) in Leads out.1 out.2
  unfolding post_order MadeFor
  post_order-Leads r q (answered o) w sent made before =
      record_order-Leads r q (of_gateway o) _ (next before (posts r o sent made))
  post_order-Leads r q rejected w sent made before =
      let pending : 0 < raise r w.refused r = ground arith in
      (_, next (next before (is_refused r sent)) (records_refusal r pending), refl, refl)
  post_order-Leads r q (answered_without_id none) w sent made before =
      (_, next before (fails r sent), refl, refl)
  post_order-Leads r q (answered_without_id (some o)) w sent made before =
      (_, next before (posts r o sent made), refl, refl)
  post_order-Leads r q (lost none) w sent made before =
      (_, next (next before (fails r sent)) (records_unknown r), refl, refl)
  post_order-Leads r q (lost (some o)) w sent made before =
      (_, next (next before (posts r o sent made)) (records_unknown r), refl, refl)

  adopt_order-Leads :
      (r : ℕ) (q : OrderRequest) (receipt : ℕ) (matches : List GatewayOrder) (w : World)
      → Reach receipt_of start w
      → Leads (adopt_order r q receipt matches w.requests).1 w.orders
  unfolding adopt_order
  adopt_order-Leads r q receipt [] w before = (w, before, refl, refl)
  adopt_order-Leads r q receipt (o ∷ []) w before = elim (Bool-cases (o.receipt == receipt)) [
    | inl e ↦ rw (e, if◌then◌else◌) (record_order-Leads r q (of_gateway o) w before)
    | inr e ↦ rw (e, if◌then◌else◌) (w, before, refl, refl)
  ]
  adopt_order-Leads r q receipt (o ∷ _ ∷ _) w before = (w, before, refl, refl)

  attempt_order-Leads :
      (r : ℕ) (q : OrderRequest) (outcome : PostOutcome) (w : World) (known : Option ℕ)
      → MadeFor (receipt_of r) outcome
      → Reach receipt_of start w
      → let out = attempt_order r q (receipt_of r) outcome w.requests w.orders known in
        Leads out.1 out.2
  unfolding attempt_order
  attempt_order-Leads r q outcome w (some id) made before = (w, before, refl, refl)
  attempt_order-Leads r q outcome w none made before =
      elim (Bool-cases (ltb 0 (count (new_with r) w.requests))) [
        | inl e ↦
            rw (e, if◌then◌else◌)
              (post_order-Leads r q outcome _ (ground arith) made
                (next before (claims r (ltb→lt 0 _ e))))
        | inr e ↦ rw (e, if◌then◌else◌) (adopt_order-Leads r q (receipt_of r) _ w before)
      ]

-- A run of createIdempotentPaymentOrder, whatever it returns, writes its table and makes its orders
-- by a sequence of the atomic steps, if the gateway makes orders with the receipt that was posted.
pub create_idempotent_payment_order-Leads :
    (receipt_of : ℕ → ℕ) (start : World) (r : ℕ) (input : CreatePaymentInput)
    (outcome : PostOutcome) (w : World)
    → MadeFor (receipt_of r) outcome
    → Reach receipt_of start w
    → let out = create_idempotent_payment_order receipt_of r input outcome w.requests w.orders in
      Leads receipt_of start out.1 out.2
unfolding create_idempotent_payment_order
create_idempotent_payment_order-Leads receipt_of start r input outcome w made before =
    let after = next before (upserts r input) in
    let q = (upsert_request receipt_of r input w.requests).0 in
    elim (Bool-cases (q.amount == input.amount && q.currency == input.currency)) [
      | inl e ↦
          rw (e, if◌then◌else◌)
            (attempt_order-Leads receipt_of start r q outcome _ q.provider_order_id made after)
      | inr e ↦ rw (e, if◌then◌else◌) (_, after, refl, refl)
    ]

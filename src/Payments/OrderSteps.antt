-- ===== src/Payments/OrderSteps.antt =====
-- The atomic steps of concurrent attempts to create a gateway order, with a crash possible between
-- any two of them.
use tuljai_stays.Base.{ℕ, ◌+◌, ◌-◌, ◌<◌, ◌≡◌, List, ◌∷◌, ◌==◌, if◌then◌else◌, count}
use tuljai_stays.Payments.Order.{
  OrderRequest, GatewayOrder, CreatePaymentInput, new_with, upsert_request, claim_request,
  fail_request, complete_request, new, unknown,
}

-- `posting` counts, for each reference, the attempts that have claimed and not yet sent their POST;
-- `refused` those whose POST was rejected and that have not yet recorded it.
pub record World : Type 0 where
  pub requests : List OrderRequest
  pub orders : List GatewayOrder
  pub posting : ℕ → ℕ
  pub refused : ℕ → ℕ

abbrev pub raise : ℕ → (ℕ → ℕ) → ℕ → ℕ
raise r f k = if k == r then f k + 1 else f k

abbrev pub lower : ℕ → (ℕ → ℕ) → ℕ → ℕ
lower r f k = if k == r then f k - 1 else f k

module _ (receipt_of : ℕ → ℕ) where
  pub data Step (w : World) : World → Type 0 where
    upserts :
        (r : ℕ) (input : CreatePaymentInput)
        → Step w (record w { requests = (upsert_request receipt_of r input w.requests).1 })
    claims :
        (r : ℕ)
        → 0 < count (new_with r) w.requests
        → Step w (record w { requests = claim_request r w.requests; posting = raise r w.posting })
    posts :
        (r : ℕ) (o : GatewayOrder)
        → 0 < w.posting r
        → o.receipt ≡ receipt_of r
        → Step w (record w { orders = o ∷ w.orders; posting = lower r w.posting })
    fails : (r : ℕ) → 0 < w.posting r → Step w (record w { posting = lower r w.posting })
    is_refused :
        (r : ℕ)
        → 0 < w.posting r
        → Step w (record w { posting = lower r w.posting; refused = raise r w.refused })
    records_refusal :
        (r : ℕ)
        → 0 < w.refused r
        → Step w
            (record w { requests = fail_request r new w.requests; refused = lower r w.refused })
    records_unknown : (r : ℕ) → Step w (record w { requests = fail_request r unknown w.requests })
    records_order : (r id : ℕ) → Step w (record w { requests = complete_request r id w.requests })
    crashes : (r : ℕ) → 0 < w.refused r → Step w (record w { refused = lower r w.refused })

  pub data Reach (w : World) : World → Type 0 where
    here : Reach w w
    next : {t u : World} → Reach w t → Step t u → Reach w u

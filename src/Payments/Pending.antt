-- ===== src/Payments/Pending.antt =====
-- `reconcilePending` of backend/src/modules/payments/payments.service.ts: the due intents, a lease
-- on each by a conditional update, and the time of the next attempt.
use tuljai_stays.Base.{
  ℕ, zero, suc, ◌+◌, ◌*◌, ◌^◌, ◌≤◌, ◌≡◌, min, arith, Bool, false, ◌&&◌, List, [], ◌∷◌, ◌==◌, leb,
  ltb, if◌then◌else◌, count, filter, update_where,
}
use tuljai_stays.Base.Counts.{count-update_where_le, count-none, update_where-none}
use tuljai_stays.Base.Results.{Result}
use tuljai_stays.Store.{Db, Config}
use tuljai_stays.Store.Status.{intent_pending}
use tuljai_stays.Store.Rows.{PaymentIntent}
use tuljai_stays.Bookings.Defs.{Fresh}
use tuljai_stays.Payments.Gateway.{Gateway}
use tuljai_stays.Payments.Reconcile.{reconcile_order}

abbrev pub is_due : ℕ → PaymentIntent → Bool
is_due now i = intent_pending i.status && leb i.next_check_at now

-- `orderBy: { nextCheckAt: 'asc' }`
unfoldable pub insert_by_check : PaymentIntent → List PaymentIntent → List PaymentIntent
insert_by_check i [] = i ∷ []
insert_by_check i (j ∷ js) =
    let rest = insert_by_check i js in
    if leb i.next_check_at j.next_check_at then i ∷ j ∷ js else j ∷ rest

unfoldable pub sort_by_check : List PaymentIntent → List PaymentIntent
unfolding insert_by_check
sort_by_check [] = []
sort_by_check (i ∷ is) = insert_by_check i (sort_by_check is)

abbrev pub take {ℓ} : {A : Type ℓ} → ℕ → List A → List A
take zero xs = []
take (suc n) [] = []
take (suc n) (x ∷ xs) = x ∷ take n xs

unfoldable pub due_intents : ℕ → Db → List PaymentIntent
unfolding sort_by_check
due_intents now db = take 10 (sort_by_check (filter (is_due now) db.payment_intents))

-- `Math.min(3_600_000, 60_000 * 2 ** Math.min(intent.attempts, 6))`
unfoldable pub back_off : ℕ → ℕ
back_off attempts = min 3600000 (60000 * 2 ^ min attempts 6)

abbrev pub claimable : PaymentIntent → PaymentIntent → Bool
claimable i x = x.id == i.id && intent_pending x.status && x.next_check_at == i.next_check_at

abbrev pub lease : ℕ → PaymentIntent → PaymentIntent → PaymentIntent
lease now i x = record x { attempts = x.attempts + 1; next_check_at = now + back_off i.attempts }

unfoldable pub claim_intent : ℕ → PaymentIntent → List PaymentIntent → List PaymentIntent
unfolding back_off
claim_intent now i = update_where (claimable i) (lease now i)

-- What a round of the loop draws and meets.
pub record Round : Type 0 where
  pub fresh : Fresh
  pub skipped : ℕ → Bool
  pub upload : Result (Unit {0})
  pub now : ℕ
  pub later : ℕ

module _ (gateway : Gateway) (config : Config) (rounds : ℕ → Round) where
  unfoldable pub claimed_db : PaymentIntent → Db → Db
  unfolding claim_intent
  claimed_db i db = record db {
    payment_intents = claim_intent (rounds i.id).now i db.payment_intents;
  }

  -- An error of the reconciliation is logged, and the loop goes on.
  unfoldable pub reconcile_round : PaymentIntent → Db → Db
  unfolding claimed_db reconcile_order
  reconcile_round i db =
      let w = claimed_db i db in
      if ltb 0 (count (claimable i) db.payment_intents)
      then (reconcile_order gateway config (rounds i.id).fresh (rounds i.id).skipped
          (rounds i.id).upload i.provider_order_id w (rounds i.id).now w (rounds i.id).later).1
      else w

  unfoldable pub reconcile_each : List PaymentIntent → Db → Db
  unfolding reconcile_round
  reconcile_each [] db = db
  reconcile_each (i ∷ is) db = reconcile_each is (reconcile_round i db)

  unfoldable pub reconcile_pending : ℕ → Db → Db → Db
  unfolding due_intents reconcile_each
  reconcile_pending now seen current = reconcile_each (due_intents now seen) current

back_off-bounds : (attempts : ℕ) → (60000 ≤ back_off attempts) × (back_off attempts ≤ 3600000)
unfolding back_off
back_off-bounds zero = (ground arith, ground arith)
back_off-bounds (suc zero) = (ground arith, ground arith)
back_off-bounds (suc (suc zero)) = (ground arith, ground arith)
back_off-bounds (suc (suc (suc zero))) = (ground arith, ground arith)
back_off-bounds (suc (suc (suc (suc zero)))) = (ground arith, ground arith)
back_off-bounds (suc (suc (suc (suc (suc zero))))) = (ground arith, ground arith)
back_off-bounds (suc (suc (suc (suc (suc (suc n)))))) =
    let six : min (suc (suc (suc (suc (suc (suc n)))))) 6 ≡ 6 = ground arith in
    rw six (ground arith, ground arith)

-- When one instance has claimed an intent that was due, another that read the same row at any later
-- or earlier time claims nothing, and leaves the intents as they are.
pub claim_intent-once :
    (now again : ℕ) (i : PaymentIntent) (table : List PaymentIntent)
    → i.next_check_at ≤ now
    → (count (claimable i) (claim_intent now i table) ≡ 0)
      × (claim_intent again i (claim_intent now i table) ≡ claim_intent now i table)
unfolding claim_intent
claim_intent-once now again i table due =
    let bound = back_off-bounds i.attempts in
    let gone =
      count-update_where_le (claimable i) (λ _. false) (claimable i) (lease now i)
        (λ x h. ground (arith, bound)) table in
    let zero = count-none table in
    let unclaimed : count (claimable i) (claim_intent now i table) ≡ 0 = ground arith in
    (unclaimed, update_where-none (claimable i) (lease again i) _ unclaimed)

-- ===== src/Payments/OneOrder.antt =====
-- At most one gateway order for a reference. A row in state NEW is the only right to send a POST, and
-- that right is spent before the POST goes out.
use tuljai_stays.Base.{
  ℕ, ◌+◌, ◌≤◌, ◌<◌, ◌≡◌, refl, true, false, List, [], arith, ◌==◌, find, count, Option-cases, inl,
  inr,
}
use tuljai_stays.Base.Counts.{
  count-update_where_le, count-update_where, count-le, count-find-none, count-none,
}
use tuljai_stays.Payments.Order.{
  RequestStatus, OrderRequest, GatewayOrder, CreatePaymentInput, new, creating, unknown,
  set_request_status, has_reference, new_with, creating_with, with_receipt, upsert_request,
  claim_request, fail_request, complete_request,
}
use tuljai_stays.Payments.OrderSteps.{
  World, Step, Reach, upserts, claims, posts, fails, is_refused, records_refusal, records_unknown,
  records_order, crashes, here, next,
}

abbrev rows : ℕ → List OrderRequest → ℕ
rows r = count (has_reference r)

abbrev rights : ℕ → List OrderRequest → ℕ
rights r = count (new_with r)

rights-rows : (r : ℕ) (table : List OrderRequest) → rights r table ≤ rows r table
rights-rows r table = count-le (new_with r) (has_reference r) (λ q h. ground arith) table

claim-rows : (k r : ℕ) (table : List OrderRequest) → rows k (claim_request r table) ≡ rows k table
unfolding claim_request
claim-rows k r table = count-update_where (has_reference k) (new_with r) _ (λ q. refl) table

claim-rights :
    (k r : ℕ) (table : List OrderRequest) → rights k (claim_request r table) ≤ rights k table
unfolding claim_request
claim-rights k r table =
    count-update_where_le (new_with k) (new_with k) (new_with r) _ (λ q h. ground arith) table

claim-spent : (r : ℕ) (table : List OrderRequest) → rights r (claim_request r table) ≤ 0
unfolding claim_request
claim-spent r table =
    let spent =
      count-update_where_le (new_with r) (λ _. false) (new_with r) (set_request_status creating)
        (λ q h. ground arith) table in
    let zero = count-none table in ground arith

fail-rows :
    (k r : ℕ) (s : RequestStatus) (table : List OrderRequest)
    → rows k (fail_request r s table) ≡ rows k table
unfolding fail_request
fail-rows k r s table = count-update_where (has_reference k) (creating_with r) _ (λ q. refl) table

-- Only the failed reference gets its right back, and only by `new`.
fail_unknown-rights :
    (k r : ℕ) (table : List OrderRequest) → rights k (fail_request r unknown table) ≤ rights k table
unfolding fail_request
fail_unknown-rights k r table =
    count-update_where_le (new_with k) (new_with k) (creating_with r) _ (λ q h. ground arith) table

fail_new-rights :
    (k r : ℕ) (table : List OrderRequest)
    → (k ≡ r → ⊥)
    → rights k (fail_request r new table) ≤ rights k table
unfolding fail_request
fail_new-rights k r table ne =
    count-update_where_le (new_with k) (new_with k) (creating_with r) _ (λ q h. ground arith) table

complete-rows :
    (k r id : ℕ) (table : List OrderRequest) → rows k (complete_request r id table) ≡ rows k table
unfolding complete_request
complete-rows k r id table =
    count-update_where (has_reference k) (has_reference r) _ (λ q. refl) table

complete-rights :
    (k r id : ℕ) (table : List OrderRequest)
    → rights k (complete_request r id table) ≤ rights k table
unfolding complete_request
complete-rights k r id table =
    count-update_where_le (new_with k) (new_with k) (has_reference r) _ (λ q h. ground arith) table

module _ (receipt_of : ℕ → ℕ) where
  abbrev orders_for : ℕ → List GatewayOrder → ℕ
  orders_for r = count (with_receipt (receipt_of r))

  -- What a reference may still use up, and the orders it has, fit in its rows, of which there is one.
  record Spent (w : World) (k : ℕ) : Type 0 where
    one_row : rows k w.requests ≤ 1
    spent :
        w.posting k + w.refused k + rights k w.requests + orders_for k w.orders ≤ rows k w.requests

  upsert-Spent :
      (w : World) (r k : ℕ) (input : CreatePaymentInput)
      → Spent w k
      → Spent (record w { requests = (upsert_request receipt_of r input w.requests).1 }) k
  unfolding upsert_request count
  upsert-Spent w r k input s = elim (Option-cases (find (has_reference r) w.requests)) [
    | inl e ↦
        rw e
          let none_yet = count-find-none (has_reference r) w.requests e in
            let one = s.one_row in
            let fits = s.spent in
            let same : r == k ≡ true → rows k w.requests ≡ 0 = λ h. ground (arith, none_yet) in
            record { one_row = ground (arith, same); spent = ground (arith, same) }
    | inr (q, e) ↦ rw e s
  ]

  Step-Spent :
      (injective : (r r' : ℕ) → receipt_of r ≡ receipt_of r' → r ≡ r') {w w' : World} (k : ℕ)
      → Step receipt_of w w'
      → Spent w k
      → Spent w' k
  unfolding count
  Step-Spent injective {w} k (upserts r input) s = upsert-Spent w r k input s
  Step-Spent injective {w} k (claims r right) s =
      let one = s.one_row in
      let fits = s.spent in
      let row = claim-rows k r w.requests in
      let kept = claim-rights k r w.requests in
      let gone = claim-spent r w.requests in
      let gone' : k ≡ r → rights k (claim_request r w.requests) ≤ 0 = λ e. rw e gone in
      let right' : k ≡ r → 0 < rights k w.requests = λ e. rw e right in
      record { one_row = ground arith; spent = ground (arith, gone', right') }
  Step-Spent injective {w} k (posts r o sent receipt) s =
      let one = s.one_row in
      let fits = s.spent in
      let own = injective r k in
      let sent' : k ≡ r → 0 < w.posting k = λ e. rw e sent in
      record { one_row = one; spent = ground (arith, own, sent') }
  Step-Spent injective {w} k (fails r sent) s =
      let fits = s.spent in record { one_row = s.one_row; spent = ground arith }
  Step-Spent injective {w} k (is_refused r sent) s =
      let fits = s.spent in
      let sent' : k ≡ r → 0 < w.posting k = λ e. rw e sent in
      record { one_row = s.one_row; spent = ground (arith, sent') }
  Step-Spent injective {w} k (records_refusal r pending) s =
      let one = s.one_row in
      let fits = s.spent in
      let row = fail-rows k r new w.requests in
      let bound = rights-rows k (fail_request r new w.requests) in
      let kept = fail_new-rights k r w.requests in
      let pending' : k ≡ r → 0 < w.refused k = λ e. rw e pending in
      record { one_row = ground arith; spent = ground (arith, kept, pending') }
  Step-Spent injective {w} k (records_unknown r) s =
      let one = s.one_row in
      let fits = s.spent in
      let row = fail-rows k r unknown w.requests in
      let kept = fail_unknown-rights k r w.requests in
      record { one_row = ground arith; spent = ground arith }
  Step-Spent injective {w} k (records_order r id) s =
      let one = s.one_row in
      let fits = s.spent in
      let row = complete-rows k r id w.requests in
      let kept = complete-rights k r id w.requests in
      record { one_row = ground arith; spent = ground arith }
  Step-Spent injective {w} k (crashes r pending) s =
      let fits = s.spent in record { one_row = s.one_row; spent = ground arith }

  Reach-Spent :
      (injective : (r r' : ℕ) → receipt_of r ≡ receipt_of r' → r ≡ r') {w w' : World} (k : ℕ)
      → Reach receipt_of w w'
      → Spent w k
      → Spent w' k
  Reach-Spent injective k here s = s
  Reach-Spent injective k (next before step) s =
      Step-Spent injective k step (Reach-Spent injective k before s)

-- No request, no order, no attempt under way.
abbrev pub empty_world : World
empty_world = record { requests = []; orders = []; posting = λ _. 0; refused = λ _. 0 }

-- From the empty world, whatever the interleaving of the atomic steps of concurrent and repeated
-- attempts, with crashes between any two and with answers lost, the gateway holds at most one order
-- with the receipt of a reference, provided that different references have different receipts.
pub at_most_one_order :
    (receipt_of : ℕ → ℕ)
    → ((r r' : ℕ) → receipt_of r ≡ receipt_of r' → r ≡ r')
    → {w : World} (r : ℕ) → Reach receipt_of empty_world w
    → count (with_receipt (receipt_of r)) w.orders ≤ 1
unfolding count
at_most_one_order receipt_of injective r reach =
    let s =
      Reach-Spent receipt_of injective r reach
        record { one_row = ground arith; spent = ground arith } in
    let one = s.one_row in let fits = s.spent in ground arith

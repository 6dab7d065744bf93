-- ===== src/Payments/BackOff.antt =====
-- How long an intent waits for its next attempt (`reconcilePending` of
-- backend/src/modules/payments/payments.service.ts).
use tuljai_stays.Base.{ℕ, zero, suc, ◌+◌, ◌*◌, ◌≡◌, refl, ap, min, arith, List, update_where}
use tuljai_stays.Store.Rows.{PaymentIntent}
use tuljai_stays.Payments.Pending.{back_off, claimable, claim_intent}

-- A minute at first, doubled after each attempt, up to an hour.
unfoldable pub doubled_wait : ℕ → ℕ
doubled_wait zero = 60000
doubled_wait (suc n) = min 3600000 (2 * doubled_wait n)

doubled_wait_hour : (n : ℕ) → doubled_wait (suc (suc (suc (suc (suc (suc n)))))) ≡ 3600000
unfolding doubled_wait
doubled_wait_hour zero = refl
doubled_wait_hour (suc n) = ap (λ w. min 3600000 (2 * w)) (doubled_wait_hour n)

back_off-doubled_wait : (n : ℕ) → back_off n ≡ doubled_wait n
unfolding back_off doubled_wait
back_off-doubled_wait zero = refl
back_off-doubled_wait (suc zero) = refl
back_off-doubled_wait (suc (suc zero)) = refl
back_off-doubled_wait (suc (suc (suc zero))) = refl
back_off-doubled_wait (suc (suc (suc (suc zero)))) = refl
back_off-doubled_wait (suc (suc (suc (suc (suc zero))))) = refl
back_off-doubled_wait (suc (suc (suc (suc (suc (suc n)))))) =
    let six : min (suc (suc (suc (suc (suc (suc n)))))) 6 ≡ 6 = ground arith in
    let hour : doubled_wait (suc (suc (suc (suc (suc (suc n)))))) ≡ 3600000 = doubled_wait_hour n in
    rw (six, hour) refl

-- A claim counts one more attempt on the rows that it may claim, and sets their next attempt a minute
-- after the claim for the first attempt, and for each attempt after it twice as long as for the one
-- before, up to an hour.
pub claim_intent-doubled_wait :
    (now : ℕ) (i : PaymentIntent) (table : List PaymentIntent)
    → claim_intent now i table
      ≡ update_where
          (claimable i)
          (λ x. record x {
            attempts = x.attempts + 1;
            next_check_at = now + doubled_wait i.attempts;
          })
          table
unfolding claim_intent
claim_intent-doubled_wait now i table =
    ap
      (λ wait.
        update_where (claimable i)
          (λ x. record x { attempts = x.attempts + 1; next_check_at = now + wait }) table)
      (back_off-doubled_wait i.attempts)

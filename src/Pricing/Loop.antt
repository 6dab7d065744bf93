-- ===== src/Pricing/Loop.antt =====
-- The loop over the date prices in booking-pricing.ts, and the fallible sum of the reference.
use tuljai_stays.Base.{
  ℕ, zero, suc, ◌+◌, ◌*◌, ◌≤◌, ◌<◌, ◌≡◌, refl, none, [], ◌∷◌, arith, ltb, if◌then◌else◌, Bool-cases,
  inl, inr,
}
use tuljai_stays.Base.Int.{ℤ, pos, negsuc, pos_part, neg_part, int_laws}
use tuljai_stays.Base.Results.{Result, ok, err, bad_request, ◌>>=◌}
use tuljai_stays.Pricing.Defs.{
  Window, Prices, Totals, in_window, correct, festival_nights, apply_overrides, to_price,
}
use tuljai_stays.Pricing.Nights.{total_over, map_get, Fits}
use tuljai_stays.Pricing.Reference.{charge}
use tuljai_stays.Pricing.Tariff.{ordinary, special, total_of, nights_from, total-rate}

abbrev pub neg_unit : ℤ → ℕ
neg_unit (pos _) = 0
neg_unit (negsuc _) = 1

-- A fallible sum either meets a negative rate or is the plain sum.
charge_step :
    (z : ℤ) (r : Result ℕ) (neg sum : ℕ)
    → r ≡ (if ltb 0 neg then err bad_request else ok sum)
    → (to_price z >>= λ p. r >>= λ rest. ok (p + rest))
      ≡ (if ltb 0 (neg_unit z + neg) then err bad_request else ok (pos_part z + sum))
unfolding ◌>>=◌
charge_step (pos p) r neg sum e = rw e (ground arith)
charge_step (negsuc p) r neg sum e = ground arith

pub charge_lem :
    (f : ℕ → ℤ) (d n : ℕ)
    → charge f d n ≡ (
        if ltb 0 (total_over (λ k. neg_unit (f k)) d n)
        then err bad_request
        else ok (total_over (λ k. pos_part (f k)) d n))
unfolding charge total_over
charge_lem f d zero = refl
charge_lem f d (suc n) =
    charge_step (f d) (charge f (d + 1) n) (total_over (λ k. neg_unit (f k)) (d + 1) n)
      (total_over (λ k. pos_part (f k)) (d + 1) n) (charge_lem f (d + 1) n)

pub neg_part-le : (z : ℤ) → neg_unit z ≡ 0 → neg_part z ≡ 0
neg_part-le (pos n) h = refl
neg_part-le (negsuc n) h = absurd (omega arith)

pub total_over-neg_part :
    (f : ℕ → ℤ) (d n : ℕ)
    → total_over (λ k. neg_unit (f k)) d n ≡ 0
    → total_over (λ k. neg_part (f k)) d n ≡ 0
unfolding total_over
total_over-neg_part f d zero h = refl
total_over-neg_part f d (suc n) h =
    omega (arith, neg_part-le (f d) (omega arith), total_over-neg_part f (d + 1) n (omega arith))

-- The same dates, each at price 0: counts only look at the dates.
free : Prices → Prices
free [] = []
free ((k, v) ∷ m) = (k, pos 0) ∷ free m

free_get : (d : ℕ) (m : Prices) → map_get d m ≡ none → map_get d (free m) ≡ none
unfolding free map_get
free_get d [] h = refl
free_get d ((k, v) ∷ m) h = ground (arith, free_get d m)

free-Fits : (lo hi : ℕ) (m : Prices) → Fits lo hi m → Fits lo hi (free m)
unfolding free
free-Fits lo hi [] f = tt
free-Fits lo hi ((k, v) ∷ m) f = (f.0, f.1, free_get k m f.2, free-Fits lo hi m f.3)

free_counts :
    (w : Window) (m : Prices)
    → (ordinary w (free m) ≡ ordinary w m)
      × (special w (free m) ≡ special w m)
      × (total_of pos_part (free m) ≡ 0)
unfolding free ordinary special total_of
free_counts w [] = (refl, refl, refl)
free_counts w ((k, v) ∷ m) = omega (arith, free_counts w m)

-- No more date prices than nights, at either rate.
pub ordinary-le :
    (w : Window) (m : Prices) (d n : ℕ)
    → Fits d (d + n) m
    → (ordinary w m + festival_nights w (nights_from d n) ≤ n)
      × (special w m ≤ festival_nights w (nights_from d n))
ordinary-le w m d n f =
    let g = free-Fits d (d + n) m f in
    (
      omega (arith, total-rate pos_part (pos 1) (pos 0) w (free m) d n g, free_counts w m),
      omega (arith, total-rate pos_part (pos 0) (pos 1) w (free m) d n g, free_counts w m),
    )

module _ (base festival : ℤ) (w : Window) where
  -- The loop fails at a negative price, and else counts the dates and sums the differences.
  pub apply_overrides-err :
      (m : Prices) (t : Totals)
      → 0 < total_of neg_unit m
      → apply_overrides base festival w m t ≡ err bad_request
  unfolding apply_overrides total_of
  apply_overrides-err [] t h = absurd (omega arith)
  apply_overrides-err ((k, pos v) ∷ m) t h = apply_overrides-err m _ (omega arith)
  apply_overrides-err ((k, negsuc v) ∷ m) t h = refl

  pub record Corrected (m : Prices) (t u : Totals) : Type 0 where
    pub ordinaries : u.ordinary_overrides ≡ t.ordinary_overrides + ordinary w m
    pub festivals : u.festival_overrides ≡ t.festival_overrides + special w m
    pub balance :
        pos_part u.total
          + neg_part t.total
          + pos_part base * ordinary w m
          + pos_part festival * special w m
          + total_of neg_part m
        ≡ neg_part u.total
          + pos_part t.total
          + neg_part base * ordinary w m
          + neg_part festival * special w m
          + total_of pos_part m

  Corrected-cons :
      (k v : ℕ) (m : Prices) (t u : Totals)
      → Corrected m (correct base festival w k (pos v) t) u
      → Corrected ((k, pos v) ∷ m) t u
  unfolding ordinary special total_of
  Corrected-cons k v m t u c = elim (Bool-cases (in_window w k)) [
    | inl e ↦
        let c' = rw e at c in
        record {
          ordinaries = rw e (omega (int_laws, c'));
          festivals = rw e (omega (int_laws, c'));
          balance = rw e (omega (int_laws, c'));
        }
    | inr e ↦
        let c' = rw e at c in
        record {
          ordinaries = rw e (omega (int_laws, c'));
          festivals = rw e (omega (int_laws, c'));
          balance = rw e (omega (int_laws, c'));
        }
  ]

  pub apply_overrides_lem :
      (m : Prices) (t : Totals)
      → total_of neg_unit m ≡ 0
      → (u : Totals) × (apply_overrides base festival w m t ≡ ok u) × Corrected m t u
  unfolding apply_overrides total_of ordinary special
  apply_overrides_lem [] t h = (t, refl, omega arith)
  apply_overrides_lem ((k, pos v) ∷ m) t h =
      let (u, e, c) = apply_overrides_lem m (correct base festival w k (pos v) t) (omega arith) in
      (u, e, Corrected-cons k v m t u c)
  apply_overrides_lem ((k, negsuc v) ∷ m) t h = absurd (omega arith)

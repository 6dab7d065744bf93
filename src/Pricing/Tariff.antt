-- ===== src/Pricing/Tariff.antt =====
-- The nights at the festival price are counted right, and each date price corrects the total by what
-- its own night would have cost.
use tuljai_stays.Base.{
  ℕ, zero, suc, ◌+◌, ◌*◌, ◌≤◌, ◌≡◌, sym, ap, [], ◌∷◌, arith, if◌then◌else◌, Bool-cases, inl, inr,
}
use mathlib.Core.Path.{fun_ext}
use tuljai_stays.Base.Int.{ℤ}
use tuljai_stays.Store.Rows.{Stay}
use tuljai_stays.Pricing.Defs.{Window, closed, from_to, Prices, in_window, festival_nights}
use tuljai_stays.Pricing.Nights.{total_over, map_get, Fits, update_at, total_over-update}
use tuljai_stays.Pricing.Reference.{tariff, rate}

-- How many of the dates of a map are outside the festival window, and how many inside.
unfoldable pub ordinary : Window → Prices → ℕ
ordinary w [] = 0
ordinary w ((k, v) ∷ m) = (if in_window w k then 0 else 1) + ordinary w m

unfoldable pub special : Window → Prices → ℕ
special w [] = 0
special w ((k, v) ∷ m) = (if in_window w k then 1 else 0) + special w m

-- `g` summed over the prices of a map
unfoldable pub total_of : (ℤ → ℕ) → Prices → ℕ
total_of g [] = 0
total_of g ((k, v) ∷ m) = g v + total_of g m

abbrev pub nights_from : ℕ → ℕ → Stay
nights_from d n = record { check_in = d; check_out = d + n }

festival_nights-step :
    (w : Window) (d n : ℕ)
    → festival_nights w (nights_from d (suc n))
      ≡ (if in_window w d then 1 else 0) + festival_nights w (nights_from (d + 1) n)
festival_nights-step closed d n = omega arith
festival_nights-step (from_to s e) d n = ground arith

pub festival_nights-le : (w : Window) (d n : ℕ) → festival_nights w (nights_from d n) ≤ n
festival_nights-le closed d n = omega arith
festival_nights-le (from_to s e) d n = omega arith

module _ (g : ℤ → ℕ) (base festival : ℤ) (w : Window) where
  pub total-tariff :
      (d n : ℕ)
      → total_over (λ k. g (tariff base festival w k)) d n
          + g base * festival_nights w (nights_from d n)
        ≡ g base * n + g festival * festival_nights w (nights_from d n)
  unfolding total_over
  total-tariff d zero = ground (arith, festival_nights-le w d 0)
  total-tariff d (suc n) = rw (festival_nights-step w d n) (elim (Bool-cases (in_window w d)) [
    | inl e ↦ rw e (omega (arith, total-tariff (d + 1) n))
    | inr e ↦ rw e (omega (arith, total-tariff (d + 1) n))
  ])

  -- One more date price changes one night.
  rate-cons :
      (k : ℕ) (v : ℤ) (m : Prices) (d : ℕ)
      → g (rate base festival w ((k, v) ∷ m) d)
        ≡ update_at k (g v) (λ e. g (rate base festival w m e)) d
  unfolding map_get
  rate-cons k v m d = ground arith

  total-cons :
      (k : ℕ) (v : ℤ) (m : Prices) (d n : ℕ)
      → Fits d (d + n) ((k, v) ∷ m)
      → total_over (λ e. g (rate base festival w ((k, v) ∷ m) e)) d n + g (tariff base festival w k)
        ≡ total_over (λ e. g (rate base festival w m e)) d n + g v
  total-cons k v m d n f = rw (fun_ext (rate-cons k v m)) (
      let same : rate base festival w m k ≡ tariff base festival w k = rw (f.2, rate) in
      rw (ap g (sym same))
        (total_over-update k (g v) (λ e. g (rate base festival w m e)) d n f.0 f.1))

  -- With the dates of a map counted out, its nights cost what the map says.
  pub total-map :
      (m : Prices) (d n : ℕ)
      → Fits d (d + n) m
      → total_over (λ k. g (rate base festival w m k)) d n
          + g base * ordinary w m
          + g festival * special w m
        ≡ total_over (λ k. g (tariff base festival w k)) d n + total_of g m
  unfolding ordinary special total_of map_get
  total-map [] d n f = omega arith
  total-map ((k, v) ∷ m) d n f = ground (arith, total-map m d n f.3, total-cons k v m d n f)

  pub total-rate :
      (m : Prices) (d n : ℕ)
      → Fits d (d + n) m
      → total_over (λ k. g (rate base festival w m k)) d n
          + g base * ordinary w m
          + g festival * special w m
          + g base * festival_nights w (nights_from d n)
        ≡ g base * n + g festival * festival_nights w (nights_from d n) + total_of g m
  total-rate m d n f = omega (arith, total-map m d n f, total-tariff d n)

-- ===== src/Pricing/Equivalence.antt =====
-- The price computed by booking-pricing.ts is the price counted night by night.
use tuljai_stays.Base.{
  ℕ, ◌+◌, ◌-◌, ◌*◌, ◌≤◌, ◌<◌, ◌≡◌, refl, sym, Bool, ◌&&◌, ◌||◌, lt→ltb, List, [], ◌∷◌, arith, ltb,
  leb, ◌==◌, if◌then◌else◌, Bool-cases, inl, inr, Option,
}
use mathlib.Core.Path.{subst}
use tuljai_stays.Base.Int.{
  ℤ, pos, negsuc, pos_part, neg_part, is_negative, ◌+ℤ◌, ◌*ℤ◌, int_laws, eq_of_parts,
}
use tuljai_stays.Base.Results.{Result, ok, err, bad_request, ◌>>=◌, throw_if}
use tuljai_stays.Store.{Db}
use tuljai_stays.Store.Rows.{Stay, RoomPricing}
use tuljai_stays.Pricing.Defs.{
  Window, Prices, Totals, in_stay, festival_nights, price_nights, calculate_stay_price, to_price,
  collect, map_set, or_zero, festival_window,
}
use tuljai_stays.Pricing.Nights.{total_over, Fits, map_set-Fits}
use tuljai_stays.Pricing.Reference.{rate, charge, price_by_night}
use tuljai_stays.Pricing.Tariff.{
  ordinary, special, total_of, nights_from, festival_nights-le, total-rate,
}
use tuljai_stays.Pricing.Loop.{
  neg_unit, charge_lem, total_over-neg_part, ordinary-le, apply_overrides-err, apply_overrides_lem,
  Corrected,
}

-- What a negative rate adds to a count of `n` nights.
sign_product : (z : ℤ) (n : ℕ) → neg_unit z * n ≡ (if is_negative z then n else 0)
sign_product (pos _) n = omega arith
sign_product (negsuc _) n = omega arith

split_product : (a r f n : ℕ) → r + f ≡ n → a * r + a * f ≡ a * n
split_product a r f n e = rw (← e) (omega arith)

module _ (base festival : ℤ) (w : Window) (m : Prices) (d n : ℕ) (fits : Fits d (d + n) m) where
  abbrev fn : ℕ
  fn = festival_nights w (nights_from d n)

  abbrev negatives : ℕ
  negatives = total_over (λ k. neg_unit (rate base festival w m k)) d n

  -- the test after the loop
  abbrev unpaid : Totals → Bool
  unpaid u =
      is_negative base && ltb u.ordinary_overrides (n - fn)
      || is_negative festival && ltb u.festival_overrides fn

  bounds : (ordinary w m + fn ≤ n) × (special w m ≤ fn) × (fn ≤ n)
  bounds = omega (arith, ordinary-le w m d n fits, festival_nights-le w d n)

  negatives_count :
      negatives
        + (if is_negative base then ordinary w m else 0)
        + (if is_negative festival then special w m else 0)
        + (if is_negative base then fn else 0)
      ≡ (if is_negative base then n else 0)
        + (if is_negative festival then fn else 0)
        + total_of neg_unit m
  negatives_count =
      rw
        (
          ← sign_product base (ordinary w m),
          ← sign_product festival (special w m),
          ← sign_product base fn,
          ← sign_product base n,
          ← sign_product festival fn,
        )
        (total-rate neg_unit base festival w m d n fits)

  abbrev start : Totals
  start = record {
    total = base *ℤ (n - fn) +ℤ festival *ℤ fn;
    ordinary_overrides = 0;
    festival_overrides = 0;
  }

  -- A negative date price is the price of a night.
  negatives-pos : 0 < total_of neg_unit m → 0 < negatives
  negatives-pos h = ground (arith, negatives_count, bounds)

  -- The test after the loop finds the negative rates of the nights with no price of their own.
  unpaid_lem :
      (u : Totals)
      → total_of neg_unit m ≡ 0
      → u.ordinary_overrides ≡ ordinary w m
      → u.festival_overrides ≡ special w m
      → unpaid u ≡ ltb 0 negatives
  unpaid_lem u h ho hs = ground (arith, negatives_count, bounds)

  total_lem :
      (u : Totals)
      → Corrected base festival w m start u
      → negatives ≡ 0
      → u.total ≡ pos (total_over (λ k. pos_part (rate base festival w m k)) d n)
  total_lem u c h = eq_of_parts _ _ (
      omega (
        int_laws,
        c,
        split_product (pos_part base) (n - fn) fn n (omega (arith, bounds)),
        split_product (neg_part base) (n - fn) fn n (omega (arith, bounds)),
        total-rate pos_part base festival w m d n fits,
        total-rate neg_part base festival w m d n fits,
        total_over-neg_part (rate base festival w m) d n h,
      ))

  rates_sum : ℕ
  rates_sum = total_over (λ k. pos_part (rate base festival w m k)) d n

  price_when_paid :
      (u : Totals)
      → Corrected base festival w m start u
      → total_of neg_unit m ≡ 0
      → (throw_if (unpaid u) bad_request >>= λ _. to_price u.total)
        ≡ (if ltb 0 negatives then err bad_request else ok rates_sum)
  unfolding rates_sum ◌>>=◌
  price_when_paid u c h = elim (Bool-cases (ltb 0 negatives)) [
    | inl e ↦ rw (unpaid_lem u h (omega (arith, c)) (omega (arith, c)), e)
    | inr e ↦
        rw (unpaid_lem u h (omega (arith, c)) (omega (arith, c)), e, total_lem u c (ground arith))
  ]

  price_nights_lem : price_nights base festival w n fn m ≡ charge (rate base festival w m) d n
  unfolding price_nights rates_sum ◌>>=◌
  price_nights_lem =
      rw (charge_lem (rate base festival w m) d n)
        (elim (Bool-cases (ltb 0 (total_of neg_unit m))) [
          | inl e ↦ rw (
            apply_overrides-err base festival w m start (ground arith),
            lt→ltb 0 negatives (negatives-pos (ground arith)),
          )
          | inr e ↦
              let (u, applied, c) = apply_overrides_lem base festival w m start (ground arith) in
              rw applied (price_when_paid u c (ground arith))
        ])

collect-Fits :
    (rt : ℕ) (s : Stay) (rows : List RoomPricing) (m : Prices)
    → Fits s.check_in s.check_out m
    → Fits s.check_in s.check_out (collect rt s rows m)
unfolding collect
collect-Fits rt s [] m f = f
collect-Fits rt s (row ∷ rows) m f =
    elim (Bool-cases (row.room_type_id == rt && in_stay s row.date)) [
      | inl e ↦ rw e (
          collect-Fits rt s rows (map_set row.date row.price m) (
            map_set-Fits s.check_in s.check_out row.date row.price m (ground arith) (ground arith)
              f))
      | inr e ↦ rw e (collect-Fits rt s rows m f)
    ]

-- For every table of date prices, festival setting and stay, with signed prices: the computed price
-- is the sum over the nights of the date's own price, else the festival price inside the window,
-- else the base price. It is an error exactly where the dates or the window are invalid or some
-- night would have a negative price.
pub calculate_stay_price-eq-price_by_night :
    (db : Db) (room_type_id : ℕ) (base : ℤ) (s : Stay) (festival : Option ℤ)
    → calculate_stay_price db room_type_id base s festival
      ≡ price_by_night db room_type_id base s festival
unfolding calculate_stay_price price_by_night ◌>>=◌
calculate_stay_price-eq-price_by_night db rt base s festival =
    elim (Bool-cases (leb s.check_out s.check_in)) [
      | inl e ↦ rw e
      | inr e ↦ rw e (window_cases (festival_window festival db) (ground arith))
    ]
  where
    window_cases :
        (w : Result Window)
        → s.check_in + (s.check_out - s.check_in) ≡ s.check_out
        → (w >>= λ v.
            price_nights base
              (or_zero festival)
              v
              (s.check_out - s.check_in)
              (festival_nights v s)
              (collect rt s db.room_pricing []))
          ≡ (w >>= λ v.
              charge
                (rate base (or_zero festival) v (collect rt s db.room_pricing []))
                s.check_in
                (s.check_out - s.check_in))
    window_cases (err x) h = refl
    window_cases (ok v) h =
        let m = collect rt s db.room_pricing [] in
        let n = s.check_out - s.check_in in
        subst
          (λ t.
            price_nights base (or_zero festival) v n
              (festival_nights v (record { check_in = s.check_in; check_out = t })) m
            ≡ charge (rate base (or_zero festival) v m) s.check_in n)
          h
          (price_nights_lem base (or_zero festival) v m s.check_in n
            (subst (λ t. Fits s.check_in t m) (sym h) (collect-Fits rt s db.room_pricing [] tt)))

-- ===== src/Pricing/Reference.antt =====
-- The price of a stay as the comment of booking-pricing.ts states it: each night costs the date's own
-- price, else the festival price inside the festival window, else the base price. No night may cost
-- less than nothing.
use tuljai_stays.Base.{ℕ, zero, suc, ◌+◌, ◌-◌, Option, none, some, [], leb, if◌then◌else◌}
use tuljai_stays.Base.Int.{ℤ}
use tuljai_stays.Base.Results.{Result, ok, bad_request, ◌>>=◌, ◌>>◌, throw_if}
use tuljai_stays.Store.{Db}
use tuljai_stays.Store.Rows.{Stay}
use tuljai_stays.Pricing.Defs.{
  Window, Prices, in_window, festival_window, collect, or_zero, to_price,
}
use tuljai_stays.Pricing.Nights.{map_get}

module _ (base festival : ℤ) (w : Window) where
  abbrev pub tariff : ℕ → ℤ
  tariff d = if in_window w d then festival else base

  abbrev pub rate : Prices → ℕ → ℤ
  rate m d = elim (map_get d m) [ none ↦ tariff d | some price ↦ price ]

unfoldable pub charge : (ℕ → ℤ) → ℕ → ℕ → Result ℕ
charge f d zero = ok 0
charge f d (suc n) = do tonight ← to_price (f d); rest ← charge f (d + 1) n; ok (tonight + rest)

unfoldable pub price_by_night : Db → ℕ → ℤ → Stay → Option ℤ → Result ℕ
unfolding collect charge
price_by_night db room_type_id base_price s festival_price = do
  throw_if (leb s.check_out s.check_in) bad_request
  w ← festival_window festival_price db
  charge (rate base_price (or_zero festival_price) w (collect room_type_id s db.room_pricing []))
      s.check_in (s.check_out - s.check_in)

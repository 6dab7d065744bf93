-- ===== src/Pricing/Defs.antt =====
-- backend/src/modules/bookings/booking-pricing.ts: the price of a stay, computed from the number of
-- nights and corrected for each night that has a price of its own.
use tuljai_stays.Base.{
  ℕ, ◌+◌, ◌-◌, min, max, Bool, false, ◌&&◌, ◌||◌, Option, none, some, List, [], ◌∷◌, ltb, leb, ◌==◌,
  if◌then◌else◌,
}
use tuljai_stays.Base.Int.{ℤ, pos, negsuc, ◌+ℤ◌, ◌-ℤ◌, ◌*ℤ◌, is_negative}
use tuljai_stays.Base.Results.{Result, ok, err, bad_request, ◌>>=◌, ◌>>◌, throw_if}
use tuljai_stays.Store.{Db}
use tuljai_stays.Store.Rows.{Stay, RoomPricing, SettingDate, unset, day}

-- `festivalStart` and `festivalEnd`: both null, or both set
pub data Window : Type 0 where
  closed : Window
  from_to : ℕ → ℕ → Window

-- Both settings empty: no window. One empty, one invalid, or the end before the start: an error.
abbrev pub configured_window : SettingDate → SettingDate → Result Window
configured_window unset unset = ok closed
configured_window (day s) (day e) = if ltb e s then err bad_request else ok (from_to s e)
configured_window _ _ = err bad_request

-- The settings are read only for a room type with a festival price.
unfoldable pub festival_window : Option ℤ → Db → Result Window
festival_window none db = ok closed
festival_window (some _) db = configured_window db.festival_start_date db.festival_end_date

abbrev pub in_window : Window → ℕ → Bool
in_window closed d = false
in_window (from_to s e) d = leb s d && leb d e

-- `prices`: a map from dates to prices. A repeated date takes the last price.
abbrev pub Prices : Type 0
Prices = List (ℕ × ℤ)

unfoldable pub map_set : ℕ → ℤ → Prices → Prices
map_set k v [] = (k, v) ∷ []
map_set k v ((j, w) ∷ m) = if j == k then (j, v) ∷ m else (j, w) ∷ map_set k v m

abbrev pub in_stay : Stay → ℕ → Bool
in_stay s d = leb s.check_in d && ltb d s.check_out

-- `findMany` on `roomPricing`, collected into the map
unfoldable pub collect : ℕ → Stay → List RoomPricing → Prices → Prices
unfolding map_set
collect rt s [] m = m
collect rt s (row ∷ rows) m =
    collect rt s rows
      (if row.room_type_id == rt && in_stay s row.date then map_set row.date row.price m else m)

abbrev pub festival_nights : Window → Stay → ℕ
festival_nights closed s = 0
festival_nights (from_to start end) s = min s.check_out (end + 1) - max s.check_in start

-- The three variables of the loop over `prices`.
pub record Totals : Type 0 where
  pub total : ℤ
  pub ordinary_overrides : ℕ
  pub festival_overrides : ℕ

-- `return total`, after the test that it is not negative
abbrev pub to_price : ℤ → Result ℕ
to_price (pos n) = ok n
to_price (negsuc _) = err bad_request

module _ (base festival : ℤ) (w : Window) where
  -- one round; `festival` is 0 where there is no festival price, and then `w` is closed
  abbrev pub correct : ℕ → ℤ → Totals → Totals
  correct date price t =
      if in_window w date
      then record {
        total = t.total +ℤ (price -ℤ festival);
        ordinary_overrides = t.ordinary_overrides;
        festival_overrides = t.festival_overrides + 1;
      }
      else record {
        total = t.total +ℤ (price -ℤ base);
        ordinary_overrides = t.ordinary_overrides + 1;
        festival_overrides = t.festival_overrides;
      }

  unfoldable pub apply_overrides : Prices → Totals → Result Totals
  apply_overrides [] t = ok t
  apply_overrides ((date, price) ∷ m) t =
      let rest = apply_overrides m (correct date price t) in
      if is_negative price then err bad_request else rest

  unfoldable pub price_nights : ℕ → ℕ → Prices → Result ℕ
  unfolding apply_overrides
  price_nights nights special m = do
    t ← apply_overrides m (record {
      total = base *ℤ (nights - special) +ℤ festival *ℤ special;
      ordinary_overrides = 0;
      festival_overrides = 0;
    })
    throw_if
        (is_negative base && ltb t.ordinary_overrides (nights - special)
          || is_negative festival && ltb t.festival_overrides special)
        bad_request
    to_price t.total

-- `festivalPrice ?? 0`
abbrev pub or_zero : Option ℤ → ℤ
or_zero none = pos 0
or_zero (some p) = p

unfoldable pub calculate_stay_price : Db → ℕ → ℤ → Stay → Option ℤ → Result ℕ
unfolding festival_window collect price_nights
calculate_stay_price db room_type_id base_price s festival_price = do
  throw_if (leb s.check_out s.check_in) bad_request
  let prices = collect room_type_id s db.room_pricing []
  w ← festival_window festival_price db
  price_nights base_price (or_zero festival_price) w (s.check_out - s.check_in)
      (festival_nights w s) prices

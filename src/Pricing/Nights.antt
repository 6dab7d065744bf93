-- ===== src/Pricing/Nights.antt =====
-- Sums over the nights of a stay, and over the entries of a price map.
use tuljai_stays.Base.{
  ℕ, zero, suc, ◌+◌, ◌≤◌, ◌<◌, ◌≡◌, refl, Option, none, some, [], ◌∷◌, arith, ◌==◌, if◌then◌else◌,
}
use tuljai_stays.Base.Int.{ℤ}
use tuljai_stays.Pricing.Defs.{Prices, map_set}

-- f d + f (d + 1) + …, over `n` nights
unfoldable pub total_over : (ℕ → ℕ) → ℕ → ℕ → ℕ
total_over f d zero = 0
total_over f d (suc n) = f d + total_over f (d + 1) n

-- `prices.get(d)`
unfoldable pub map_get : ℕ → Prices → Option ℤ
map_get d [] = none
map_get d ((j, w) ∷ m) = if j == d then some w else map_get d m

-- The dates of a map are distinct, and lie in a range.
abbrev pub Fits : ℕ → ℕ → Prices → Type 0
Fits lo hi [] = Unit {0}
Fits lo hi ((k, v) ∷ m) = (lo ≤ k) × (k < hi) × (map_get k m ≡ none) × Fits lo hi m

pub map_get-map_set :
    (j k : ℕ) (v : ℤ) (m : Prices)
    → map_get j (map_set k v m) ≡ (if k == j then some v else map_get j m)
unfolding map_get map_set
map_get-map_set j k v [] = refl
map_get-map_set j k v ((i, w) ∷ m) = ground (arith, map_get-map_set j k v m)

pub map_set-Fits :
    (lo hi k : ℕ) (v : ℤ) (m : Prices) → lo ≤ k → k < hi → Fits lo hi m → Fits lo hi (map_set k v m)
unfolding map_set map_get
map_set-Fits lo hi k v [] h h' f = (h, h', refl, tt)
map_set-Fits lo hi k v ((j, w) ∷ m) h h' f =
    ground (arith, map_set-Fits lo hi k v m h h' f.3, map_get-map_set j k v m)

abbrev pub update_at : ℕ → ℕ → (ℕ → ℕ) → ℕ → ℕ
update_at k v f d = if k == d then v else f d

total_over-before :
    (k v : ℕ) (f : ℕ → ℕ) (d n : ℕ) → k < d → total_over (update_at k v f) d n ≡ total_over f d n
unfolding total_over
total_over-before k v f d zero h = refl
total_over-before k v f d (suc n) h = ground (arith, total_over-before k v f (d + 1) n)

pub total_over-update :
    (k v : ℕ) (f : ℕ → ℕ) (d n : ℕ)
    → d ≤ k
    → k < d + n
    → total_over (update_at k v f) d n + f k ≡ total_over f d n + v
unfolding total_over
total_over-update k v f d zero h h' = absurd (omega arith)
total_over-update k v f d (suc n) h h' =
    ground (arith, total_over-before k v f (d + 1) n, total_over-update k v f (d + 1) n)

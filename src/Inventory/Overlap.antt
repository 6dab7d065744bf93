-- ===== src/Inventory/Overlap.antt =====
-- The overlap test of booking-availability.service.ts against the nights of two stays.
use tuljai_stays.Base.{ℕ, ◌≤◌, ◌<◌, ◌≡◌, true, arith, max}
use tuljai_stays.Store.Rows.{Stay}
use tuljai_stays.Inventory.Defs.{overlaps}

-- A night of a stay starts on a day from the check-in date to the day before the check-out date.
abbrev pub NightOf : Stay → ℕ → Type 0
NightOf s d = (s.check_in ≤ d) × (d < s.check_out)

-- Two stays of at least one night each pass the overlap test exactly when they share a night; so
-- a guest may arrive on the day that another leaves.
pub overlaps-iff-shared_night :
    (a b : Stay)
    → a.check_in < a.check_out
    → b.check_in < b.check_out
    → (overlaps a b ≡ true → (d : ℕ) × NightOf a d × NightOf b d)
      × ((d : ℕ) → NightOf a d → NightOf b d → overlaps a b ≡ true)
overlaps-iff-shared_night a b ha hb =
    (λ h. (max a.check_in b.check_in, ground arith, ground arith), λ d na nb. ground arith)

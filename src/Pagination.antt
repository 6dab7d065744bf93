-- ===== src/Pagination.antt =====
-- `normalizePagination` of packages/utils/src/pagination.ts, on whole numbers: what a request asks
-- for may be absent, zero or negative.
use tuljai_stays.Base.{ℕ, suc, ◌+◌, ◌-◌, ◌*◌, ◌≤◌, ◌≡◌, min, max, arith, Option, none, some}
use tuljai_stays.Base.Int.{ℤ, pos, negsuc}

abbrev pub default_page : ℤ
default_page = pos 1

abbrev pub default_page_size : ℤ
default_page_size = pos 20

abbrev pub max_page_size : ℕ
max_page_size = 100

pub record NormalizedPagination : Type 0 where
  pub page : ℕ
  pub page_size : ℕ
  pub skip : ℕ
  pub take : ℕ

-- `Math.max(n, 1)`
abbrev pub at_least_one : ℤ → ℕ
at_least_one (pos n) = max n 1
at_least_one (negsuc n) = 1

-- `value ?? fallback`
abbrev pub or_default : Option ℤ → ℤ → ℤ
or_default none fallback = fallback
or_default (some n) fallback = n

unfoldable pub normalize_pagination : Option ℤ → Option ℤ → NormalizedPagination
normalize_pagination page page_size =
    let normalized_page = at_least_one (or_default page default_page) in
    let normalized_page_size =
      min (at_least_one (or_default page_size default_page_size)) max_page_size in
    record {
      page = normalized_page;
      page_size = normalized_page_size;
      skip = (normalized_page - 1) * normalized_page_size;
      take = normalized_page_size;
    }

positive : (n : ℤ) → 1 ≤ at_least_one n
positive (pos n) = ground arith
positive (negsuc n) = ground arith

-- A page takes between one row and a hundred, the first page skips none, and each page begins where
-- the one before it ends, whatever numbers are asked for.
pub normalize_pagination-bounds :
    (page page_size : Option ℤ) (n : ℕ)
    → (1 ≤ (normalize_pagination page page_size).take)
      × ((normalize_pagination page page_size).take ≤ 100)
      × (1 ≤ (normalize_pagination page page_size).page)
      × ((normalize_pagination none page_size).skip ≡ 0)
      × ((normalize_pagination (some (pos (suc (suc n)))) page_size).skip
          ≡ (normalize_pagination (some (pos (suc n))) page_size).skip
            + (normalize_pagination (some (pos (suc n))) page_size).take)
unfolding normalize_pagination
normalize_pagination-bounds page page_size n =
    let rows = min (at_least_one (or_default page_size default_page_size)) 100 in
    let some_rows = positive (or_default page_size default_page_size) in
    let some_page = positive (or_default page default_page) in
    let this : max (suc (suc n)) 1 - 1 ≡ suc n = ground arith in
    let before : max (suc n) 1 - 1 ≡ n = ground arith in
    (ground arith, ground arith, some_page, ground arith, rw (this, before) (ground arith))

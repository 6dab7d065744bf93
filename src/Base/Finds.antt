-- ===== src/Base/Finds.antt =====
-- Reading a table after a bulk update.
use mathlib.Core.Path.{◌≡◌, refl}
use mathlib.Core.List.{List, [], ◌∷◌}
use mathlib.Core.Option.{some}
use mathlib.Core.Bool.{Bool, true}
use native.Mathlib.Omega.{arith}
use tuljai_stays.Base.Lists.{find, filter, update_where}

pub find-update_where :
    {A : Type 0} (p q : A → Bool) (f : A → A)
    → ((x : A) → p (f x) ≡ p x)
    → (xs : List A) {t : A} → find p xs ≡ some t
    → q t ≡ true
    → find p (update_where q f xs) ≡ some (f t)
unfolding find update_where
find-update_where p q f h [] e hit = cc
find-update_where p q f h (x ∷ xs) {t} e sel =
    let rest : find p xs ≡ some t → find p (update_where q f xs) ≡ some (f t) =
      λ e'. find-update_where p q f h xs e' sel in
    let same = h x in ground (arith, rest)

pub find-passes :
    {A : Type 0} (p : A → Bool) (xs : List A) {t : A} → find p xs ≡ some t → p t ≡ true
unfolding find
find-passes p [] e = cc
find-passes p (x ∷ xs) {t} e =
    let rest : find p xs ≡ some t → p t ≡ true = λ e'. find-passes p xs e' in ground (arith, rest)

pub filter-update_where :
    {A : Type 0} (p q : A → Bool) (f : A → A)
    → ((x : A) → p (f x) ≡ p x)
    → (xs : List A) → filter p (update_where q f xs) ≡ update_where q f (filter p xs)
unfolding filter update_where
filter-update_where p q f h [] = refl
filter-update_where p q f h (x ∷ xs) =
    let rest = filter-update_where p q f h xs in let same = h x in ground arith

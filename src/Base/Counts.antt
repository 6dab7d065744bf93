-- ===== src/Base/Counts.antt =====
-- Counting the rows of a table that a test admits.
use Prim.Native.Nat.{◌≤◌}
use mathlib.Core.Path.{◌≡◌, refl}
use mathlib.Core.List.{List, [], ◌∷◌}
use mathlib.Core.Option.{none}
use mathlib.Core.Bool.{Bool, true, false}
use native.Mathlib.Omega.{arith}
use tuljai_stays.Base.Tests.{if◌then◌else◌}
use tuljai_stays.Base.Lists.{find, count, any, update_where}

module _ {ℓ} {A : Type ℓ} where
  pub count-update_where_le :
      (p p' q : A → Bool) (f : A → A)
      → ((x : A) → p (if q x then f x else x) ≡ true → p' x ≡ true)
      → (xs : List A) → count p (update_where q f xs) ≤ count p' xs
  unfolding count update_where
  count-update_where_le p p' q f h [] = ground arith
  count-update_where_le p p' q f h (x ∷ xs) =
      let rest = count-update_where_le p p' q f h xs in let this = h x in ground arith

  pub count-update_where :
      (p q : A → Bool) (f : A → A)
      → ((x : A) → p (f x) ≡ p x)
      → (xs : List A) → count p (update_where q f xs) ≡ count p xs
  unfolding count update_where
  count-update_where p q f h [] = refl
  count-update_where p q f h (x ∷ xs) =
      let rest = count-update_where p q f h xs in let this = h x in ground arith

  pub count-le :
      (p p' : A → Bool)
      → ((x : A) → p x ≡ true → p' x ≡ true)
      → (xs : List A) → count p xs ≤ count p' xs
  unfolding count
  count-le p p' h [] = ground arith
  count-le p p' h (x ∷ xs) = let rest = count-le p p' h xs in let this = h x in ground arith

  pub count-find-none : (p : A → Bool) (xs : List A) → find p xs ≡ none → count p xs ≡ 0
  unfolding count find
  count-find-none p [] h = refl
  count-find-none p (x ∷ xs) h = ground (arith, count-find-none p xs)

  pub count-none : (xs : List A) → count (λ _. false) xs ≡ 0
  unfolding count
  count-none [] = refl
  count-none (x ∷ xs) = ground (arith, count-none xs)

  pub update_where-none :
      (q : A → Bool) (f : A → A) (xs : List A) → count q xs ≡ 0 → update_where q f xs ≡ xs
  unfolding count update_where
  update_where-none q f [] h = refl
  update_where-none q f (x ∷ xs) h =
      let rest : count q xs ≡ 0 → update_where q f xs ≡ xs = update_where-none q f xs in
      ground (arith, rest)

  pub any-update_where :
      (p q : A → Bool) (f : A → A)
      → ((x : A) → p x ≡ true → q x ≡ true → p (f x) ≡ true)
      → (xs : List A) → any p xs ≡ true
      → any p (update_where q f xs) ≡ true
  unfolding any update_where
  any-update_where p q f h [] e = e
  any-update_where p q f h (x ∷ xs) e =
      let rest : any p xs ≡ true → any p (update_where q f xs) ≡ true =
        any-update_where p q f h xs in
      let this = h x in ground (arith, rest, this)

  -- An update that turns every row with `p` into one with `p'`.
  pub any-update_where_to :
      (p p' q : A → Bool) (f : A → A)
      → ((x : A) → p x ≡ true → p' (if q x then f x else x) ≡ true)
      → (xs : List A) → any p xs ≡ true
      → any p' (update_where q f xs) ≡ true
  unfolding any update_where
  any-update_where_to p p' q f h [] e = cc
  any-update_where_to p p' q f h (x ∷ xs) e =
      let rest : any p xs ≡ true → any p' (update_where q f xs) ≡ true =
        any-update_where_to p p' q f h xs in
      let this = h x in ground (arith, rest, this)

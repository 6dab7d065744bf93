-- ===== src/Payments/DueOrder.antt =====
-- Which intents a round of `reconcilePending` of backend/src/modules/payments/payments.service.ts
-- takes.
use mathlib.Core.List.{Perm}
use mathlib.Core.List.Perm
use tuljai_stays.Base.{
  ℕ, zero, suc, ◌≤◌, ◌≡◌, refl, min, arith, Bool, true, ◌∙◌, ap, List, [], ◌∷◌, ◌++◌, leb,
  if◌then◌else◌, Bool-cases, inl, inr, count, filter, length, All,
}
use tuljai_stays.Store.{Db}
use tuljai_stays.Store.Rows.{PaymentIntent}
use tuljai_stays.Payments.Pending.{is_due, insert_by_check, sort_by_check, take, due_intents}

abbrev NotBefore : PaymentIntent → PaymentIntent → Type 0
NotBefore i j = i.next_check_at ≤ j.next_check_at

abbrev pub Ordered : List PaymentIntent → Type 0
Ordered [] = Unit
Ordered (i ∷ is) = All (NotBefore i) is × Ordered is

module _ (P : PaymentIntent → Type 0) where
  All-insert :
      (i : PaymentIntent) (js : List PaymentIntent) → P i → All P js → All P (insert_by_check i js)
  unfolding insert_by_check
  All-insert i [] h hs = (h, tt)
  All-insert i (j ∷ js) h hs = elim (Bool-cases (leb i.next_check_at j.next_check_at)) [
    | inl e ↦ rw (e, if◌then◌else◌) (h, hs)
    | inr e ↦ rw (e, if◌then◌else◌) (hs.0, All-insert i js h hs.1)
  ]

  All-sort : (is : List PaymentIntent) → All P is → All P (sort_by_check is)
  unfolding sort_by_check
  All-sort [] h = tt
  All-sort (i ∷ is) h = All-insert i (sort_by_check is) h.0 (All-sort is h.1)

  All-take : (n : ℕ) (is : List PaymentIntent) → All P is → All P (take n is)
  All-take zero is h = tt
  All-take (suc n) [] h = tt
  All-take (suc n) (i ∷ is) h = (h.0, All-take n is h.1)

  All-weaken :
      (Q : PaymentIntent → Type 0) (is : List PaymentIntent)
      → ((i : PaymentIntent) → P i → Q i)
      → All P is
      → All Q is
  All-weaken Q [] f h = tt
  All-weaken Q (i ∷ is) f h = (f i h.0, All-weaken Q is f h.1)

All-filter :
    (p : PaymentIntent → Bool) (is : List PaymentIntent) → All (λ i. p i ≡ true) (filter p is)
unfolding filter
All-filter p [] = tt
All-filter p (i ∷ is) = elim (Bool-cases (p i)) [
  | inl e ↦ rw (e, if◌then◌else◌) (e, All-filter p is)
  | inr e ↦ rw (e, if◌then◌else◌) (All-filter p is)
]

insert-Ordered :
    (i : PaymentIntent) (js : List PaymentIntent) → Ordered js → Ordered (insert_by_check i js)
unfolding insert_by_check
insert-Ordered i [] h = (tt, tt)
insert-Ordered i (j ∷ js) h = elim (Bool-cases (leb i.next_check_at j.next_check_at)) [
  | inl e ↦
      rw (e, if◌then◌else◌)
        (let first : NotBefore i j = ground arith in
          (
            (first, All-weaken (NotBefore j) (NotBefore i) js (λ k le. ground (arith, first)) h.0),
            h,
          ))
  | inr e ↦
      rw (e, if◌then◌else◌)
        (All-insert (NotBefore j) i js (ground arith) h.0, insert-Ordered i js h.1)
]

sort-Ordered : (is : List PaymentIntent) → Ordered (sort_by_check is)
unfolding sort_by_check
sort-Ordered [] = tt
sort-Ordered (i ∷ is) = insert-Ordered i (sort_by_check is) (sort-Ordered is)

take-Ordered : (n : ℕ) (is : List PaymentIntent) → Ordered is → Ordered (take n is)
take-Ordered zero is h = tt
take-Ordered (suc n) [] h = tt
take-Ordered (suc n) (i ∷ is) h = (All-take (NotBefore i) n is h.0, take-Ordered n is h.1)

length-insert :
    (i : PaymentIntent) (js : List PaymentIntent) → length (insert_by_check i js) ≡ suc (length js)
unfolding insert_by_check
length-insert i [] = refl
length-insert i (j ∷ js) = ground (arith, length-insert i js)

length-sort : (is : List PaymentIntent) → length (sort_by_check is) ≡ length is
unfolding sort_by_check
length-sort [] = refl
length-sort (i ∷ is) = length-insert i (sort_by_check is) ∙ ap suc (length-sort is)

length-take : (n : ℕ) (is : List PaymentIntent) → length (take n is) ≡ min n (length is)
length-take zero is = ground arith
length-take (suc n) [] = ground arith
length-take (suc n) (i ∷ is) = ground (arith, length-take n is)

length-filter :
    (p : PaymentIntent → Bool) (is : List PaymentIntent) → length (filter p is) ≡ count p is
unfolding filter count
length-filter p [] = refl
length-filter p (i ∷ is) = ground (arith, length-filter p is)

insert_by_check-perm :
    (i : PaymentIntent) (js : List PaymentIntent) → Perm (insert_by_check i js) (i ∷ js)
unfolding insert_by_check
insert_by_check-perm i [] = Perm.rfl
insert_by_check-perm i (j ∷ js) = elim (Bool-cases (leb i.next_check_at j.next_check_at)) [
  | inl e ↦ rw (e, if◌then◌else◌) Perm.rfl
  | inr e ↦
      rw (e, if◌then◌else◌)
        (Perm.trans (Perm.cons j (insert_by_check-perm i js)) (Perm.swap i j js))
]

sort_by_check-perm : (is : List PaymentIntent) → Perm (sort_by_check is) is
unfolding sort_by_check
sort_by_check-perm [] = Perm.rfl
sort_by_check-perm (i ∷ is) =
    Perm.trans (insert_by_check-perm i (sort_by_check is)) (Perm.cons i (sort_by_check-perm is))

-- What `take` leaves.
abbrev left : ℕ → List PaymentIntent → List PaymentIntent
left zero is = is
left (suc n) [] = []
left (suc n) (i ∷ is) = left n is

take-++-left : (n : ℕ) (is : List PaymentIntent) → take n is ++ left n is ≡ is
take-++-left zero is = refl
take-++-left (suc n) [] = refl
take-++-left (suc n) (i ∷ is) = ap (λ js. i ∷ js) (take-++-left n is)

All-left :
    (P : PaymentIntent → Type 0) (n : ℕ) (is : List PaymentIntent) → All P is → All P (left n is)
All-left P zero is h = h
All-left P (suc n) [] h = tt
All-left P (suc n) (i ∷ is) h = All-left P n is h.1

-- No intent of the first list has waited less long than one of the second.
abbrev pub AllBefore : List PaymentIntent → List PaymentIntent → Type 0
AllBefore taken rest = All (λ i. All (NotBefore i) rest) taken

AllBefore-left : (n : ℕ) (is : List PaymentIntent) → Ordered is → AllBefore (take n is) (left n is)
AllBefore-left zero is h = tt
AllBefore-left (suc n) [] h = tt
AllBefore-left (suc n) (i ∷ is) h = (All-left (NotBefore i) n is h.0, AllBefore-left n is h.1)

-- A round takes ten of the rows that are due, or all of them when there are fewer, the one that has
-- waited longest first: with some other rows they make up the due rows of the table, each as often as
-- it is there, and none of those left out has waited longer than one that is taken.
pub due_intents-Ordered :
    (now : ℕ) (db : Db)
    → (length (due_intents now db) ≡ min 10 (count (is_due now) db.payment_intents))
      × All (λ i. is_due now i ≡ true) (due_intents now db)
      × Ordered (due_intents now db)
      × ((rest : List PaymentIntent) × Perm
            (due_intents now db ++ rest)
            (filter (is_due now) db.payment_intents)
          × AllBefore (due_intents now db) rest)
unfolding due_intents
due_intents-Ordered now db =
    let due = filter (is_due now) db.payment_intents in
    let sorted = sort_by_check due in
    let ordered : Ordered sorted = sort-Ordered due in
    (
      length-take 10 sorted
          ∙ ap (min 10) (length-sort due ∙ length-filter (is_due now) db.payment_intents),
      All-take (λ i. is_due now i ≡ true) 10 sorted
          (All-sort (λ i. is_due now i ≡ true) due (All-filter (is_due now) db.payment_intents)),
      take-Ordered 10 sorted ordered,
      (
        left 10 sorted,
        rw (take-++-left 10 sorted) (sort_by_check-perm due),
        AllBefore-left 10 sorted ordered,
      ),
    )

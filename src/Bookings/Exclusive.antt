-- ===== src/Bookings/Exclusive.antt =====
-- No room is sold twice for one night: the invariant of the bookings table, and what an insertion and
-- an update by identifier must respect.
use tuljai_stays.Base.{
  ℕ, ◌≡◌, refl, sym, ◌∙◌, Bool, true, false, ◌&&◌, not, Option, none, some, List, [], ◌∷◌, arith,
  ◌==◌, find, update_where, All, Bool-cases, inl, inr, is_some_eq,
}
use tuljai_stays.Store.Status.{is_active}
use tuljai_stays.Store.Rows.{Booking}
use tuljai_stays.Inventory.Defs.{overlaps}

-- both present, and equal
abbrev pub same_some : Option ℕ → Option ℕ → Bool
same_some (some a) (some b) = a == b
same_some none _ = false
same_some (some a) none = false

-- The booking counts against its room.
abbrev pub holds : Booking → Bool
holds b = is_active b.status && not b.is_deleted

-- Two bookings that both hold one room, with overlapping stays.
unfoldable pub clash : Booking → Booking → Bool
clash b c = holds b && holds c && same_some b.room_id c.room_id && overlaps b.stay c.stay

-- No two rows of a table are related.
abbrev pub Apart : (Booking → Booking → Bool) → List Booking → Type 0
Apart R [] = Unit {0}
Apart R (b ∷ bs) = All (λ c. R b c ≡ false) bs × Apart R bs

abbrev pub Exclusive : List Booking → Type 0
Exclusive = Apart clash

abbrev pub DistinctIds : List Booking → Type 0
DistinctIds [] = Unit {0}
DistinctIds (b ∷ bs) = All (λ c. (c.id == b.id) ≡ false) bs × DistinctIds bs

-- One hold becomes at most one booking.
abbrev pub same_source : Booking → Booking → Bool
same_source b c = same_some b.source_lock_id c.source_lock_id

abbrev pub OnePerHold : List Booking → Type 0
OnePerHold = Apart same_source

abbrev pub has_id : ℕ → Booking → Bool
has_id k b = b.id == k

clash-sym : (b c : Booking) → clash b c ≡ clash c b
unfolding clash
clash-sym b c = ground arith

pub clash-inactive : (b c : Booking) → holds b ≡ false → clash b c ≡ false
unfolding clash
clash-inactive b c h = rw h

-- A row that keeps its room and its stay, and holds only if it held, clashes no more than before.
pub clash-shrink :
    (b b' c : Booking)
    → (holds b' ≡ true → holds b ≡ true)
    → b'.room_id ≡ b.room_id
    → b'.stay ≡ b.stay
    → clash b c ≡ false
    → clash b' c ≡ false
unfolding clash
clash-shrink b b' c h r s e = elim (Bool-cases (holds b')) [
  | inl on ↦ rw (r, s, on) (rw (h on) at e)
  | inr off ↦ rw off
]

module _ {P Q : Booking → Type 0} where
  pub All-map : (bs : List Booking) → ((b : Booking) → P b → Q b) → All P bs → All Q bs
  All-map [] h a = tt
  All-map (b ∷ bs) h a = (h b a.0, All-map bs h a.1)

module _ {P Q R : Booking → Type 0} where
  pub All-zip :
      (bs : List Booking) → ((b : Booking) → P b → Q b → R b) → All P bs → All Q bs → All R bs
  All-zip [] h p q = tt
  All-zip (b ∷ bs) h p q = (h b p.0 q.0, All-zip bs h p.1 q.1)

-- An update by an identifier that no row has changes nothing.
pub update_absent :
    (k : ℕ) (f : Booking → Booking) (bs : List Booking)
    → All (λ c. (c.id == k) ≡ false) bs
    → update_where (has_id k) f bs ≡ bs
unfolding update_where
update_absent k f [] a = refl
update_absent k f (b ∷ bs) a = rw (a.0, update_absent k f bs a.1)

pub All-update :
    (P : Booking → Type 0) (k : ℕ) (f : Booking → Booking) (r : Booking) (bs : List Booking)
    → DistinctIds bs
    → find (has_id k) bs ≡ some r
    → P (f r)
    → All P bs
    → All P (update_where (has_id k) f bs)
unfolding find update_where
All-update P k f r [] d e p a = tt
All-update P k f r (b ∷ bs) d e p a = elim (Bool-cases (b.id == k)) [
  | inl hit ↦
      let same : b ≡ r = ground arith in
      let rest : All (λ c. (c.id == k) ≡ false) bs =
        All-map bs (λ c h. (let e : b.id ≡ k = ground arith in rw (← e) h)) d.0 in
      rw (hit, update_absent k f bs rest) (rw same p, a.1)
  | inr miss ↦ rw miss (a.0, All-update P k f r bs d.1 (ground arith) p a.1)
]

-- The row that an update by identifier changes, and that it alone has the identifier.
pub update-DistinctIds :
    (k : ℕ) (f : Booking → Booking) (bs : List Booking)
    → ((b : Booking) → (f b).id ≡ b.id)
    → DistinctIds bs
    → DistinctIds (update_where (has_id k) f bs)
unfolding update_where
update-DistinctIds k f [] h d = tt
update-DistinctIds k f (b ∷ bs) h d = (
  ids_kept _ bs (elim (Bool-cases (b.id == k)) [ inl e ↦ rw (e, h b) d.0 | inr e ↦ rw e d.0 ]),
  update-DistinctIds k f bs h d.1,
)
  where
    ids_kept :
        (n : ℕ) (cs : List Booking)
        → All (λ c. (c.id == n) ≡ false) cs
        → All (λ c. (c.id == n) ≡ false) (update_where (has_id k) f cs)
    ids_kept n [] a = tt
    ids_kept n (c ∷ cs) a = (
      elim (Bool-cases (c.id == k)) [ inl e ↦ rw (e, h c) a.0 | inr e ↦ rw e a.0 ],
      ids_kept n cs a.1,
    )

pub update-OnePerHold :
    (k : ℕ) (f : Booking → Booking) (bs : List Booking)
    → ((b : Booking) → (f b).source_lock_id ≡ b.source_lock_id)
    → OnePerHold bs
    → OnePerHold (update_where (has_id k) f bs)
unfolding update_where
update-OnePerHold k f [] h d = tt
update-OnePerHold k f (b ∷ bs) h d = (
  elim (Bool-cases (b.id == k)) [
    | inl e ↦ rw (e, h b) (sources_kept b.source_lock_id bs d.0)
    | inr e ↦ rw e (sources_kept b.source_lock_id bs d.0)
  ],
  update-OnePerHold k f bs h d.1,
)
  where
    sources_kept :
        (o : Option ℕ) (cs : List Booking)
        → All (λ c. same_some o c.source_lock_id ≡ false) cs
        → All (λ c. same_some o c.source_lock_id ≡ false) (update_where (has_id k) f cs)
    sources_kept o [] a = tt
    sources_kept o (c ∷ cs) a = (
      elim (Bool-cases (c.id == k)) [ inl e ↦ rw (e, h c) a.0 | inr e ↦ rw e a.0 ],
      sources_kept o cs a.1,
    )

-- No booking comes from a hold that `findUnique` finds none for.
pub unsourced :
    (k : ℕ) (bs : List Booking)
    → find (λ b. is_some_eq b.source_lock_id k) bs ≡ none
    → All (λ c. same_some (some k) c.source_lock_id ≡ false) bs
unfolding find
unsourced k [] e = tt
unsourced k (b ∷ bs) e = elim (Bool-cases (is_some_eq b.source_lock_id k)) [
  | inl hit ↦ cc (rw hit at e)
  | inr miss ↦ (other_source b.source_lock_id k miss, unsourced k bs (rw miss at e))
]
  where
    other_source : (o : Option ℕ) (n : ℕ) → is_some_eq o n ≡ false → same_some (some n) o ≡ false
    other_source none n h = refl
    other_source (some a) n h = ground arith

-- Changing one row keeps the table exclusive if the changed row clashes with no other row.
pub update-Exclusive :
    (k : ℕ) (f : Booking → Booking) (r : Booking) (bs : List Booking)
    → DistinctIds bs
    → find (has_id k) bs ≡ some r
    → All (λ c. (c.id == k) ≡ false → clash (f r) c ≡ false) bs
    → Exclusive bs
    → Exclusive (update_where (has_id k) f bs)
unfolding find update_where
update-Exclusive k f r [] d e p x = tt
update-Exclusive k f r (b ∷ bs) d e p x = elim (Bool-cases (b.id == k)) [
  | inl hit ↦
      let same : b ≡ r = ground arith in
      let rest : All (λ c. (c.id == k) ≡ false) bs =
        All-map bs (λ c h. (let e : b.id ≡ k = ground arith in rw (← e) h)) d.0 in
      rw (hit, update_absent k f bs rest) (rw same (All-zip bs (λ c h g. g h) rest p.1), x.1)
  | inr miss ↦ rw miss (
    All-update (λ c. clash b c ≡ false) k f r bs d.1 (ground arith) (clash-sym b (f r) ∙ p.0 miss)
        x.0,
    update-Exclusive k f r bs d.1 (ground arith) p.1 x.1,
  )
]

-- The row with an identifier is related to no row that has another.
module _ (R : Booking → Booking → Bool) (R-sym : (b c : Booking) → R b c ≡ R c b) where
  found_unrelated :
      (k : ℕ) (r b : Booking) (cs : List Booking)
      → find (has_id k) cs ≡ some r
      → All (λ c. R b c ≡ false) cs
      → R b r ≡ false
  unfolding find
  found_unrelated k r b [] e a = cc
  found_unrelated k r b (c ∷ cs) e a = elim (Bool-cases (c.id == k)) [
    | inl hit ↦ (let same : c ≡ r = ground arith in rw (← same) a.0)
    | inr miss ↦ found_unrelated k r b cs (ground arith) a.1
  ]

  pub row_unrelated :
      (k : ℕ) (r : Booking) (bs : List Booking)
      → find (has_id k) bs ≡ some r
      → Apart R bs
      → All (λ c. (c.id == k) ≡ false → R r c ≡ false) bs
  unfolding find
  row_unrelated k r [] e x = tt
  row_unrelated k r (b ∷ bs) e x = elim (Bool-cases (b.id == k)) [
    | inl hit ↦
        let same : b ≡ r = ground arith in
        (λ miss. cc (sym hit ∙ miss), All-map bs (λ c h _. rw (← same) h) x.0)
    | inr miss ↦
        let found : find (has_id k) bs ≡ some r = ground arith in
        (λ _. R-sym r b ∙ found_unrelated k r b bs found x.0, row_unrelated k r bs found x.1)
  ]

pub row_clear :
    (k : ℕ) (r : Booking) (bs : List Booking)
    → find (has_id k) bs ≡ some r
    → Exclusive bs
    → All (λ c. (c.id == k) ≡ false → clash r c ≡ false) bs
row_clear = row_unrelated clash clash-sym

-- An update that keeps room and stay, and makes no row hold that did not, keeps the table exclusive.
pub shrink-Exclusive :
    (k : ℕ) (f : Booking → Booking) (r : Booking) (bs : List Booking)
    → (holds (f r) ≡ true → holds r ≡ true)
    → (f r).room_id ≡ r.room_id
    → (f r).stay ≡ r.stay
    → find (has_id k) bs ≡ some r
    → DistinctIds bs
    → Exclusive bs
    → Exclusive (update_where (has_id k) f bs)
shrink-Exclusive k f r bs h hr hs e d x =
    update-Exclusive k f r bs d e
      (All-map bs (λ c clear other. clash-shrink r (f r) c h hr hs (clear other))
        (row_clear k r bs e x))
      x

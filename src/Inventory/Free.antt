-- ===== src/Inventory/Free.antt =====
-- What the queries for a room answer with: a room that passes their test.
use tuljai_stays.Base.{
  ◌≡◌, refl, Bool, true, false, ◌&&◌, none, some, List, [], ◌∷◌, arith, any-All, All, if◌then◌else◌,
  is_some_eq, Option, Bool-cases, inl, inr,
}
use mathlib.Core.Path.{subst}
use mathlib.Core.Option.{some-injective}
use tuljai_stays.Store.{Db}
use tuljai_stays.Store.Rows.{Room}
use tuljai_stays.Inventory.Defs.{
  Query, room_available, booking_blocks, first_room, earlier, room_before,
}

pub some-passes : (p : Room → Bool) (r s : Room) → p r ≡ true → some r ≡ some s → p s ≡ true
some-passes p r s h e = subst (λ t. p t ≡ true) (some-injective r s e) h

-- Of two rooms that pass, either passes.
pub choice-passes :
    (p : Room → Bool) (r t s : Room) (b : Bool)
    → p r ≡ true
    → p t ≡ true
    → (if b then some t else some r) ≡ some s
    → p s ≡ true
choice-passes p r t s true h k e = some-passes p t s k e
choice-passes p r t s false h k e = some-passes p r s h e

earlier-passes :
    (p : Room → Bool) (r : Room) (o : Option Room) (s : Room)
    → p r ≡ true
    → ((t : Room) → o ≡ some t → p t ≡ true)
    → earlier r o ≡ some s
    → p s ≡ true
earlier-passes p r none s h k e = some-passes p r s h e
earlier-passes p r (some t) s h k e = choice-passes p r t s (room_before t r) h (k t refl) e

pub first_room-passes :
    (p : Room → Bool) (rs : List Room) (s : Room) → first_room p rs ≡ some s → p s ≡ true
unfolding first_room
first_room-passes p [] s e = cc
first_room-passes p (r ∷ rs) s e = elim (Bool-cases (p r)) [
  | inl hit ↦
      earlier-passes p r (first_room p rs) s hit (λ t. first_room-passes p rs t) (rw hit at e)
  | inr miss ↦ first_room-passes p rs s (rw miss at e)
]

-- No booking that the query counts is in the room.
pub room_available-unsold :
    (db : Db) (q : Query) (r : Room)
    → room_available db q r ≡ true
    → All (λ b. (is_some_eq b.room_id r.id && booking_blocks q b) ≡ false) db.bookings
unfolding room_available
room_available-unsold db q r h =
    any-All (λ b. is_some_eq b.room_id r.id && booking_blocks q b) db.bookings (ground arith)

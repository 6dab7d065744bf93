-- ===== src/Bookings/Allocation.antt =====
-- A room that the booking service takes for a booking is in no other booking for those nights.
use tuljai_stays.Base.{
  ℕ, ◌≡◌, refl, Bool, true, false, ◌&&◌, Option, none, some, List, [], ◌∷◌, arith, ltb, ◌==◌,
  Bool-cases, inl, inr, is_some_eq, is_other, All,
}
use tuljai_stays.Store.{Db}
use tuljai_stays.Store.Rows.{Booking, Room}
use tuljai_stays.Inventory.Defs.{Query, booking_blocks, room_available}
use tuljai_stays.Inventory.Free.{some-passes, choice-passes, room_available-unsold}
use tuljai_stays.Bookings.Defs.{lowest_room, lower}
use tuljai_stays.Bookings.Exclusive.{clash, All-map}

lower-passes :
    (p : Room → Bool) (r : Room) (o : Option Room) (s : Room)
    → p r ≡ true
    → ((t : Room) → o ≡ some t → p t ≡ true)
    → lower r o ≡ some s
    → p s ≡ true
lower-passes p r none s h k e = some-passes p r s h e
lower-passes p r (some t) s h k e = choice-passes p r t s (ltb t.id r.id) h (k t refl) e

pub lowest_room-passes :
    (p : Room → Bool) (rs : List Room) (s : Room) → lowest_room p rs ≡ some s → p s ≡ true
unfolding lowest_room
lowest_room-passes p [] s e = cc
lowest_room-passes p (r ∷ rs) s e = elim (Bool-cases (p r)) [
  | inl hit ↦
      lower-passes p r (lowest_room p rs) s hit (λ t. lowest_room-passes p rs t) (rw hit at e)
  | inr miss ↦ lowest_room-passes p rs s (rw miss at e)
]

-- A booking put into a room that the query finds free clashes with no booking that it counts.
pub unsold-clear :
    (q : Query) (r : Room) (b c : Booking)
    → b.room_id ≡ some r.id
    → b.stay ≡ q.stay
    → is_other q.exclude_booking_id c.id ≡ true
    → (is_some_eq c.room_id r.id && booking_blocks q c) ≡ false
    → clash b c ≡ false
unfolding clash
unsold-clear q r b c hr hs other h = rw (hr, hs) (ground arith)

-- A booking in a room that is free for its stay clashes with no row.
pub free-clear :
    (db : Db) (q : Query) (r : Room) (b : Booking)
    → room_available db q r ≡ true
    → b.room_id ≡ some r.id
    → b.stay ≡ q.stay
    → q.exclude_booking_id ≡ none
    → All (λ c. clash b c ≡ false) db.bookings
free-clear db q r b h hr hs hn =
    All-map db.bookings (λ c g. unsold-clear q r b c hr hs (rw hn) g)
      (room_available-unsold db q r h)

not_excluded : (k n : ℕ) → (n == k) ≡ false → is_other (some k) n ≡ true
not_excluded k n h = ground arith

-- With one booking left out of the query, it clashes with no row but that.
pub free-clear_except :
    (db : Db) (q : Query) (r : Room) (b : Booking) (id : ℕ)
    → room_available db q r ≡ true
    → b.room_id ≡ some r.id
    → b.stay ≡ q.stay
    → q.exclude_booking_id ≡ some id
    → All (λ c. (c.id == id) ≡ false → clash b c ≡ false) db.bookings
free-clear_except db q r b id h hr hs hn =
    All-map db.bookings
      (λ c g miss. unsold-clear q r b c hr hs (rw hn (not_excluded id c.id miss)) g)
      (room_available-unsold db q r h)

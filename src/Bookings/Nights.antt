-- ===== src/Bookings/Nights.antt =====
-- What the invariant says of nights and guests, and the administrator's update that can break it.
use tuljai_stays.Base.{
  ℕ, ◌≡◌, ◌≢◌, refl, ap, true, false, Option, some, List, [], ◌∷◌, arith, ◌==◌, if◌then◌else◌, find,
  update_where, All, Bool-cases, inl, inr,
}
use tuljai_stays.Base.Results.{ok, commit, ◌>>=◌}
use tuljai_stays.Store.{Db, AuthenticatedUser}
use tuljai_stays.Store.Status.{BookingStatus}
use tuljai_stays.Store.Rows.{Booking}
use tuljai_stays.Inventory.Overlap.{NightOf}
use tuljai_stays.Bookings.Defs.{find_booking_or_throw, update_booking}
use tuljai_stays.Bookings.Lifecycle.{update_booking_status, status_checked, set_status}
use tuljai_stays.Bookings.Exclusive.{
  Exclusive, clash, holds, has_id, row_clear, row_unrelated, same_source,
}
use tuljai_stays.Bookings.Invariant.{Inv}
use tuljai_stays.Bookings.System.{Reach, Reach-Inv}

-- A row found under another identifier is one of those that a fact about the others covers.
other_row :
    (P : Booking → Type 0) (i j : ℕ) (c : Booking) (bs : List Booking)
    → (j == i) ≡ false
    → find (has_id j) bs ≡ some c
    → All (λ b. (b.id == i) ≡ false → P b) bs
    → P c
unfolding find
other_row P i j c [] h e a = cc
other_row P i j c (b ∷ bs) h e a = elim (Bool-cases (b.id == j)) [
  | inl hit ↦
      let same : b ≡ c = ground arith in
      let apart : (b.id == i) ≡ false = ground arith in rw (← same) (a.0 apart)
  | inr miss ↦ other_row P i j c bs h (ground arith) a.1
]

shared_night-clash :
    (b c : Booking) (room d : ℕ)
    → holds b ≡ true
    → holds c ≡ true
    → b.room_id ≡ some room
    → c.room_id ≡ some room
    → NightOf b.stay d
    → NightOf c.stay d
    → clash b c ≡ true
unfolding clash
shared_night-clash b c room d hb hc rb rc nb nc = rw (hb, hc, rb, rc) (ground arith)

-- In any database that the requests of `System` lead to, each under the conditions of its step,
-- from one whose bookings table keeps `Inv`, two bookings with different identifiers that are both
-- active and hold the same room have no night in common. The administrator's status update is not
-- among the requests.
pub no_double_booking :
    (start db : Db) (i j room d : ℕ) (b c : Booking)
    → Inv start.bookings
    → Reach start db
    → (j == i) ≡ false
    → find (has_id i) db.bookings ≡ some b
    → find (has_id j) db.bookings ≡ some c
    → holds b ≡ true
    → holds c ≡ true
    → b.room_id ≡ some room
    → c.room_id ≡ some room
    → NightOf b.stay d
    → ¬ NightOf c.stay d
no_double_booking start db i j room d b c v r apart eb ec hb hc rb rc nb nc =
    let w = Reach-Inv r v in
    cc (
      other_row (λ x. clash b x ≡ false) i j c db.bookings apart ec
          (row_clear i b db.bookings eb w.exclusive),
      shared_night-clash b c room d hb hc rb rc nb nc,
    )

same_source-sym : (b c : Booking) → same_source b c ≡ same_source c b
same_source-sym b c = ground arith

-- In any database that the requests of `System` lead to from one whose bookings table keeps `Inv`,
-- two bookings with different identifiers come from different holds.
pub no_second_booking_of_hold :
    (start db : Db) (i j lock_id : ℕ) (b c : Booking)
    → Inv start.bookings
    → Reach start db
    → (j == i) ≡ false
    → find (has_id i) db.bookings ≡ some b
    → find (has_id j) db.bookings ≡ some c
    → b.source_lock_id ≡ some lock_id
    → c.source_lock_id ≢ some lock_id
no_second_booking_of_hold start db i j lock_id b c v r apart eb ec sb sc =
    let w = Reach-Inv r v in
    let clear =
      other_row (λ x. same_source b x ≡ false) i j c db.bookings apart ec
        (row_unrelated same_source same_source-sym i b db.bookings eb w.sources) in
    same_number lock_id (rw (sb, sc) at clear)
  where
    same_number : (n : ℕ) → (n == n) ≡ false → ⊥
    same_number n h = ground arith

find-update_self :
    (k : ℕ) (f : Booking → Booking) (r : Booking) (bs : List Booking)
    → ((b : Booking) → (f b).id ≡ b.id)
    → find (has_id k) bs ≡ some r
    → find (has_id k) (update_booking k f bs) ≡ some (f r)
unfolding find update_where
find-update_self k f r [] h e = cc
find-update_self k f r (b ∷ bs) h e = elim (Bool-cases (b.id == k)) [
  | inl hit ↦
      let same : b ≡ r = ground arith in
      let kept : ((f b).id == k) ≡ true = rw (h b) hit in
      rw hit (rw kept (ap (λ x. some (f x)) same))
  | inr miss ↦ rw miss (rw (miss, if◌then◌else◌) (find-update_self k f r bs h (ground arith)))
]

find-update_other :
    (k j : ℕ) (f : Booking → Booking) (r : Booking) (bs : List Booking)
    → ((b : Booking) → (f b).id ≡ b.id)
    → (j == k) ≡ false
    → find (has_id j) bs ≡ some r
    → find (has_id j) (update_booking k f bs) ≡ some r
unfolding find update_where
find-update_other k j f r [] h ne e = cc
find-update_other k j f r (b ∷ bs) h ne e = elim (Bool-cases (b.id == k)) [
  | inl hit ↦
      let off : (b.id == j) ≡ false = ground arith in
      rw hit (rw (h b, off) (find-update_other k j f r bs h ne (ground arith)))
  | inr miss ↦ rw miss (elim (Bool-cases (b.id == j)) [
    | inl there ↦ rw there (ground arith)
    | inr off ↦ rw off (find-update_other k j f r bs h ne (ground arith))
  ])
]

status_bookings :
    (db : Db) (user : AuthenticatedUser) (notes : Option ℕ) (i : ℕ) (b : Booking)
    → find_booking_or_throw db i ≡ ok b
    → find (has_id i) db.bookings ≡ some b
    → (update_booking_status i BookingStatus.accepted notes user db db).1.bookings
      ≡ update_booking i (set_status BookingStatus.accepted) db.bookings
unfolding update_booking_status commit ◌>>=◌
status_bookings db user notes i b e eb = rw (e, status_checked) (rw eb)

-- The administrator's update tests nothing but the new status: a booking that was cancelled and has
-- a room becomes accepted in that room, also where another active booking has taken it for a night
-- of the stay.
pub update_booking_status_may_double_book :
    (db : Db) (user : AuthenticatedUser) (notes : Option ℕ) (i j room d : ℕ) (b c : Booking)
    → find_booking_or_throw db i ≡ ok b
    → find (has_id i) db.bookings ≡ some b
    → (j == i) ≡ false
    → find (has_id j) db.bookings ≡ some c
    → holds c ≡ true
    → b.is_deleted ≡ false
    → b.room_id ≡ some room
    → c.room_id ≡ some room
    → NightOf b.stay d
    → NightOf c.stay d
    → ¬ Exclusive (update_booking_status i BookingStatus.accepted notes user db db).1.bookings
update_booking_status_may_double_book db user notes i j room d b c e eb apart ec hc live rb rc nb nc
      x =
    let f = set_status BookingStatus.accepted in
    let y = rw (status_bookings db user notes i b e eb) at x in
    cc (
      other_row (λ z. clash (f b) z ≡ false) i j c (update_booking i f db.bookings) apart
          (find-update_other i j f c db.bookings (λ z. refl) apart ec)
          (row_clear i (f b) (update_booking i f db.bookings)
            (find-update_self i f b db.bookings (λ z. refl) eb) y),
      shared_night-clash (f b) c room d (rw live) hc rb rc nb nc,
    )

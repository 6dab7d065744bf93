-- ===== src/Bookings/Transitions.antt =====
-- The operations that change the status of one booking keep the bookings table exclusive.
use tuljai_stays.Base.{
  ℕ, ◌≡◌, refl, Bool, true, false, Option, none, some, List, [], ◌∷◌, All, ◌==◌, if◌then◌else◌,
  find, Bool-cases, Option-cases, inl, inr,
}
use tuljai_stays.Base.Results.{Result, ok, err, commit}
use tuljai_stays.Store.{Db, AuthenticatedUser}
use tuljai_stays.Store.Status.{BookingStatus, is_cancelled}
use tuljai_stays.Store.Rows.{Booking, BookingHistory, Action}
use tuljai_stays.Bookings.Defs.{find_booking_or_throw, update_booking}
use tuljai_stays.Bookings.Owner.{reject_booking, reject_checked, check_answer, reject}
use tuljai_stays.Bookings.Lifecycle.{
  cancel_booking, cancel_checked, cancel_tx, check_cancel, after_cancel, cancel, write_status,
  transition_booking, transition_checked,
}
use tuljai_stays.Bookings.Exclusive.{
  holds, has_id, update_absent, update-DistinctIds, update-OnePerHold, shrink-Exclusive,
}
use tuljai_stays.Bookings.Ways.{cancel_tx_cases, write_status_cases, reject_cases}
use tuljai_stays.Bookings.Invariant.{Inv}

-- An update of one row that keeps identifier, room and stay, and gives the room to no row that did
-- not hold it.
pub update-Inv :
    (id : ℕ) (f : Booking → Booking) (r : Booking) (bs : List Booking)
    → ((b : Booking) → (f b).id ≡ b.id)
    → ((b : Booking) → (f b).source_lock_id ≡ b.source_lock_id)
    → (holds (f r) ≡ true → holds r ≡ true)
    → (f r).room_id ≡ r.room_id
    → (f r).stay ≡ r.stay
    → find (has_id id) bs ≡ some r
    → Inv bs
    → Inv (update_booking id f bs)
update-Inv id f r bs hid ho h hr hs e v = record {
  ids = update-DistinctIds id f bs hid v.ids;
  exclusive = shrink-Exclusive id f r bs h hr hs e v.ids v.exclusive;
  sources = update-OnePerHold id f bs ho v.sources;
}

find-none :
    (k : ℕ) (bs : List Booking) → find (has_id k) bs ≡ none → All (λ b. (b.id == k) ≡ false) bs
unfolding find
find-none k [] e = tt
find-none k (b ∷ bs) e = elim (Bool-cases (b.id == k)) [
  | inl hit ↦ cc (rw hit at e)
  | inr miss ↦ (miss, find-none k bs (rw miss at e))
]

pub update-Inv_absent :
    (k : ℕ) (f : Booking → Booking) (bs : List Booking)
    → find (has_id k) bs ≡ none
    → Inv bs
    → Inv (update_booking k f bs)
update-Inv_absent k f bs e v = rw (update_absent k f bs (find-none k bs e)) v

-- An update that keeps room and stay, of a row that is active if it is there.
pub update-Inv_held :
    (id : ℕ) (f : Booking → Booking) (bs : List Booking)
    → ((b : Booking) → (f b).id ≡ b.id)
    → ((b : Booking) → (f b).source_lock_id ≡ b.source_lock_id)
    → ((b : Booking) → (f b).room_id ≡ b.room_id)
    → ((b : Booking) → (f b).stay ≡ b.stay)
    → ((r : Booking) → find (has_id id) bs ≡ some r → holds r ≡ true)
    → Inv bs
    → Inv (update_booking id f bs)
update-Inv_held id f bs hid ho hr hs held v = elim (Option-cases (find (has_id id) bs)) [
  | inl e ↦ update-Inv_absent id f bs e v
  | inr (r, e) ↦ update-Inv id f r bs hid ho (λ _. held r e) (hr r) (hs r) e v
]

-- rejectBooking keeps `Inv` on every outcome, whatever its first read saw.
pub reject_booking-Inv :
    (id reason : ℕ) (user : AuthenticatedUser) (seen current : Db)
    → Inv current.bookings
    → Inv (reject_booking id reason user seen current).1.bookings
unfolding reject_booking
reject_booking-Inv id reason user seen current v = checked (check_answer seen id user)
  where
    checked : (c : Result Booking) → Inv (reject_checked id reason user current c).1.bookings
    checked (err e) = v
    checked (ok existing) =
        reject_cases (λ db. Inv db.bookings) id reason user existing current v
          λ row there.
            update-Inv id (reject user.id reason) row current.bookings (λ b. refl) (λ b. refl)
              (λ h. cc) refl refl there v

after_cancel-bookings :
    (actor id : ℕ) (o : Result Booking × Db) → (after_cancel actor id o).1.bookings ≡ o.1.bookings
after_cancel-bookings actor id (ok b, db) = refl
after_cancel-bookings actor id (err e, db) = refl

-- cancelBooking keeps `Inv` on every outcome, whatever its first read saw.
pub cancel_booking-Inv :
    (id : ℕ) (reason : Option ℕ) (user : AuthenticatedUser) (seen current : Db)
    → Inv current.bookings
    → Inv (cancel_booking id reason user seen current).1.bookings
unfolding cancel_booking
cancel_booking-Inv id reason user seen current v = checked (check_cancel seen id user)
  where
    written :
        (existing : Booking)
        → Inv
            (after_cancel user.id id
              (commit current (cancel_tx id reason user.id existing current))).1.bookings
    written existing =
        rw
          (after_cancel-bookings user.id id
            (commit current (cancel_tx id reason user.id existing current)))
          (cancel_tx_cases (λ db. Inv db.bookings) id reason user.id existing current v
            λ row there _.
              update-Inv id (cancel reason) row current.bookings (λ b. refl) (λ b. refl) (λ h. cc)
                refl refl there v)

    checked : (c : Result Booking) → Inv (cancel_checked id reason user current c).1.bookings
    checked (err e) = v
    checked (ok existing) = elim (Bool-cases (is_cancelled existing.status)) [
      | inl e ↦ rw (e, if◌then◌else◌) v
      | inr e ↦ rw (e, if◌then◌else◌) (written existing)
    ]

module _ (id : ℕ) (f : Booking → Booking) (to : BookingStatus) (action : Action) (actor : Option ℕ)
    (allowed : BookingStatus → Bool) (current : Db) (hid : (b : Booking) → (f b).id ≡ b.id)
    (ho : (b : Booking) → (f b).source_lock_id ≡ b.source_lock_id)
    (hr : (b : Booking) → (f b).room_id ≡ b.room_id) (hs : (b : Booking) → (f b).stay ≡ b.stay)
    (keeps : (r : Booking)
      → find (has_id id) current.bookings ≡ some r
      → holds (f r) ≡ true
      → holds r ≡ true)
    (v : Inv current.bookings) where
  pub write_status-Inv : (entry : BookingHistory) → Inv (write_status id f entry current).1.bookings
  write_status-Inv entry =
      write_status_cases (λ db. Inv db.bookings) id f entry current v
        λ row there.
          update-Inv id f row current.bookings hid ho (keeps row there) (hr row) (hs row) there v

  transition_checked-Inv :
      (c : Result Booking)
      → Inv (transition_checked id allowed f to action actor current c).1.bookings
  unfolding transition_checked
  transition_checked-Inv (err e) = v
  transition_checked-Inv (ok existing) = elim (Bool-cases (allowed existing.status)) [
    | inl e ↦ rw (e, if◌then◌else◌) (write_status-Inv _)
    | inr e ↦ rw (e, if◌then◌else◌) v
  ]

  pub transition_booking-Inv :
      (seen : Db) → Inv (transition_booking id allowed f to action actor seen current).1.bookings
  unfolding transition_booking
  transition_booking-Inv seen = transition_checked-Inv (find_booking_or_throw seen id)

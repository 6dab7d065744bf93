-- ===== src/Qr/ScanOnce.antt =====
-- A token checks in once.
use tuljai_stays.Base.{
  ℕ, ◌≡◌, refl, Bool, true, false, ◌||◌, not, Option, none, some, List, arith, ◌==◌, leb,
  if◌then◌else◌, find, update_where, is_none, Bool-cases, inl, inr, ◌⊎◌, ==_refl,
}
use tuljai_stays.Base.Finds.{find-update_where}
use tuljai_stays.Base.Results.{
  Result, ok, err, Exception, bad_request, conflict, other, ◌>>=◌, commit, >>=-eq-ok, commit-eq-ok,
  or_throw,
}
use tuljai_stays.Store.{Db, AuthenticatedUser}
use tuljai_stays.Store.Status.{token_used}
use tuljai_stays.Store.Rows.{Booking, QrToken}
use tuljai_stays.Qr.Issue.{SignedQrPayloadBody}
use tuljai_stays.Qr.Payload.{unexpired}
use tuljai_stays.Qr.Scan.{
  ScanQrDto, ScanCheck, refused, fit, names_other, resolve_payload, resolve_raw, resolve_test,
  find_if, resolve_qr_token_from_scan_dto, check_scan, use_token, write_check_in, scan_tx,
  scan_checked, scan_booking, scan_token, scan_qr, after_scan, fits_payload,
}

-- A scan that is refused and changes nothing but the log.
abbrev pub Refused : Db → Result Booking × Db → Type 0
Refused db (result, db') =
    (e : Exception) × (result ≡ err e)
    × (db'.bookings ≡ db.bookings)
    × (db'.rooms ≡ db.rooms)
    × (db'.qr_tokens ≡ db.qr_tokens)

-- What a successful check-in leaves of the tokens.
abbrev Used : ℕ → ℕ → QrToken → Db → Db → Type 0
Used now actor t db db' =
    db'.qr_tokens ≡ update_where (λ x. x.id == t.id) (use_token now actor) db.qr_tokens

after_scan-eq-ok :
    (id : ℕ) (out : Result Booking × Db) {r : Booking} {db' : Db}
    → after_scan id out ≡ (ok r, db')
    → (db0 : Db) × (out ≡ (ok r, db0)) × (db'.qr_tokens ≡ db0.qr_tokens)
after_scan-eq-ok id (ok b, db) h = (db, cc, cc)
after_scan-eq-ok id (err e, db) h = cc

module _ (user : AuthenticatedUser) (now : ℕ) (dto : ScanQrDto) (db : Db) where
  scan_checked-Used :
      (t : QrToken) (b : Booking) (c : ScanCheck) {r : Booking} {db' : Db}
      → scan_checked user now dto db t b c ≡ (ok r, db')
      → Used now user.id t db db'
  unfolding scan_checked scan_tx write_check_in ◌>>=◌ commit
  scan_checked-Used t b (refused result e) h = cc
  scan_checked-Used t b (fit room) h =
      let (db0, done, tokens) = after_scan-eq-ok t.booking_id _ h in
      let (token, _, rest) =
        >>=-eq-ok (or_throw (find (λ x. x.id == t.id) db.qr_tokens) other) _
          (commit-eq-ok db _ done) in
      let (fresh, _, rest') =
        >>=-eq-ok (or_throw (find (λ x. x.id == t.booking_id) db.bookings) other) _ rest in
      let (occupied, _, rest'') =
        >>=-eq-ok (or_throw (find (λ r. r.id == room.id) db.rooms) other) _ rest' in
      let written : write_check_in now user.id t b room db ≡ db0 = cc in rw (tokens, ← written) refl

  scan_booking-Used :
      (seen : Db) (t : QrToken) (o : Option Booking) {r : Booking} {db' : Db}
      → scan_booking user now dto db seen t o ≡ (ok r, db')
      → Used now user.id t db db'
  unfolding scan_booking
  scan_booking-Used seen t none h = cc
  scan_booking-Used seen t (some b) h = scan_checked-Used t b (check_scan seen user now dto t b) h

  scan_token-Used :
      (seen : Db) (o : Option QrToken) {r : Booking} {db' : Db}
      → scan_token user now dto db seen o ≡ (ok r, db')
      → (t : QrToken) × (o ≡ some t) × Used now user.id t db db'
  unfolding scan_token
  scan_token-Used seen none h = cc
  scan_token-Used seen (some t) h = (t, refl, scan_booking-Used seen t _ h)

  -- A token that was used is refused.
  scan_checked-Refused :
      (t : QrToken) (b : Booking)
      → is_none t.used_at ≡ false
      → Refused db (scan_checked user now dto db t b (check_scan db user now dto t b))
  unfolding scan_checked check_scan
  scan_checked-Refused t b used = elim (Bool-cases (names_other dto.booking_id t.booking_id)) [
    | inl e ↦ rw (e, if◌then◌else◌) (bad_request, refl, refl, refl, refl)
    | inr e ↦
        let taken : (token_used t.status || not (is_none t.used_at)) ≡ true = ground arith in
        rw (e, taken, if◌then◌else◌) (conflict, refl, refl, refl, refl)
  ]

  scan_booking-Refused :
      (t : QrToken) (o : Option Booking)
      → is_none t.used_at ≡ false
      → Refused db (scan_booking user now dto db db t o)
  unfolding scan_booking
  scan_booking-Refused t none used = (other, refl, refl, refl, refl)
  scan_booking-Refused t (some b) used = scan_checked-Refused t b used

  scan_token-Refused :
      (o : Option QrToken)
      → ((t : QrToken) → o ≡ some t → is_none t.used_at ≡ false)
      → Refused db (scan_token user now dto db db o)
  unfolding scan_token
  scan_token-Refused none used = (bad_request, refl, refl, refl, refl)
  scan_token-Refused (some t) used =
      scan_booking-Refused t (find (λ b. b.id == t.booking_id) db.bookings) (used t refl)

-- The test that a payload or a raw token puts on a token does not look at whether it was used.
if_some-eq-some : {A : Type 0} (b : Bool) {f p : A} → (if b then none else some f) ≡ some p → f ≡ p
if_some-eq-some true h = cc
if_some-eq-some false h = cc

resolve_test-kept :
    (hash : ℕ → ℕ) (open_payload : ℕ → Option SignedQrPayloadBody) (now : ℕ) (dto : ScanQrDto)
    {p : QrToken → Bool} (at actor : ℕ) (x : QrToken)
    → resolve_test hash open_payload now dto dto.qr_payload ≡ some p
    → p (use_token at actor x) ≡ p x
resolve_test-kept hash open_payload now dto {p} at actor x = kept dto.qr_payload
  where
    kept_raw : (o : Option ℕ) → resolve_raw hash o ≡ some p → p (use_token at actor x) ≡ p x
    kept_raw none h = cc
    kept_raw (some raw) h =
        let same : (λ (t : QrToken). t.token_hash == hash raw) ≡ p = cc in rw (← same) refl

    kept_payload :
        (o : Option SignedQrPayloadBody)
        → resolve_payload dto.booking_id o ≡ some p
        → p (use_token at actor x) ≡ p x
    kept_payload none h = cc
    kept_payload (some q) h =
        let same : fits_payload q ≡ p = if_some-eq-some _ h in rw (← same) refl

    kept :
        (o : Option ℕ)
        → resolve_test hash open_payload now dto o ≡ some p
        → p (use_token at actor x) ≡ p x
    kept none h = kept_raw dto.token h
    kept (some payload) h = kept_payload (unexpired now (open_payload payload)) h

-- The same request at another time picks by the same test, or none.
resolve_test-later :
    (hash : ℕ → ℕ) (open_payload : ℕ → Option SignedQrPayloadBody) (now now' : ℕ) (dto : ScanQrDto)
    {p : QrToken → Bool}
    → resolve_test hash open_payload now dto dto.qr_payload ≡ some p
    → (resolve_test hash open_payload now' dto dto.qr_payload ≡ none)
      ⊎ (resolve_test hash open_payload now' dto dto.qr_payload ≡ some p)
resolve_test-later hash open_payload now now' dto {p} = later dto.qr_payload
  where
    later_payload :
        (o : Option SignedQrPayloadBody)
        → resolve_payload dto.booking_id (unexpired now o) ≡ some p
        → (resolve_payload dto.booking_id (unexpired now' o) ≡ none)
          ⊎ (resolve_payload dto.booking_id (unexpired now' o) ≡ some p)
    later_payload none h = inl refl
    later_payload (some q) h = elim (Bool-cases (leb q.expires_at now)) [
      | inl c ↦ cc (rw (c, if◌then◌else◌) at h)
      | inr c ↦ elim (Bool-cases (leb q.expires_at now')) [
        | inl d ↦ rw (d, if◌then◌else◌) (inl refl)
        | inr d ↦ rw (d, if◌then◌else◌) (inr (rw (c, if◌then◌else◌) at h))
      ]
    ]

    later :
        (o : Option ℕ)
        → resolve_test hash open_payload now dto o ≡ some p
        → (resolve_test hash open_payload now' dto o ≡ none)
          ⊎ (resolve_test hash open_payload now' dto o ≡ some p)
    later none h = inr h
    later (some payload) h = later_payload (open_payload payload) h

find_if-eq-some :
    (o : Option (QrToken → Bool)) (tokens : List QrToken) {t : QrToken}
    → find_if o tokens ≡ some t
    → (p : QrToken → Bool) × (o ≡ some p) × (find p tokens ≡ some t)
find_if-eq-some none tokens h = cc
find_if-eq-some (some p) tokens h = (p, refl, h)

find_if-same :
    (o : Option (QrToken → Bool)) (tokens : List QrToken) {p : QrToken → Bool} {u s : QrToken}
    → (o ≡ none) ⊎ (o ≡ some p)
    → find p tokens ≡ some u
    → find_if o tokens ≡ some s
    → u ≡ s
find_if-same none tokens same hit e = cc
find_if-same (some q) tokens (inl same) hit e = cc
find_if-same (some q) tokens {p} {u} {s} (inr same) hit e =
    let it : q ≡ p = cc in let also : find q tokens ≡ some u = rw it hit in cc

-- After a scan that checked a guest in, the same request made next, at any time and by any user, is
-- refused: it returns an error, and changes no booking, room or token. Both requests run with no
-- other between their reads and their transaction.
pub scan_qr-once :
    (hash : ℕ → ℕ) (open_payload : ℕ → Option SignedQrPayloadBody) (dto : ScanQrDto) (now now' : ℕ)
    (user user' : AuthenticatedUser) (db : Db) {b : Booking} {db' : Db}
    → scan_qr hash open_payload now dto user db db ≡ (ok b, db')
    → Refused db' (scan_qr hash open_payload now' dto user' db' db')
unfolding scan_qr resolve_qr_token_from_scan_dto
scan_qr-once hash open_payload dto now now' user user' db {b} {db'} h =
    let (t, found, written) = scan_token-Used user now dto db db _ h in
    let (p, picked, hit) = find_if-eq-some _ _ found in
    let again : find p db'.qr_tokens ≡ some (use_token now user.id t) = rw written (
      find-update_where p (λ x. x.id == t.id) (use_token now user.id)
        (λ x. resolve_test-kept hash open_payload now dto now user.id x picked) db.qr_tokens hit
        (==_refl t.id)) in
    scan_token-Refused user' now' dto db' _ (λ s e.
      let later = resolve_test-later hash open_payload now now' dto picked in
      rw (← find_if-same _ db'.qr_tokens later again e) refl)

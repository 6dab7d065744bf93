-- ===== src/Qr/Signed.antt =====
-- A signed QR text read back, and what a text that is accepted must carry
-- (backend/src/modules/bookings/qr-checkin.service.ts).
use tuljai_stays.Base.{
  ℕ, ◌≡◌, refl, arith, Bool, true, false, Option, none, some, ◌<◌, leb, Bool-cases, inl, inr, List,
  [], ◌∷◌, ◌++◌, ◌==◌, if◌then◌else◌, any, ap, ◌∙◌,
}
use tuljai_stays.Qr.Issue.{SignedQrPayloadBody}
use tuljai_stays.Qr.Payload.{
  dot, tjsqr, v1, same_text, split_dots, is_empty, sign_qr_display_payload, open_parts,
  open_qr_display_payload, unexpired, verify_qr_display_payload,
}

-- No part of a text has a dot in it.
abbrev pub is_dot : ℕ → Bool
is_dot c = c == dot

same_text_refl : (text : List ℕ) → same_text text text ≡ true
same_text_refl [] = refl
same_text_refl (c ∷ cs) = ground (arith, same_text_refl cs)

same_text-eq : (xs ys : List ℕ) → same_text xs ys ≡ true → xs ≡ ys
same_text-eq [] [] h = refl
same_text-eq [] (y ∷ ys) h = cc
same_text-eq (x ∷ xs) [] h = cc
same_text-eq (x ∷ xs) (y ∷ ys) h =
    let head : x ≡ y = ground (arith, h) in
    let tail : xs ≡ ys = same_text-eq xs ys (ground (arith, h)) in cc

split_dots-++ :
    (part rest : List ℕ)
    → any is_dot part ≡ false
    → split_dots (part ++ dot ∷ rest) ≡ part ∷ split_dots rest
unfolding split_dots any
split_dots-++ [] rest h = refl
split_dots-++ (c ∷ cs) rest h =
    let other : c == dot ≡ false = ground (arith, h) in
    let later : split_dots (cs ++ dot ∷ rest) ≡ cs ∷ split_dots rest =
      split_dots-++ cs rest (ground (arith, h)) in
    rw (other, if◌then◌else◌, later) refl

split_dots-one : (part : List ℕ) → any is_dot part ≡ false → split_dots part ≡ part ∷ []
unfolding split_dots any
split_dots-one [] h = refl
split_dots-one (c ∷ cs) h =
    let other : c == dot ≡ false = ground (arith, h) in
    let later : split_dots cs ≡ cs ∷ [] = split_dots-one cs (ground (arith, h)) in
    rw (other, if◌then◌else◌, later) refl

module _ (encode_body : SignedQrPayloadBody → List ℕ)
    (decode_body : List ℕ → Option SignedQrPayloadBody) (hmac : List ℕ → List ℕ) where
  open_qr_display_payload-sign :
      (body : SignedQrPayloadBody)
      → decode_body (encode_body body) ≡ some body
      → any is_dot (encode_body body) ≡ false
      → any is_dot (hmac (encode_body body)) ≡ false
      → is_empty (encode_body body) ≡ false
      → is_empty (hmac (encode_body body)) ≡ false
      → open_qr_display_payload encode_body decode_body hmac
          (sign_qr_display_payload encode_body decode_body hmac body)
        ≡ some body
  unfolding open_qr_display_payload sign_qr_display_payload split_dots
  open_qr_display_payload-sign body back plain plain' filled filled' =
      let parts =
        split_dots-++ (encode_body body) (hmac (encode_body body)) plain
        ∙ ap (λ rest. encode_body body ∷ rest) (split_dots-one (hmac (encode_body body)) plain') in
      rw
        (
          parts,
          filled,
          filled',
          if◌then◌else◌,
          same_text_refl (hmac (encode_body body)),
          if◌then◌else◌,
        )
        back

  open_qr_display_payload-signed :
      (payload : List ℕ) (body : SignedQrPayloadBody)
      → open_qr_display_payload encode_body decode_body hmac payload ≡ some body
      → (encoded : List ℕ) × (rest : List (List ℕ)) × (split_dots payload
          ≡ tjsqr ∷ v1 ∷ encoded ∷ hmac encoded ∷ rest)
        × (decode_body encoded ≡ some body)
  unfolding open_qr_display_payload
  open_qr_display_payload-signed payload body = parted (split_dots payload) refl
    where
      parted :
          (parts : List (List ℕ))
          → split_dots payload ≡ parts
          → open_parts encode_body decode_body hmac parts ≡ some body
          → (encoded : List ℕ) × (rest : List (List ℕ)) × (split_dots payload
              ≡ tjsqr ∷ v1 ∷ encoded ∷ hmac encoded ∷ rest)
            × (decode_body encoded ≡ some body)
      parted [] cut h = cc
      parted (a ∷ []) cut h = cc
      parted (a ∷ b ∷ []) cut h = cc
      parted (a ∷ b ∷ c ∷ []) cut h = cc
      parted (a ∷ b ∷ c ∷ d ∷ rest) cut h =
          let marks : (same_text a tjsqr ≡ true) × (same_text b v1 ≡ true) = ground (arith, h) in
          let signed : same_text d (hmac c) ≡ true = ground (arith, h) in
          let read : decode_body c ≡ some body = ground (arith, h) in
          let first : a ≡ tjsqr = same_text-eq a tjsqr marks.0 in
          let second : b ≡ v1 = same_text-eq b v1 marks.1 in
          let fourth : d ≡ hmac c = same_text-eq d (hmac c) signed in (c, rest, cut ∙ cc, read)

  -- A QR text that was signed gives back its body as long as the body's time is not over, and nothing
  -- from then on, if the body's encoding can be read back, and if encodings and signatures are not
  -- empty and have no dot in them, as base64url texts.
  pub verify_qr_display_payload-sign :
      (now : ℕ) (body : SignedQrPayloadBody)
      → decode_body (encode_body body) ≡ some body
      → any is_dot (encode_body body) ≡ false
      → any is_dot (hmac (encode_body body)) ≡ false
      → is_empty (encode_body body) ≡ false
      → is_empty (hmac (encode_body body)) ≡ false
      → verify_qr_display_payload encode_body decode_body hmac now
          (sign_qr_display_payload encode_body decode_body hmac body)
        ≡ (if leb body.expires_at now then none else some body)
  unfolding verify_qr_display_payload
  verify_qr_display_payload-sign now body back plain plain' filled filled' =
      rw (open_qr_display_payload-sign body back plain plain' filled filled') refl

  unexpired-eq-some :
      (now : ℕ) (o : Option SignedQrPayloadBody) (body : SignedQrPayloadBody)
      → unexpired now o ≡ some body
      → (o ≡ some body) × (now < body.expires_at)
  unexpired-eq-some now none body h = cc
  unexpired-eq-some now (some b) body h = elim (Bool-cases (leb b.expires_at now)) [
    | inl c ↦ cc (rw (c, if◌then◌else◌) at h)
    | inr c ↦
        let same : b ≡ body = cc (rw (c, if◌then◌else◌) at h) in
        (rw same refl, rw (← same) (ground (arith, c)))
  ]

  -- A QR text that is accepted has the HMAC of its third part as its fourth, after the two marks, its
  -- body is what its third part encodes, and the body's time is not over.
  pub verify_qr_display_payload-signed :
      (now : ℕ) (payload : List ℕ) (body : SignedQrPayloadBody)
      → verify_qr_display_payload encode_body decode_body hmac now payload ≡ some body
      → (encoded : List ℕ) × (rest : List (List ℕ)) × (split_dots payload
          ≡ tjsqr ∷ v1 ∷ encoded ∷ hmac encoded ∷ rest)
        × (decode_body encoded ≡ some body)
        × (now < body.expires_at)
  unfolding verify_qr_display_payload
  verify_qr_display_payload-signed now payload body h =
      let (opened, alive) =
        unexpired-eq-some now (open_qr_display_payload encode_body decode_body hmac payload) body
          h in
      let (encoded, rest, cut, read) = open_qr_display_payload-signed payload body opened in
      (encoded, rest, cut, read, alive)

-- ===== src/Qr/Payload.antt =====
-- The text of a QR code: `signQrDisplayPayload` and `verifyQrDisplayPayload` of
-- backend/src/modules/bookings/qr-checkin.service.ts. A text is a list of characters; JSON in
-- base64url and the HMAC are parameters.
use tuljai_stays.Base.{
  ℕ, Bool, true, false, ◌&&◌, not, Option, none, some, leb, List, [], ◌∷◌, ◌++◌, ◌==◌,
  if◌then◌else◌,
}
use tuljai_stays.Qr.Issue.{SignedQrPayloadBody}

-- the character '.'
abbrev pub dot : ℕ
dot = 46

-- 'tjsqr' and 'v1'
abbrev pub tjsqr : List ℕ
tjsqr = 116 ∷ 106 ∷ 115 ∷ 113 ∷ 114 ∷ []

abbrev pub v1 : List ℕ
v1 = 118 ∷ 49 ∷ []

abbrev pub same_text : List ℕ → List ℕ → Bool
same_text [] [] = true
same_text [] (_ ∷ _) = false
same_text (_ ∷ _) [] = false
same_text (a ∷ xs) (b ∷ ys) = a == b && same_text xs ys

-- `split('.')`, with the characters of the current part in front.
abbrev pub onto_first : ℕ → List (List ℕ) → List (List ℕ)
onto_first c [] = (c ∷ []) ∷ []
onto_first c (part ∷ parts) = (c ∷ part) ∷ parts

unfoldable pub split_dots : List ℕ → List (List ℕ)
split_dots [] = [] ∷ []
split_dots (c ∷ cs) = let rest = split_dots cs in if c == dot then [] ∷ rest else onto_first c rest

abbrev pub is_empty : List ℕ → Bool
is_empty [] = true
is_empty (_ ∷ _) = false

-- `new Date(parsed.expiresAt).getTime() <= Date.now()`: a body whose time is over is not returned.
abbrev pub unexpired : ℕ → Option SignedQrPayloadBody → Option SignedQrPayloadBody
unexpired now none = none
unexpired now (some body) = if leb body.expires_at now then none else some body

-- What the code reads back is a body, and its `version` is 1.
module _ (encode_body : SignedQrPayloadBody → List ℕ)
    (decode_body : List ℕ → Option SignedQrPayloadBody) (hmac : List ℕ → List ℕ) where
  unfoldable pub sign_qr_display_payload : SignedQrPayloadBody → List ℕ
  sign_qr_display_payload body =
      let encoded = encode_body body in tjsqr ++ dot ∷ v1 ++ dot ∷ encoded ++ dot ∷ hmac encoded

  abbrev pub open_parts : List (List ℕ) → Option SignedQrPayloadBody
  open_parts (prefix ∷ version ∷ encoded ∷ signature ∷ _) =
      if not (
        same_text prefix tjsqr
        && same_text version v1
        && not (is_empty encoded)
        && not (is_empty signature))
      then none
      else (if same_text signature (hmac encoded) then decode_body encoded else none)
  open_parts _ = none

  -- The tests before that of the time.
  unfoldable pub open_qr_display_payload : List ℕ → Option SignedQrPayloadBody
  unfolding split_dots
  open_qr_display_payload payload = open_parts (split_dots payload)

  unfoldable pub verify_qr_display_payload : ℕ → List ℕ → Option SignedQrPayloadBody
  unfolding open_qr_display_payload
  verify_qr_display_payload now payload = unexpired now (open_qr_display_payload payload)

-- ===== src/Tests/ServiceExamples.antt =====
-- The theorems on QR texts, pages and the expiry cycle, applied.
use tuljai_stays.Base.{
  ℕ, suc, ◌+◌, ◌-◌, ◌≤◌, ◌≡◌, ◌<◌, leb, if◌then◌else◌, refl, false, Option, none, some, List, [],
  ◌∷◌, any,
}
use tuljai_stays.Base.Int.{pos}
use tuljai_stays.Locks.Defs.{lapsed}
use tuljai_stays.Bookings.Lifecycle.{overdue}
use tuljai_stays.Bookings.Scheduler.{run_out, run_expiry_cycle, run_expiry_cycle-nothing_left}
use tuljai_stays.Qr.Issue.{SignedQrPayloadBody}
use tuljai_stays.Qr.Payload.{
  tjsqr, v1, split_dots, sign_qr_display_payload, verify_qr_display_payload,
}
use tuljai_stays.Qr.Signed.{
  is_dot, verify_qr_display_payload-sign, verify_qr_display_payload-signed,
}
use tuljai_stays.Pagination.{normalize_pagination, normalize_pagination-bounds}
use tuljai_stays.Tests.Data.{the_db}

abbrev the_body : SignedQrPayloadBody
the_body = record {
  booking_code = 11;
  booking_id = 1;
  expires_at = 1000;
  qr_token_id = 51;
  token_version = 1;
}

-- five numbers, away from the dot
abbrev encode : SignedQrPayloadBody → List ℕ
encode b =
    (100 + b.booking_code)
    ∷ (100 + b.booking_id)
    ∷ (100 + b.expires_at)
    ∷ (100 + b.qr_token_id)
    ∷ (100 + b.token_version)
    ∷ []

abbrev decode : List ℕ → Option SignedQrPayloadBody
decode (c ∷ i ∷ e ∷ t ∷ v ∷ []) = some (record {
  booking_code = c - 100;
  booking_id = i - 100;
  expires_at = e - 100;
  qr_token_id = t - 100;
  token_version = v - 100;
})
decode _ = none

abbrev keyed : List ℕ → List ℕ
keyed [] = 99 ∷ []
keyed (c ∷ cs) = suc c ∷ []

encoded_plain : any is_dot (encode the_body) ≡ false
unfolding any
encoded_plain = refl

keyed_plain : any is_dot (keyed (encode the_body)) ≡ false
unfolding any
keyed_plain = refl

accepted :
    verify_qr_display_payload encode decode keyed 999
      (sign_qr_display_payload encode decode keyed the_body)
    ≡ some the_body
unfolding verify_qr_display_payload sign_qr_display_payload split_dots
accepted = refl

run_out_text :
    verify_qr_display_payload encode decode keyed 1000
      (sign_qr_display_payload encode decode keyed the_body)
    ≡ none
unfolding verify_qr_display_payload sign_qr_display_payload split_dots
run_out_text = refl

verify_qr_display_payload-sign_example :
    verify_qr_display_payload encode decode keyed 1000
      (sign_qr_display_payload encode decode keyed the_body)
    ≡ (if leb the_body.expires_at 1000 then none else some the_body)
verify_qr_display_payload-sign_example =
    verify_qr_display_payload-sign encode decode keyed 1000 the_body refl encoded_plain keyed_plain
      refl refl

verify_qr_display_payload-signed_example :
    (encoded : List ℕ) × (rest : List (List ℕ)) × (split_dots
        (sign_qr_display_payload encode decode keyed the_body)
      ≡ tjsqr ∷ v1 ∷ encoded ∷ keyed encoded ∷ rest)
    × (decode encoded ≡ some the_body)
    × (999 < the_body.expires_at)
verify_qr_display_payload-signed_example =
    verify_qr_display_payload-signed encode decode keyed 999
      (sign_qr_display_payload encode decode keyed the_body) the_body accepted

normalize_pagination-bounds_example :
    (1 ≤ (normalize_pagination (some (pos 3)) (some (pos 500))).take)
    × ((normalize_pagination (some (pos 3)) (some (pos 500))).take ≤ 100)
    × (1 ≤ (normalize_pagination (some (pos 3)) (some (pos 500))).page)
    × ((normalize_pagination none (some (pos 500))).skip ≡ 0)
    × ((normalize_pagination (some (pos 2)) (some (pos 500))).skip
        ≡ (normalize_pagination (some (pos 1)) (some (pos 500))).skip
          + (normalize_pagination (some (pos 1)) (some (pos 500))).take)
normalize_pagination-bounds_example = normalize_pagination-bounds (some (pos 3)) (some (pos 500)) 0

run_expiry_cycle-nothing_left_example :
    (any (lapsed 2000) (run_expiry_cycle 2000 the_db).1.booking_locks ≡ false)
    × (any (overdue 2000) (run_expiry_cycle 2000 the_db).1.bookings ≡ false)
    × (any (run_out 2000) (run_expiry_cycle 2000 the_db).1.qr_tokens ≡ false)
run_expiry_cycle-nothing_left_example = run_expiry_cycle-nothing_left 2000 the_db

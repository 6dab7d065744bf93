-- ===== src/Tests/StayExamples.antt =====
-- The theorems on prices, stays and check-in, applied.
use tuljai_stays.Base.{
  ℕ, ◌*◌, ◌≡◌, refl, true, none, some, Option, arith, count, find, any, update_where,
}
use tuljai_stays.Base.Int.{pos, ◌+ℤ◌, ◌*ℤ◌, ◌-ℤ◌}
use tuljai_stays.Base.Results.{Result, ok, ◌>>=◌, commit}
use tuljai_stays.Store.{Db}
use tuljai_stays.Store.Rows.{Booking}
use tuljai_stays.Pricing.Defs.{calculate_stay_price}
use tuljai_stays.Pricing.Reference.{price_by_night}
use tuljai_stays.Pricing.Equivalence.{calculate_stay_price-eq-price_by_night}
use tuljai_stays.Inventory.Defs.{overlaps}
use tuljai_stays.Inventory.Overlap.{NightOf, overlaps-iff-shared_night}
use tuljai_stays.Bookings.Lifecycle.{check_in}
use tuljai_stays.Qr.Issue.{FreshToken, SignedQrPayloadBody, generate_qr, get_qr_metadata}
use tuljai_stays.Qr.Scan.{ScanQrDto, resolve_qr_token_from_scan_dto, scan_qr}
use tuljai_stays.Qr.OneToken.{OneActive, generate_qr-OneActive, get_qr_metadata-OneActive}
use tuljai_stays.Qr.ScanOnce.{Refused, scan_qr-once}
use tuljai_stays.Tests.Data.{
  the_db, the_config, the_owner, the_pilgrim, first_booking, first_stay, second_stay,
}

-- Day 10 is in the festival, and day 11 has a price of its own.
first_price : calculate_stay_price the_db 1 (pos 100000) first_stay (some (pos 200000)) ≡ ok 350000
unfolding calculate_stay_price ◌>>=◌ ◌+ℤ◌ ◌*ℤ◌ ◌-ℤ◌
first_price = refl

calculate_stay_price-eq-price_by_night_example :
    calculate_stay_price the_db 1 (pos 100000) first_stay (some (pos 200000))
    ≡ price_by_night the_db 1 (pos 100000) first_stay (some (pos 200000))
calculate_stay_price-eq-price_by_night_example =
    calculate_stay_price-eq-price_by_night the_db 1 (pos 100000) first_stay (some (pos 200000))

overlaps-iff-shared_night_example :
    (overlaps first_stay second_stay ≡ true
      → (d : ℕ) × NightOf first_stay d × NightOf second_stay d)
    × ((d : ℕ)
        → NightOf first_stay d
        → NightOf second_stay d
        → overlaps first_stay second_stay ≡ true)
overlaps-iff-shared_night_example =
    overlaps-iff-shared_night first_stay second_stay (ground arith) (ground arith)

abbrev fresh_token : FreshToken
fresh_token = record { id = 52; raw = 520 }

abbrev hash : ℕ → ℕ
hash raw = raw * 2

-- A payload is the identifier of the token of booking 1.
abbrev open_payload : ℕ → Option SignedQrPayloadBody
open_payload p = some (record {
  booking_code = 11;
  booking_id = 1;
  expires_at = 1000;
  qr_token_id = p;
  token_version = 1;
})

abbrev sign : SignedQrPayloadBody → ℕ
sign body = body.qr_token_id

one_active : OneActive 1 the_db.qr_tokens
unfolding count
one_active = ground arith

generate_qr-OneActive_example :
    OneActive 1
      (generate_qr hash the_config 2000 fresh_token 1 none the_owner the_db the_db).1.qr_tokens
generate_qr-OneActive_example =
    generate_qr-OneActive hash the_config 2000 fresh_token 1 none the_owner the_db the_db 1
      one_active

get_qr_metadata-OneActive_example :
    OneActive 1
      (get_qr_metadata hash the_config 2000 fresh_token sign 1 the_pilgrim the_db
        the_db).1.qr_tokens
get_qr_metadata-OneActive_example =
    get_qr_metadata-OneActive hash the_config 2000 fresh_token sign 1 the_pilgrim the_db 1
      one_active

abbrev the_scan : ScanQrDto
the_scan = record { booking_id = none; qr_payload = some 51; token = none }

abbrev scanned : Result Booking × Db
scanned = scan_qr hash open_payload 500 the_scan the_owner the_db the_db

abbrev arrived : Booking
arrived = check_in 500 first_booking

checks_in : scanned ≡ (ok arrived, scanned.1)
unfolding scan_qr resolve_qr_token_from_scan_dto ◌>>=◌ commit find any update_where
checks_in = refl

scan_qr-once_example :
    Refused scanned.1 (scan_qr hash open_payload 600 the_scan the_owner scanned.1 scanned.1)
scan_qr-once_example =
    scan_qr-once hash open_payload the_scan 500 600 the_owner the_owner the_db checks_in

-- ===== src/Tests/Data.antt =====
-- A lodge with one room, two guests with consecutive stays, and one hold.
use tuljai_stays.Base.{true, false, none, some, [], ◌∷◌}
use tuljai_stays.Base.Int.{pos}
use tuljai_stays.Store.{Db, Config, AuthenticatedUser, Role}
use tuljai_stays.Store.Status.{
  LodgeStatus, VerificationStatus, RoomStatus, BookingStatus, PaymentStatus, LockStatus,
  PaymentMethod, TokenStatus,
}
use tuljai_stays.Store.Rows.{
  Stay, Lodge, RoomType, Room, GuestDetails, Booking, BookingLock, CreateBookingDto, QrToken,
  SettingDate,
}
use tuljai_stays.Bookings.Defs.{Fresh}
use tuljai_stays.Bookings.Prepaid.{Payment}

abbrev pub the_lodge : Lodge
the_lodge = record {
  id = 1;
  city_id = 1;
  status = LodgeStatus.verified;
  verification_status = VerificationStatus.verified;
  is_active = true;
  is_deleted = false;
}

abbrev pub the_room_type : RoomType
the_room_type = record {
  id = 1;
  lodge_id = 1;
  capacity_adults = 2;
  capacity_children = 1;
  base_price = pos 100000;
  festival_price = some (pos 200000);
  is_active = true;
  is_deleted = false;
}

abbrev pub the_room : Room
the_room = record {
  id = 7;
  lodge_id = 1;
  room_type_id = 1;
  room_number = 101;
  floor = some 1;
  status = RoomStatus.available;
  is_active = true;
  is_deleted = false;
}

abbrev pub the_guest : GuestDetails
the_guest = record {
  guest_name = 1;
  guest_phone = 2;
  guest_email = none;
  guest_address = none;
  special_request = none;
  checkout_date_flexible = false;
  id_proof_storage_path = 3;
  id_proof_mime_type = 4;
  id_proof_original_name = 5;
  id_proof_size_bytes = 6;
}

abbrev pub first_stay : Stay
first_stay = record { check_in = 10; check_out = 12 }

abbrev pub second_stay : Stay
second_stay = record { check_in = 12; check_out = 14 }

abbrev pub third_stay : Stay
third_stay = record { check_in = 20; check_out = 22 }

-- accepted, in the room
abbrev pub first_booking : Booking
first_booking = record {
  id = 1;
  booking_code = 11;
  source_lock_id = some 31;
  pilgrim_user_id = 5;
  lodge_id = 1;
  room_type_id = 1;
  room_id = some 7;
  city_id = 1;
  status = BookingStatus.accepted;
  guest = the_guest;
  number_of_adults = 2;
  number_of_children = 0;
  total_guests = 2;
  stay = first_stay;
  total_amount = some 200000;
  balance_amount = none;
  commission_amount = none;
  payment_status = PaymentStatus.pay_at_lodge;
  owner_response_deadline = none;
  accepted_by_user_id = some 9;
  rejected_by_user_id = none;
  cancellation_reason = none;
  rejected_reason = none;
  checked_in_at = none;
  checked_out_at = none;
  is_deleted = false;
}

-- waiting for the owner, with no room
abbrev pub second_booking : Booking
second_booking = record first_booking {
  id = 2;
  booking_code = 12;
  source_lock_id = some 32;
  room_id = none;
  status = BookingStatus.pending_owner_approval;
  stay = second_stay;
  accepted_by_user_id = none;
}

-- a hold with a payment order
abbrev pub the_lock : BookingLock
the_lock = record {
  id = 33;
  lock_code = 330;
  checkout_attempt_key = none;
  pilgrim_user_id = 5;
  lodge_id = 1;
  room_type_id = 1;
  room_id = none;
  stay = third_stay;
  expires_at = 1000;
  status = LockStatus.active;
  provider_order_id = some 77;
  order_amount = some 200000;
}

abbrev pub the_token : QrToken
the_token = record {
  id = 51;
  booking_id = 1;
  token_hash = 510;
  token_version = 1;
  expires_at = 1000;
  used_at = none;
  used_by_user_id = none;
  status = TokenStatus.active;
}

abbrev pub the_db : Db
the_db = record {
  lodges = the_lodge ∷ [];
  room_types = the_room_type ∷ [];
  rooms = the_room ∷ [];
  room_pricing = record { room_type_id = 1; date = 11; price = pos 150000 } ∷ [];
  room_availability = [];
  bookings = second_booking ∷ first_booking ∷ [];
  booking_locks = the_lock ∷ [];
  payment_collections = [];
  payment_intents = [];
  payment_webhook_events = [];
  payment_settings = none;
  qr_tokens = the_token ∷ [];
  qr_scan_logs = [];
  booking_history = [];
  room_status_history = [];
  audit_logs = [];
  lodge_owners = record { lodge_id = 1; user_id = 9; is_active = true; is_deleted = false } ∷ [];
  festival_start_date = SettingDate.day 10;
  festival_end_date = SettingDate.day 10;
  notices = [];
}

abbrev pub the_owner : AuthenticatedUser
the_owner = record { id = 9; roles = Role.owner ∷ [] }

abbrev pub the_pilgrim : AuthenticatedUser
the_pilgrim = record { id = 5; roles = Role.pilgrim ∷ [] }

abbrev pub the_config : Config
the_config = record {
  lock_ttl_seconds = 300;
  prepaid_order_hold_seconds = 900;
  owner_response_deadline_seconds = 3600;
  commission_flat_amount = some 5000;
  qr_token_ttl_seconds = 86400;
}

abbrev pub the_request : CreateBookingDto
the_request = record {
  lock_code = 330;
  payment_method = PaymentMethod.online;
  number_of_adults = 2;
  number_of_children = 0;
  guest = the_guest;
}

abbrev pub the_payment : Payment
the_payment = record {
  provider_order_id = 77;
  provider_payment_id = 770;
  amount = 200000;
  currency = 0;
}

abbrev pub fresh_booking : Fresh
fresh_booking = record { id = 3; booking_codes = 13 ∷ 14 ∷ []; timed_code = 15 }

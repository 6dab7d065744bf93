-- ===== src/Store/Rows.antt =====
-- The rows of backend/prisma/schema.prisma that the booking flow reads and writes. Identifiers, codes
-- and free text are only compared, so they are numbers. A date is the number of days, and a time
-- the number of milliseconds, since one origin; money is in paise.
use tuljai_stays.Base.{ℕ, Bool, Option, List}
use tuljai_stays.Base.Int.{ℤ}
use tuljai_stays.Store.Status.{
  LodgeStatus, VerificationStatus, RoomStatus, BookingStatus, PaymentStatus, LockStatus,
  CollectionStatus, PaymentMethod, PaymentProvider, IntentStatus, TokenStatus,
}

-- `checkInDate` and `checkOutDate`: the nights of the half-open range
pub record Stay : Type 0 where
  pub check_in : ℕ
  pub check_out : ℕ

pub record Lodge : Type 0 where
  pub id : ℕ
  pub city_id : ℕ
  pub status : LodgeStatus
  pub verification_status : VerificationStatus
  pub is_active : Bool
  pub is_deleted : Bool

pub record RoomType : Type 0 where
  pub id : ℕ
  pub lodge_id : ℕ
  pub capacity_adults : ℕ
  pub capacity_children : ℕ
  pub base_price : ℤ
  pub festival_price : Option ℤ
  pub is_active : Bool
  pub is_deleted : Bool

pub record Room : Type 0 where
  pub id : ℕ
  pub lodge_id : ℕ
  pub room_type_id : ℕ
  pub room_number : ℕ
  pub floor : Option ℕ
  pub status : RoomStatus
  pub is_active : Bool
  pub is_deleted : Bool

pub record RoomPricing : Type 0 where
  pub room_type_id : ℕ
  pub date : ℕ
  pub price : ℤ

pub record RoomAvailability : Type 0 where
  pub room_id : ℕ
  pub date : ℕ
  pub status : RoomStatus

-- What the guest enters; it is copied to the booking and to its primary guest.
pub record GuestDetails : Type 0 where
  pub guest_name : ℕ
  pub guest_phone : ℕ
  pub guest_email : Option ℕ
  pub guest_address : Option ℕ
  pub special_request : Option ℕ
  pub checkout_date_flexible : Bool
  pub id_proof_storage_path : ℕ
  pub id_proof_mime_type : ℕ
  pub id_proof_original_name : ℕ
  pub id_proof_size_bytes : ℕ

pub record Booking : Type 0 where
  pub id : ℕ
  pub booking_code : ℕ
  pub source_lock_id : Option ℕ
  pub pilgrim_user_id : ℕ
  pub lodge_id : ℕ
  pub room_type_id : ℕ
  pub room_id : Option ℕ
  pub city_id : ℕ
  pub status : BookingStatus
  pub guest : GuestDetails
  pub number_of_adults : ℕ
  pub number_of_children : ℕ
  pub total_guests : ℕ
  pub stay : Stay
  pub total_amount : Option ℕ
  pub balance_amount : Option ℕ
  pub commission_amount : Option ℕ
  pub payment_status : PaymentStatus
  pub owner_response_deadline : Option ℕ
  pub accepted_by_user_id : Option ℕ
  pub rejected_by_user_id : Option ℕ
  pub cancellation_reason : Option ℕ
  pub rejected_reason : Option ℕ
  pub checked_in_at : Option ℕ
  pub checked_out_at : Option ℕ
  pub is_deleted : Bool

pub record BookingLock : Type 0 where
  pub id : ℕ
  pub lock_code : ℕ
  pub checkout_attempt_key : Option (List ℕ)
  pub pilgrim_user_id : ℕ
  pub lodge_id : ℕ
  pub room_type_id : ℕ
  pub room_id : Option ℕ
  pub stay : Stay
  pub expires_at : ℕ
  pub status : LockStatus
  pub provider_order_id : Option ℕ
  pub order_amount : Option ℕ

-- `provider_reference`: an order, or `owner-pay-at-lodge:` and a booking
pub data Reference : Type 0 where
  order_reference cash_reference : ℕ → Reference

pub record PaymentCollection : Type 0 where
  pub id : ℕ
  pub booking_id : ℕ
  pub method : PaymentMethod
  pub provider : Option PaymentProvider
  pub amount : ℕ
  pub status : CollectionStatus
  pub provider_order_id : Option ℕ
  pub provider_payment_id : Option ℕ
  pub provider_reference : Option Reference
  pub paid_at : Option ℕ

pub record CreateBookingDto : Type 0 where
  pub lock_code : ℕ
  pub payment_method : PaymentMethod
  pub number_of_adults : ℕ
  pub number_of_children : ℕ
  pub guest : GuestDetails

pub data LastError : Type 0 where
  gateway_amount_mismatch allocation_requires_review confirmation_requires_review : LastError
  paid_allocation_requires_review confirmation_retry_pending : LastError
  hold_expired_payment_status_uncertain : LastError

pub record PaymentIntent : Type 0 where
  pub id : ℕ
  pub lock_code : ℕ
  pub pilgrim_user_id : ℕ
  pub provider_order_id : ℕ
  pub provider_payment_id : Option ℕ
  pub amount : ℕ
  pub currency : ℕ
  pub guest_details : Option CreateBookingDto
  pub booking_id : Option ℕ
  pub status : IntentStatus
  pub last_error : Option LastError
  pub attempts : ℕ
  pub next_check_at : ℕ

pub record QrToken : Type 0 where
  pub id : ℕ
  pub booking_id : ℕ
  pub token_hash : ℕ
  pub token_version : ℕ
  pub expires_at : ℕ
  pub used_at : Option ℕ
  pub used_by_user_id : Option ℕ
  pub status : TokenStatus

pub data Action : Type 0 where
  booking_created booking_accepted booking_rejected booking_expired : Action
  booking_cancelled_by_pilgrim admin_status_updated : Action
  booking_checked_in booking_checked_out booking_completed : Action
  booking_checked_in_by_qr booking_lock_created pay_at_lodge_collected : Action
  qr_action reissue_action : Action

pub record BookingHistory : Type 0 where
  pub action : Action
  pub actor_user_id : Option ℕ
  pub booking_id : ℕ
  pub from_status : Option BookingStatus
  pub to_status : BookingStatus
  pub notes : Option ℕ

pub record RoomStatusHistory : Type 0 where
  pub actor_user_id : ℕ
  pub booking_id : ℕ
  pub from_status : RoomStatus
  pub reason : Action
  pub room_id : ℕ
  pub to_status : RoomStatus

pub record AuditLog : Type 0 where
  pub action : Action
  pub actor_user_id : Option ℕ
  pub entity_id : ℕ

pub record LodgeOwner : Type 0 where
  pub lodge_id : ℕ
  pub user_id : ℕ
  pub is_active : Bool
  pub is_deleted : Bool

-- The value of a `system_settings` row that should hold a date: no row, null or an empty text; a
-- text that is no `YYYY-MM-DD` date; or a date.
pub data SettingDate : Type 0 where
  unset invalid : SettingDate
  day : ℕ → SettingDate

pub data ScanResult : Type 0 where
  success used expired invalid unauthorized : ScanResult
  booking_not_found wrong_lodge invalid_status : ScanResult

-- a row of `qr_scan_logs`
pub record ScanLog : Type 0 where
  pub booking_id : Option ℕ
  pub lodge_id : Option ℕ
  pub qr_token_id : Option ℕ
  pub result : ScanResult
  pub scanned_by_user_id : ℕ

-- a row of `payment_webhook_events`
pub record WebhookEvent : Type 0 where
  pub id : ℕ
  pub event_type : ℕ
  pub provider_order_id : ℕ
  pub provider_payment_id : ℕ

-- a row of `payment_settings`
pub record PaymentSettings : Type 0 where
  pub online_payments_enabled : Bool
  pub by_razorpay : Bool
  pub is_displayed : Bool

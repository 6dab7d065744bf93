-- ===== src/Store.antt =====
-- The database (backend/prisma/schema.prisma) as a record of tables, newest row first, and the
-- caller of a request (packages/types/src/auth.ts).
pub mod Status
pub mod Rows
use tuljai_stays.Base.{ℕ, Bool, true, false, Option, List, [], ◌∷◌, ◌||◌}
use Rows.{
  Lodge, RoomType, Room, RoomPricing, RoomAvailability, Booking, BookingLock, PaymentCollection,
  PaymentIntent, QrToken, BookingHistory, RoomStatusHistory, AuditLog, LodgeOwner, SettingDate,
  ScanLog, WebhookEvent, PaymentSettings,
}

-- What the services hand to the notification service after a commit.
pub data Notice : Type 0 where
  booking_created booking_accepted booking_rejected booking_expired : ℕ → Notice
  booking_cancelled prepaid_booking_confirmed payment_collected : ℕ → Notice
  qr_generated checkin_completed payment_successful : ℕ → Notice
  qr_scan_failed : Option ℕ → Notice

pub record Db : Type 0 where
  pub lodges : List Lodge
  pub room_types : List RoomType
  pub rooms : List Room
  pub room_pricing : List RoomPricing
  pub room_availability : List RoomAvailability
  pub bookings : List Booking
  pub booking_locks : List BookingLock
  pub payment_collections : List PaymentCollection
  pub payment_intents : List PaymentIntent
  pub payment_webhook_events : List WebhookEvent
  pub payment_settings : Option PaymentSettings
  pub qr_tokens : List QrToken
  pub qr_scan_logs : List ScanLog
  pub booking_history : List BookingHistory
  pub room_status_history : List RoomStatusHistory
  pub audit_logs : List AuditLog
  pub lodge_owners : List LodgeOwner
  pub festival_start_date : SettingDate
  pub festival_end_date : SettingDate
  pub notices : List Notice

pub data Role : Type 0 where
  pilgrim owner staff admin super_admin : Role

pub record AuthenticatedUser : Type 0 where
  pub id : ℕ
  pub roles : List Role

-- `api.booking.*` of the configuration
pub record Config : Type 0 where
  pub lock_ttl_seconds : ℕ
  pub prepaid_order_hold_seconds : ℕ
  pub owner_response_deadline_seconds : ℕ
  pub commission_flat_amount : Option ℕ
  pub qr_token_ttl_seconds : ℕ

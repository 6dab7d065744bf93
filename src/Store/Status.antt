-- ===== src/Store/Status.antt =====
-- The enumerations of backend/prisma/schema.prisma that the booking flow reads, and the status sets
-- that the services test.
use tuljai_stays.Base.{Bool, true, false}

pub data LodgeStatus : Type 0 where
  draft pending_verification verified suspended rejected : LodgeStatus

pub data VerificationStatus : Type 0 where
  pending verified rejected : VerificationStatus

pub data RoomStatus : Type 0 where
  available reserved pending_approval confirmed occupied cleaning maintenance blocked : RoomStatus

pub data BookingStatus : Type 0 where
  draft pending_owner_approval accepted rejected qr_generated checked_in : BookingStatus
  checked_out completed cancelled expired no_show : BookingStatus

pub data PaymentStatus : Type 0 where
  not_required pending advance_paid fully_paid pay_at_lodge refunded failed : PaymentStatus

pub data LockStatus : Type 0 where
  active consumed expired released : LockStatus

pub data CollectionStatus : Type 0 where
  pending paid failed refunded cancelled : CollectionStatus

-- `payment_collections.method`, and `paymentMethod` of the booking request
pub data PaymentMethod : Type 0 where
  online pay_at_lodge : PaymentMethod

-- `payment_collections.provider`, where it is not null
pub data PaymentProvider : Type 0 where
  razorpay other_provider : PaymentProvider

pub data IntentStatus : Type 0 where
  pending confirmed recovery_required : IntentStatus

pub data TokenStatus : Type 0 where
  active used expired revoked : TokenStatus

abbrev pub lodge_verified : LodgeStatus → Bool
lodge_verified LodgeStatus.verified = true
lodge_verified _ = false

abbrev pub documents_verified : VerificationStatus → Bool
documents_verified VerificationStatus.verified = true
documents_verified _ = false

-- BLOCKING_ROOM_STATUSES
abbrev pub is_blocking : RoomStatus → Bool
is_blocking RoomStatus.occupied = true
is_blocking RoomStatus.maintenance = true
is_blocking RoomStatus.blocked = true
is_blocking _ = false

abbrev pub is_available : RoomStatus → Bool
is_available RoomStatus.available = true
is_available _ = false

-- `['CONFIRMED', 'RESERVED'].includes(status)`
abbrev pub is_held : RoomStatus → Bool
is_held RoomStatus.confirmed = true
is_held RoomStatus.reserved = true
is_held _ = false

-- ACTIVE_BOOKING_STATUSES
abbrev pub is_active : BookingStatus → Bool
is_active BookingStatus.pending_owner_approval = true
is_active BookingStatus.accepted = true
is_active BookingStatus.qr_generated = true
is_active BookingStatus.checked_in = true
is_active _ = false

abbrev pub is_pending : BookingStatus → Bool
is_pending BookingStatus.pending_owner_approval = true
is_pending _ = false

abbrev pub is_accepted : BookingStatus → Bool
is_accepted BookingStatus.accepted = true
is_accepted _ = false

abbrev pub is_cancelled : BookingStatus → Bool
is_cancelled BookingStatus.cancelled = true
is_cancelled _ = false

abbrev pub is_checked_in : BookingStatus → Bool
is_checked_in BookingStatus.checked_in = true
is_checked_in _ = false

abbrev pub is_checked_out : BookingStatus → Bool
is_checked_out BookingStatus.checked_out = true
is_checked_out _ = false

-- the statuses from which `cancelBooking` cancels
abbrev pub is_cancellable : BookingStatus → Bool
is_cancellable BookingStatus.pending_owner_approval = true
is_cancellable BookingStatus.accepted = true
is_cancellable BookingStatus.qr_generated = true
is_cancellable _ = false

-- `['ACCEPTED', 'QR_GENERATED'].includes(status)`
abbrev pub awaits_arrival : BookingStatus → Bool
awaits_arrival BookingStatus.accepted = true
awaits_arrival BookingStatus.qr_generated = true
awaits_arrival _ = false

-- ADMIN_ALLOWED_STATUS_UPDATES
abbrev pub admin_allowed : BookingStatus → Bool
admin_allowed BookingStatus.pending_owner_approval = true
admin_allowed BookingStatus.accepted = true
admin_allowed BookingStatus.rejected = true
admin_allowed BookingStatus.cancelled = true
admin_allowed BookingStatus.expired = true
admin_allowed BookingStatus.no_show = true
admin_allowed _ = false

abbrev pub at_lodge : PaymentStatus → Bool
at_lodge PaymentStatus.pay_at_lodge = true
at_lodge _ = false

abbrev pub is_online : PaymentMethod → Bool
is_online PaymentMethod.online = true
is_online PaymentMethod.pay_at_lodge = false

abbrev pub lock_active : LockStatus → Bool
lock_active LockStatus.active = true
lock_active _ = false

abbrev pub is_paid : CollectionStatus → Bool
is_paid CollectionStatus.paid = true
is_paid _ = false

abbrev pub collection_pending : CollectionStatus → Bool
collection_pending CollectionStatus.pending = true
collection_pending _ = false

abbrev pub token_active : TokenStatus → Bool
token_active TokenStatus.active = true
token_active _ = false

abbrev pub token_used : TokenStatus → Bool
token_used TokenStatus.used = true
token_used _ = false

abbrev pub intent_pending : IntentStatus → Bool
intent_pending IntentStatus.pending = true
intent_pending _ = false

abbrev pub intent_confirmed : IntentStatus → Bool
intent_confirmed IntentStatus.confirmed = true
intent_confirmed _ = false

abbrev pub needs_recovery : IntentStatus → Bool
needs_recovery IntentStatus.recovery_required = true
needs_recovery _ = false

abbrev pub is_fully_paid : PaymentStatus → Bool
is_fully_paid PaymentStatus.fully_paid = true
is_fully_paid _ = false

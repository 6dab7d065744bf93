-- ===== src/Payments/Gateway.antt =====
-- What backend/src/modules/payments/providers/razorpay.provider.ts asks of the gateway: its answers
-- are the fields of a record, a parameter of the operations that use them.
use tuljai_stays.Base.{ℕ, Bool, true, false, ◌&&◌, List}
use tuljai_stays.Base.Results.{Result}

pub data GatewayStatus : Type 0 where
  created authorized captured refunded failed : GatewayStatus

-- RazorpayPaymentResponse, its amount in paise
pub record GatewayPayment : Type 0 where
  pub id : ℕ
  pub order_id : ℕ
  pub amount : ℕ
  pub status : GatewayStatus
  pub captured : Bool
  pub currency : ℕ

pub record PaymentVerificationInput : Type 0 where
  pub order_id : ℕ
  pub payment_id : ℕ
  pub signature : ℕ

-- `verifyPayment`, `getPayment` and `getOrderPayments`
pub record Gateway : Type 0 where
  pub verify_payment : PaymentVerificationInput → Result Bool
  pub get_payment : ℕ → Result GatewayPayment
  pub get_order_payments : ℕ → Result (List GatewayPayment)

abbrev status_captured : GatewayStatus → Bool
status_captured GatewayStatus.captured = true
status_captured _ = false

-- `payment.status === 'captured' && payment.captured`
abbrev pub is_captured : GatewayPayment → Bool
is_captured p = status_captured p.status && p.captured

-- `['authorized', 'captured'].includes(payment.status)`
abbrev pub is_under_way : GatewayStatus → Bool
is_under_way GatewayStatus.authorized = true
is_under_way GatewayStatus.captured = true
is_under_way _ = false

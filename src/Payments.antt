-- ===== src/Payments.antt =====
-- Online payments (backend/src/modules/payments). `Order` is the creation of a gateway order,
-- `OrderSteps` the interleavings of such attempts, `OneOrder` what they can never do, `OrderRuns` a
-- whole run as steps. `Checkout` and `BookingOrder` are the orders for holds and bookings;
-- `Confirm`, `Verify`, `Reconcile`, `Pending` and `Status` the operations after a payment, with the
-- answers of `Gateway`. `Confirmed`, `Retried`, `Settled` and `PaymentSteps` are about confirmed intents,
-- `Accounted` about captured payments, `Allocated` and `Recovered` about the table of bookings,
-- `AllOrNothing` and `Released` about failures, `DueOrder` about the rounds of retries.
pub mod Gateway
pub mod Verify
pub mod Allocated
pub mod Reconcile
pub mod Pending
pub mod Confirm
pub mod Checkout
pub mod BookingOrder
pub mod Status
pub mod Confirmed
pub mod Retried
pub mod Settled
pub mod PaymentSteps
pub mod Accounted
pub mod AllOrNothing
pub mod BackOff
pub mod DueOrder
pub mod Released
pub mod Recovered
pub mod Order
pub mod OrderSteps
pub mod OneOrder
pub mod OrderRuns

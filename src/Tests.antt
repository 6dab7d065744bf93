-- ===== src/Tests.antt =====
-- Runs on concrete data: the data in `Data`, then the theorems applied to it.
pub mod Data
pub mod BookingExamples
pub mod PaymentExamples
pub mod StayExamples
pub mod LockExamples
pub mod RecoveryExamples
pub mod AuthExamples
pub mod ServiceExamples

-- ===== src/Locks.antt =====
-- Holds on a room type (backend/src/modules/bookings/booking-locks.service.ts): the operations in
-- `Defs`, what a repeated request gets in `Idempotency`, what a hold takes from the rooms left in
-- `Counting`.
pub mod Defs
pub mod Idempotency
pub mod Counting

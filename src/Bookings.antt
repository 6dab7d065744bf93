-- ===== src/Bookings.antt =====
-- The booking service (backend/src/modules/bookings/bookings.service.ts). Each operation reads
-- before its transaction and again inside it: `seen` is the database at the first reads, `current`
-- the one that the transaction meets, so that whatever other requests do in between is a difference
-- of the two.
pub mod Defs
pub mod Create
pub mod Prepaid
pub mod Owner
pub mod Lifecycle
pub mod Exclusive
pub mod Allocation
pub mod Ways
pub mod Invariant
pub mod Transitions
pub mod Guarded
pub mod System
pub mod Nights
pub mod Scheduler

-- ===== src/Inventory.antt =====
-- Rooms that are free for a stay (backend/src/modules/bookings/booking-availability.service.ts): the
-- queries in `Defs`, what overlap means in `Overlap`, what a free room is in `Free`.
pub mod Defs
pub mod Overlap
pub mod Free

-- ===== src/Cash.antt =====
-- Cash taken at the lodge (backend/src/modules/bookings/cash-collection.ts): the operation in
-- `Defs`, that it collects the total, and once, in `Once`.
pub mod Defs
pub mod Once

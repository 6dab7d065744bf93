-- ===== src/Pricing.antt =====
-- The price of a stay (backend/src/modules/bookings/booking-pricing.ts): the code in `Defs`, a price
-- counted night by night in `Reference`, and their equality in `Equivalence`.
pub mod Defs
pub mod Nights
pub mod Reference
pub mod Tariff
pub mod Loop
pub mod Equivalence

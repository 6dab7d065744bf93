-- ===== src/Qr.antt =====
-- Check-in by QR code (backend/src/modules/bookings/qr-checkin.service.ts): issuing tokens in
-- `Issue`, scanning them in `Scan`, how many tokens are active in `OneToken`, a second scan in
-- `ScanOnce`, what check-in leaves of the bookings table in `Rooms`, the text of a code in
-- `Payload`.
pub mod Issue
pub mod Scan
pub mod Payload
pub mod Signed
pub mod OneToken
pub mod ScanOnce
pub mod Rooms

-- ===== src/Auth.antt =====
-- Sign-in and sessions (backend/src/modules/auth/auth.service.ts). `Rows` is its tables, `Tokens`
-- what every sign-in ends with, `Otp` one-time passwords, `Google` the sign-in with Google,
-- `Refresh` the renewal and the end of a session, `Passwords` the sign-ins with a password,
-- `Throttle` the limit on failed ones, and `Reset` the setting of a password. `OtpOnce` counts
-- sign-ins, `Attempts` failures, `Expiry` is about times, `SignedOut` about a logout and a reset,
-- `Ended` about a token that was revoked, `AuthSteps` about any sequence of operations.
pub mod Rows
pub mod Tokens
pub mod Otp
pub mod Google
pub mod Refresh
pub mod Throttle
pub mod Passwords
pub mod Reset
pub mod Expiry
pub mod Ended
pub mod AuthSteps
pub mod OtpOnce
pub mod SignedOut
pub mod Attempts

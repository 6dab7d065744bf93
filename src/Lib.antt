-- ===== src/Lib.antt =====
-- Tuljai Stays: the booking backend, modelled and verified. The program sells the rooms of lodges to
-- pilgrims. A guest puts a hold on a room type, pays online or asks to pay at the lodge, and the hold
-- becomes a booking; a booking gets a physical room when the owner accepts it, or at once when it is
-- paid; the guest checks in with a QR code.
--
-- Parts, with the code that they model, in backend/src/modules where the path is not from the root:
--   Store       the tables (backend/prisma/schema.prisma) as one record, newest row first, and the caller;
--               Store/Status the enumerations, Store/Rows the rows
--   Pricing     bookings/booking-pricing.ts: calculateStayPrice (Defs) and the sum over nights that it is
--               compared with (Reference)
--   Inventory   bookings/booking-availability.service.ts: getAvailability, findAvailableRoom, isRoomAvailable
--   Access      lodges/lodge-access.service.ts: isAdmin, assertCanManageLodge
--   Locks       bookings/booking-locks.service.ts: createLock, attachProviderOrder, releaseLock, expireLocks
--   Bookings    bookings/bookings.service.ts: createBooking (Create), resolveLockForPrepay and
--               createPrepaidBooking (Prepaid), acceptBooking and rejectBooking (Owner), cancelBooking,
--               updateBookingStatus, markCheckedIn, markCheckedOut, markCompleted and
--               expirePendingBookings (Lifecycle); bookings/booking-scheduler.service.ts: runExpiryCycle
--               (Scheduler); System is any sequence of such requests, of the payment
--               of a booking and of those of Qr
--   Payments    payments/payment-order-idempotency.ts: createIdempotentPaymentOrder (Order), its atomic
--               steps (OrderSteps), whole runs as such steps (OrderRuns);
--               payments/payments.service.ts: createPrepaidOrder, createPrepaidHold and
--               releasePrepaidHold (Checkout), createBookingOrder (BookingOrder),
--               preparePrepaidIntent and confirmPrepaidBooking (Confirm), verifyBookingPayment
--               (Verify), receiveWebhook and reconcileOrder (Reconcile), reconcilePending (Pending),
--               paymentStatus (Status); PaymentSteps is any sequence of those on intents that exist;
--               payments/providers/razorpay.provider.ts is the record of answers in Gateway
--   Auth        auth/auth.service.ts: requestOtp and verifyOtp (Otp), signInWithGoogle (Google), ownerLogin
--               and adminLogin (Passwords, Throttle), refreshToken and logout (Refresh),
--               ownerForgotPassword, ownerResetPassword and adminSetPassword (Reset), issueTokens and
--               saveDeviceToken (Tokens), on tables of their own (Rows); AuthSteps is any sequence of
--               them
--   Qr          bookings/qr-checkin.service.ts: generateQr, getQrMetadata (Issue), scanQr (Scan),
--               signQrDisplayPayload and verifyQrDisplayPayload (Payload)
--   Cash        bookings/cash-collection.ts: recordCashCollection
--   Pagination  packages/utils/src/pagination.ts: normalizePagination
--   Base        numbers, queries over lists, results; Tests  runs on concrete data
--
-- How they interact: a hold and each way to a booking ask Inventory, which asks Pricing for the
-- amount; Bookings turns holds into bookings; Payments calls Locks for a hold, the gateway for its
-- order, and Bookings when the order is paid; Qr and Cash change bookings that were accepted. An
-- operation takes the database and returns a result and the next database. One that reads before
-- its transaction takes two databases: `seen`, which may be out of date, and `current`, which its
-- transaction finds; `now` and `later` are the two times. A transaction that throws leaves
-- `current` as it was. Transactions that take lockInventory on one room type run one after the
-- other, so each is one step.
--
-- Conventions: identifiers, codes and texts that are only compared are numbers; a date is a number
-- of days and a time a number of milliseconds from one origin; money is in paise, and prices are
-- signed. The default cancellation reason and the currency INR are 0. What the code draws at random
-- is an argument (Fresh, FreshLock, FreshToken). `upload` is the answer of assertOwnedUpload,
-- `skipped` the rows that FOR UPDATE SKIP LOCKED passes over. Hashes, signatures and the answers of
-- the gateway and of the identity service are parameters. A request's date is absent where its text
-- is no date. The calls of the notification service are kept in a list, `notices`.
--
-- Bounds and fuel: generateBookingCode tries five codes, a loop counted down, and then takes the
-- timed one, so it always returns; the loops over prices and bookings are recursions on their
-- lists.
--
-- Not modelled: the unique index on the payment of an intent (each payment that is written is one
-- that the gateway reports for the intent's order), SQL triggers and the commission ledger,
-- projections for clients, the guest register, notifications' delivery, the clients, and the
-- administration of lodges, rooms and settings, which are separate services on tables of their own.
pub mod Base
pub mod Store
pub mod Pricing
pub mod Inventory
pub mod Access
pub mod Auth
pub mod Bookings
pub mod Locks
pub mod Payments
pub mod Qr
pub mod Cash
pub mod Pagination
pub mod Tests

-- ===== src/Server.antt =====
-- The server: the access to the database (server/persistence.c), and the handlers and the threads
-- (server/psd_ims_server.c).
pub mod Run
pub mod Digits
pub mod Strings
pub mod Persistence
pub mod Login
pub mod Handlers
pub mod Overruns
pub mod Fits
pub mod Reads
pub mod Gives
pub mod Safety
pub mod Waiting
pub mod Outcomes
pub mod Decimal
pub mod Threads

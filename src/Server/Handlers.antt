-- ===== src/Server/Handlers.antt =====
-- server/psd_ims_server.c: the handlers of the requests.
pub mod Account
pub mod Friendship
pub mod Membership
pub mod Messaging
pub mod Attachments

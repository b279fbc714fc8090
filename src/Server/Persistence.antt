-- ===== src/Server/Persistence.antt =====
-- server/persistence.c: each function of the access to the database.
pub mod Users
pub mod Friendship
pub mod ChatTable
pub mod MessageTable
pub mod Lists
pub mod Notifications

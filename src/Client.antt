-- ===== src/Client.antt =====
-- The client's own copy of what concerns its user: its collections (client/*.c on common/list.c) and
-- the session that fills them.
pub mod Common
pub mod Friends
pub mod Requests
pub mod Members
pub mod Messages
pub mod Chats
pub mod Network
pub mod Session

-- ===== src/Tests.antt =====
-- Runs on concrete data: of the list, of the client, and of the server.
mod Client
mod Session
mod Server
mod Threads
mod Ring
mod Account

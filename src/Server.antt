-- ===== src/Server.antt =====
-- server: how the parts are put together into a server.
pub mod Routes
pub mod Groups
pub mod Checks

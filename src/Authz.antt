-- ===== src/Authz.antt =====
-- authz/: the authorization decision and its enforcement.
pub mod Calls
pub mod Decide
pub mod Interceptor
pub mod Middleware

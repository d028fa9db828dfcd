-- ===== src/Authn.antt =====
-- authn: what a request presents as its identity, and how it becomes a principal.
pub mod Credentials
pub mod Authenticate
pub mod Interceptor
pub mod Session
pub mod ApiKey
pub mod Ticket
pub mod Jwt
pub mod Admin

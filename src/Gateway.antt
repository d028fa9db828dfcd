-- ===== src/Gateway.antt =====
-- gateway: the proxy between HTTP and gRPC, as far as it decides on headers and errors.
pub mod Headers
pub mod Errors

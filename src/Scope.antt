-- ===== src/Scope.antt =====
-- policy/scope/: the scope language of API keys, tokens such as `notes`, `notes:read` and `*`.
pub mod Token
pub mod Kind
pub mod Resource

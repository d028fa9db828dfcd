-- ===== src/Policy.antt =====
-- policy/: the declared policy of each operation, its validation and the table of operations.
pub mod Spec
pub mod Vocabulary
pub mod Registry
pub mod Kinds
pub mod Validate
pub mod Preset
pub mod OperationSet
pub mod Descriptors
pub mod Method
pub mod Names
pub mod Build
pub mod Format
pub mod Manifest

-- ===== src/Proto.antt =====
-- proto-file-reader/src: reading the service of a proto file.
pub mod Tokens
pub mod ParamType
pub mod SnakeCase
pub mod Service

-- ===== src/Channel/Requests.antt =====
-- The four request builders, one module for each of their files.
pub mod Retrying
pub mod Bounded
pub mod Leaving
pub mod Builder
pub mod BuilderWithRetries
pub mod BuilderWithInputStream
pub mod BuilderWithInputStreamWithRetries
pub mod Kinds

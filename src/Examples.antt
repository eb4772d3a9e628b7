-- ===== src/Examples.antt =====
-- The theorems at concrete inputs.
mod Fixtures
mod Channels
mod Sharing
mod Streams
mod Protos
mod Generated
mod Injected
mod Invoked
mod Served
mod Executed
mod Kinds
mod Filled

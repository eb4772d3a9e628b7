-- ===== src/Streams.antt =====
-- my-grpc-extensions/src: streams that a client reads, that a client sends, and that a server
-- sends.
pub mod Streaming
pub mod StreamedRequest
pub mod Reading
pub mod Methods
pub mod ServerStreams
pub mod Writer

-- ===== src/Macros.antt =====
-- my-grpc-client-macros and my-grpc-server-macros: what they generate for each method of a service.
pub mod Client
pub mod Server
pub mod WithTelemetry

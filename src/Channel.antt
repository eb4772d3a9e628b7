-- ===== src/Channel.antt =====
-- my-grpc-extensions/src/grpc_channel: the client side.
pub mod Env
pub mod ConnectUrl
pub mod State
pub mod Ssh
pub mod Attempts
pub mod PortForwards
pub mod Holder
pub mod Connecting
pub mod Creating
pub mod GrpcChannel
pub mod Pool
pub mod Executing
pub mod Requests
pub mod Sharing

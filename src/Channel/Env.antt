-- ===== src/Channel/Env.antt =====
-- What grpc_channel takes from other crates and from the program that uses it: tonic's transport
-- and statuses, the settings, SSH sessions. `World` is all that lies outside of the process.
use my_grpc_extensions.Prelude.{ℕ, Bool, Option, Bytes, Result, Timed}

-- grpc_channel_pool.rs: GrpcReadError
pub data GrpcReadError (Status TransportError : Type 0) : Type 0 where
  timeout : GrpcReadError Status TransportError
  transport_error : TransportError → GrpcReadError Status TransportError
  tonic_status : Status → GrpcReadError Status TransportError

-- grpc_channel_pool.rs: GrpcUrl
pub record GrpcUrl : Type 0 where
  pub url : Bytes
  pub host_metadata : Option Bytes

pub record Env : Type 1 where
  pub World : Type 0
  -- tonic::transport
  pub Channel : Type 0
  pub TransportError : Type 0
  pub from_shared_is_err : Bytes → Bool
  pub connect : Bytes → ℕ → World → Timed (Result Channel TransportError) × World
  pub uri_is_err : Bytes → Bool
  pub connect_unix : Bytes → ℕ → World → Timed (Result Channel TransportError) × World
  -- tonic::Status and tonic::Code
  pub Status : Type 0
  pub Code : Type 0
  pub code : Status → Code
  pub unknown : Code
  pub code_eq : Code → Code → Bool
  -- GrpcClientSettings::get_grpc_url, which the program implements; `none` is a panic in it
  pub get_grpc_url : Bytes → World → Option GrpcUrl × World
  -- rust_extensions::str_utils::starts_with_case_insensitive
  pub starts_with_case_insensitive : Bytes → Bytes → Bool
  -- my_ssh and rust_extensions::remote_endpoint
  pub Credentials : Type 0
  pub credentials_to_string : Credentials → Bytes
  pub get_host_port : Credentials → Bytes × ℕ
  pub get_user_name : Credentials → Bytes
  pub over_ssh : Bytes → Bytes × Option Credentials
  pub private_key : Bytes → ℕ → Bytes → Bytes → Option Bytes → Credentials
  pub Resolver : Type 0
  pub resolve_ssh_private_key : Resolver → Bytes → World → Option (Bytes × Option Bytes) × World
  pub Endpoint : Type 0
  pub try_parse : Bytes → Option Endpoint
  pub endpoint_as_str : Endpoint → Bytes
  pub get_host : Endpoint → Bytes
  pub get_port : Endpoint → Option ℕ
  pub port_to_string : ℕ → Bytes
  pub home : Option Bytes
  pub Session : Type 0
  pub session_credentials : Session → Credentials
  pub get_or_create_session : Credentials → World → Session × World
  pub Tunnel : Type 0
  pub start_tunnel : Session → Bytes → Bytes → ℕ → World → Option Tunnel × World

abbrev pub ReadError : Env → Type 0
ReadError env = GrpcReadError env.Status env.TransportError

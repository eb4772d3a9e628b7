-- ===== src/Channel/Sharing/Registry.antt =====
-- Which channels the transport has made, and which of its calls keep that.
use my_grpc_extensions.Prelude.{ℕ, ◌≡◌, Bytes, ok, finished}
use my_grpc_extensions.Channel.Env.{Env}
use my_grpc_extensions.Channel.GrpcChannel.{Executor}
use my_grpc_extensions.Channel.Sharing.Tasks.{Task, request, pinging}

-- What the tasks rely on: a connection gives a channel that was not there before, and nothing
-- makes a channel that was there go away.
pub record Registry (env : Env) : Type 1 where
  pub Made : env.World → env.Channel → Type 0
  pub connect-Fresh :
      (host : Bytes) (time : ℕ) (w : env.World) (channel : env.Channel)
      → (env.connect host time w).0 ≡ finished (ok channel)
      → (Made w channel → ⊥) × Made (env.connect host time w).1 channel
  pub connect-Made :
      (host : Bytes) (time : ℕ) (w : env.World) (channel : env.Channel)
      → Made w channel
      → Made (env.connect host time w).1 channel
  pub connect_unix-Fresh :
      (path : Bytes) (time : ℕ) (w : env.World) (channel : env.Channel)
      → (env.connect_unix path time w).0 ≡ finished (ok channel)
      → (Made w channel → ⊥) × Made (env.connect_unix path time w).1 channel
  pub connect_unix-Made :
      (path : Bytes) (time : ℕ) (w : env.World) (channel : env.Channel)
      → Made w channel
      → Made (env.connect_unix path time w).1 channel
  pub get_grpc_url-Made :
      (name : Bytes) (w : env.World) (channel : env.Channel)
      → Made w channel
      → Made (env.get_grpc_url name w).1 channel
  pub resolve_ssh_private_key-Made :
      (resolver : env.Resolver) (line : Bytes) (w : env.World) (channel : env.Channel)
      → Made w channel
      → Made (env.resolve_ssh_private_key resolver line w).1 channel
  pub get_or_create_session-Made :
      (credentials : env.Credentials) (w : env.World) (channel : env.Channel)
      → Made w channel
      → Made (env.get_or_create_session credentials w).1 channel
  pub start_tunnel-Made :
      (session : env.Session) (path host : Bytes) (port : ℕ) (w : env.World) (channel : env.Channel)
      → Made w channel
      → Made (env.start_tunnel session path host port w).1 channel

module _ (env : Env) {TService : Type 0} (registry : Registry env) where
  open registry use {Made}

  -- A request keeps the channels that there are.
  abbrev pub Keeps :
      {TRequest TResponse : Type 0} → Executor env TService TRequest TResponse → Type 0
  Keeps {TRequest} executor =
      (service : TService) (input_data : TRequest) (time : ℕ) (w : env.World)
      (channel : env.Channel)
      → Made w channel
      → Made (executor service input_data time w).1 channel

  -- What a task calls itself keeps the channels that there are: its request or its ping.
  abbrev pub Careful : Task env TService → Type 0
  Careful (request TRequest TResponse self executor) = Keeps executor
  Careful (pinging pool) =
      (service : TService) (w : env.World) (channel : env.Channel)
      → Made w channel
      → Made (pool.ping service pool.ping_timeout w).1 channel

-- ===== src/Channel/GrpcChannel.antt =====
-- grpc_channel/grpc_channel.rs: GrpcChannel. The four executor traits are functions from the
-- service, the request and the timeout to what the call gives within that time.
use mathlib.Core.Option
use my_grpc_extensions.Prelude.{
  ℕ, Bool, true, false, Option, none, some, Bytes, Result, ok, err, returned, failed, Timed,
  elapsed, finished, and_then, if◌then◌else◌, panicked,
}
use my_grpc_extensions.Channel.Env.{GrpcUrl, Env, timeout, transport_error, tonic_status, ReadError}
use my_grpc_extensions.Channel.ConnectUrl.{GrpcConnectUrl, into_connect_url}
use my_grpc_extensions.Channel.State.{State, Returns}
use my_grpc_extensions.Streams.Streaming.{Streaming}
use my_grpc_extensions.Channel.Holder.{get_held, drop_channel, create_channel}

-- The holder, the settings and the SSH target are the state and the environment; `with_tls` is
-- the feature, and `create_service` has its telemetry context.
pub record GrpcChannel (env : Env) (TService : Type 0) : Type 0 where
  pub request_timeout : ℕ
  pub service_name : Bytes
  pub create_service : env.Channel → TService
  pub with_tls : Bool

-- the four traits `...GrpcExecutor`, under `tokio::time::timeout`; `none` is a panic in them
abbrev pub Executor : (env : Env) → Type 0 → Type 0 → Type 0 → Type 0
Executor env TService TRequest TResponse =
    TService → TRequest → ℕ → env.World → Option (Timed (Result TResponse env.Status)) × env.World

module _ (env : Env) where
  open env use {Channel, Status}

  -- `none` is a panic
  unfoldable pub get_connect_url :
      Bytes → State env → Option (GrpcConnectUrl env.Credentials) × State env
  get_connect_url service_name s =
      let (settings, w) = env.get_grpc_url service_name s.world in
      (
        Option.map (λ (settings : GrpcUrl). into_connect_url env settings.url) settings,
        record s { world = w },
      )

  unfoldable pub drop_dead_channel : State env → State env
  drop_dead_channel s = drop_channel env s

  unfoldable pub needs_drop : ReadError env → Bool
  needs_drop timeout = false
  needs_drop (transport_error e) = false
  needs_drop (tonic_status status) =
      if env.code_eq (env.code status) env.unknown then true else false

  unfoldable pub drop_channel_if_needed : ReadError env → State env → Bool × State env
  unfolding needs_drop
  drop_channel_if_needed e s =
      let remove = needs_drop e in (remove, if remove then drop_dead_channel s else s)

  module _ {TService : Type 0} (self : GrpcChannel env TService) where
    unfoldable pub create_at :
        Option (GrpcConnectUrl env.Credentials) → State env → Returns env Channel
    create_at none s = (panicked, s)
    create_at (some connect_url) s =
        create_channel env self.with_tls connect_url self.service_name self.request_timeout s

    unfoldable pub connect_anew : State env → Returns env Channel
    unfolding create_at
    connect_anew s =
        let (connect_url, s') = get_connect_url self.service_name s in create_at connect_url s'

    unfoldable pub channel_or_new : Option Channel → State env → Returns env Channel
    unfolding connect_anew
    channel_or_new none s = connect_anew s
    channel_or_new (some channel) s = (returned channel, s)

    unfoldable pub get_channel : State env → Returns env Channel
    unfolding channel_or_new
    get_channel s = channel_or_new (get_held env s) s

    unfoldable pub get_service : State env → Returns env TService
    get_service s =
        and_then (get_channel s) (λ channel t. (returned (self.create_service channel), t))

    -- the end of each `execute...`, from the `result` of the timeout on
    unfoldable pub settle :
        {TResponse : Type 0}
        → Option (Timed (Result TResponse Status))
        → State env
        → Returns env TResponse
    settle none s = (panicked, s)
    settle (some elapsed) s = (failed timeout, drop_dead_channel s)
    settle (some (finished (ok response))) s = (returned response, s)
    settle (some (finished (err status))) s =
        let (_, t) = drop_channel_if_needed (tonic_status status) s in
        (failed (tonic_status status), t)

    module _ {TRequest TResponse : Type 0} where
      unfoldable pub call_service :
          Executor env TService TRequest TResponse
          → TRequest
          → TService
          → State env
          → Returns env TResponse
      call_service executor request service s =
          let (result, w) = executor service request self.request_timeout s.world in
          settle result (record s { world = w })

    module _ {TRequest TResponse : Type 0} where
      unfoldable pub execute :
          TRequest → Executor env TService TRequest TResponse → State env → Returns env TResponse
      execute request_data grpc_executor s =
          and_then (get_service s) (call_service grpc_executor request_data)

      unfoldable pub execute_with_response_as_stream :
          TRequest
          → Executor env TService TRequest (Streaming Status TResponse)
          → State env
          → Returns env (Streaming Status TResponse)
      execute_with_response_as_stream request_data grpc_executor s =
          and_then (get_service s) (call_service grpc_executor request_data)

      unfoldable pub execute_input_as_stream :
          TRequest → Executor env TService TRequest TResponse → State env → Returns env TResponse
      execute_input_as_stream request_data grpc_executor s =
          and_then (get_service s) (call_service grpc_executor request_data)

      unfoldable pub execute_input_as_stream_response_as_stream :
          TRequest
          → Executor env TService TRequest (Streaming Status TResponse)
          → State env
          → Returns env (Streaming Status TResponse)
      execute_input_as_stream_response_as_stream request_data grpc_executor s =
          and_then (get_service s) (call_service grpc_executor request_data)

-- ===== src/Macros/Client/Serving/Heading.antt =====
-- What the generated `execute` sends, and what one request by it comes to.
use my_grpc_extensions.Prelude.{
  ℕ, ◌≡◌, refl, ap, ◌∙◌, fun_ext, List, [], ◌∷◌, Option, Option-cases, none, some, Bytes, panicked,
  codes, Result, Timed, inl, inr,
}
use mathlib.Core.Option
use my_grpc_extensions.Channel.Env.{Env, GrpcUrl}
use my_grpc_extensions.Channel.State.{State, Returns}
use my_grpc_extensions.Channel.Holder.{get_held}
use my_grpc_extensions.Channel.Ssh.{insert}
use my_grpc_extensions.Channel.GrpcChannel.{
  GrpcChannel, Executor, channel_or_new, get_channel, get_service, settle, call_service, execute,
}
use my_grpc_extensions.Channel.Pool.{GrpcChannelPool, get_pooled}
use my_grpc_extensions.Macros.Client.Serving.{
  ServiceCall, insert_host, request_for, send_request, generated_execute,
}

abbrev pub Metadata : Type 0
Metadata = List (Bytes × Bytes)

-- the metadata for a host in the settings, if its text can be a header's value
abbrev header_of : (Bytes → Option Bytes) → Option Bytes → Option Metadata
header_of from_str none = some []
header_of from_str (some host) = Option.map (λ value. (codes "host", value) ∷ []) (from_str host)

-- none without settings, that is when `get_grpc_url` panics
abbrev pub host_header : (Bytes → Option Bytes) → Option GrpcUrl → Option Metadata
host_header from_str none = none
host_header from_str (some settings) = header_of from_str settings.host_metadata

module _ (env : Env) {TService : Type 0} (pool : GrpcChannelPool env TService) (s : State env) where
  -- the settings as the generated `execute` reads them, and the state behind that
  abbrev pub settings : Option GrpcUrl
  settings = (env.get_grpc_url pool.service_name s.world).0

  abbrev pub asked : State env
  asked = record s { world = (env.get_grpc_url pool.service_name s.world).1 }

module _ (env : Env) {TService TRequest TResponse : Type 0} (pool : GrpcChannelPool env TService)
    (from_str : Bytes → Option Bytes) (call : ServiceCall env TService TRequest TResponse)
    (input_data : TRequest) where
  abbrev pub executor : Executor env TService TRequest TResponse
  executor = generated_execute env from_str pool.service_name call

  abbrev pub self : GrpcChannel env TService
  self = (get_pooled env pool).0

  -- the call with the metadata beside its input, or a panic without them
  abbrev pub send_with :
      Option Metadata
      → TService
      → TRequest
      → ℕ
      → env.World
      → Option (Timed (Result TResponse env.Status)) × env.World
  send_with none service input time w = (none, w)
  send_with (some metadata) service input time w =
      let (result, w') = call service (record { message = input; metadata = metadata }) time w in
      (some result, w')

  -- What a call is to be, whenever it is made: it sends the metadata for the host that the settings
  -- name then.
  abbrev pub sending : Executor env TService TRequest TResponse
  sending service input time w =
      let (named, w') = env.get_grpc_url pool.service_name w in
      send_with (host_header from_str named) service input time w'

  send_with-insert_host :
      (o : Option Bytes) (service : TService) (input : TRequest) (time : ℕ) (w : env.World)
      → send_request env call service time
          (insert_host from_str o (record { message = input; metadata = [] }))
          w
        ≡ send_with (header_of from_str o) service input time w
  unfolding send_request insert_host insert
  send_with-insert_host none service input time w = refl
  send_with-insert_host (some name) service input time w = elim (Option-cases (from_str name)) [
    | inl e ↦ rw e refl
    | inr (value, e) ↦ rw e refl
  ]

  send_with-request_for :
      (o : Option GrpcUrl) (service : TService) (input : TRequest) (time : ℕ) (w : env.World)
      → send_request env call service time
          (request_for from_str o (record { message = input; metadata = [] }))
          w
        ≡ send_with (host_header from_str o) service input time w
  unfolding send_request request_for
  send_with-request_for none service input time w = refl
  send_with-request_for (some named) service input time w =
      send_with-insert_host named.host_metadata service input time w

  pub executor_sends : executor ≡ sending
  unfolding generated_execute
  executor_sends = fun_ext λ service. fun_ext λ input. fun_ext λ time.
      fun_ext
        λ w. send_with-request_for (env.get_grpc_url pool.service_name w).0 service input time _

  -- the outcome of one call on a channel
  abbrev pub outcome_with : env.Channel → State env → Option Metadata → Returns env TResponse
  outcome_with channel s none = (panicked, asked env pool s)
  outcome_with channel s (some metadata) =
      let (result, w) =
        call (pool.create_service channel) (record { message = input_data; metadata = metadata })
          pool.request_timeout (asked env pool s).world in
      settle env self (some result) (record s { world = w })

  settled :
      (channel : env.Channel) (s : State env) (o : Option Metadata)
      → (let (result, w) =
            send_with o
              (pool.create_service channel)
              input_data
              pool.request_timeout
              (asked env pool s).world in
          settle env self result (record s { world = w }) ≡ outcome_with channel s o)
  unfolding settle
  settled channel s none = refl
  settled channel s (some metadata) = refl

  found :
      (channel : env.Channel) (s : State env)
      → get_held env s ≡ some channel
      → execute env self input_data sending s
        ≡ outcome_with channel s (host_header from_str (settings env pool s))
  unfolding execute get_service get_channel channel_or_new call_service get_pooled
  found channel s held = rw held (settled channel s (host_header from_str (settings env pool s)))

  pub execute-held :
      (channel : env.Channel) (s : State env)
      → get_held env s ≡ some channel
      → execute env self input_data executor s
        ≡ outcome_with channel s (host_header from_str (settings env pool s))
  execute-held channel s held =
      ap (λ x. execute env self input_data x s) executor_sends ∙ found channel s held

-- ===== src/Macros/Client/Serving.antt =====
-- generate_interfaces_implementations.rs: what the body of a generated `execute` does.
pub mod Heading
pub mod Sending
use my_grpc_extensions.Prelude.{ℕ, List, [], Option, none, some, Bytes, Result, Timed, codes}
use mathlib.Core.Option
use my_grpc_extensions.Channel.Env.{Env, GrpcUrl}
use my_grpc_extensions.Channel.Ssh.{insert}
use my_grpc_extensions.Channel.GrpcChannel.{Executor}

-- tonic::Request, with its metadata
pub record Request (TRequest : Type 0) : Type 0 where
  pub message : TRequest
  pub metadata : List (Bytes × Bytes)

-- `from_str` is MetadataValue::from_str; `none` is the panic of its `unwrap`
unfoldable pub insert_host :
    {TRequest : Type 0}
    → (Bytes → Option Bytes)
    → Option Bytes
    → Request TRequest
    → Option (Request TRequest)
insert_host from_str none request = some request
insert_host from_str (some host_metadata) request =
    Option.map
      (λ meta_data. record request { metadata = insert (codes "host") meta_data request.metadata })
      (from_str host_metadata)

-- the request with what the settings say; without them `get_grpc_url` has panicked
unfoldable pub request_for :
    {TRequest : Type 0}
    → (Bytes → Option Bytes)
    → Option GrpcUrl
    → Request TRequest
    → Option (Request TRequest)
unfolding insert_host
request_for from_str none request = none
request_for from_str (some settings) request = insert_host from_str settings.host_metadata request

-- `service.#fn_name(request).await`, within a time
abbrev pub ServiceCall : Env → Type 0 → Type 0 → Type 0 → Type 0
ServiceCall env TService TRequest TResponse =
    TService
    → Request TRequest
    → ℕ
    → Env.World env
    → Timed (Result TResponse (Env.Status env)) × Env.World env

module _ (env : Env) {TService TRequest TResponse : Type 0} where
  open env use {World, Status}

  unfoldable pub send_request :
      ServiceCall env TService TRequest TResponse
      → TService
      → ℕ
      → Option (Request TRequest)
      → World
      → Option (Timed (Result TResponse Status)) × World
  send_request call service time none w = (none, w)
  send_request call service time (some request) w =
      let (result, w') = call service request time w in (some result, w')

  -- `execute`: `none` is a panic in it
  unfoldable pub generated_execute :
      (Bytes → Option Bytes)
      → Bytes
      → ServiceCall env TService TRequest TResponse
      → Executor env TService TRequest TResponse
  unfolding request_for send_request
  generated_execute from_str service_name call service input_data time w =
      let (settings, w') = env.get_grpc_url service_name w in
      send_request call service time
        (request_for from_str settings (record { message = input_data; metadata = [] })) w'

-- ===== src/Macros/Client/Factory.antt =====
-- grpc_client/generate.rs: what the code of a generated client does that is the same for every
-- service: its `new`, and the `ping` of its factory.
use my_grpc_extensions.Prelude.{
  ℕ, Bool, Option, none, some, Result, ok, err, Timed, elapsed, finished,
}
use my_grpc_extensions.Channel.Env.{Env}
use my_grpc_extensions.Channel.Pool.{GrpcChannelPool, new_pool}
use my_grpc_extensions.Macros.Client.Generated.{ClientParams, settings_service_name}

module _ (env : Env) where
  open env use {Channel, World, Status}

  -- `none` is the panic on an error
  unfoldable pub ping_answer :
      Timed (Result (Unit {0}) Status) × World → Option (Timed (Unit {0})) × World
  ping_answer (elapsed, w) = (some elapsed, w)
  ping_answer (finished (ok u), w) = (some (finished tt), w)
  ping_answer (finished (err status), w) = (none, w)

  module _ {TService : Type 0} where
    -- `call` is the method `ping` of the service that tonic generates
    unfoldable pub factory_ping :
        (TService → ℕ → World → Timed (Result (Unit {0}) Status) × World)
        → TService
        → ℕ
        → World
        → Option (Timed (Unit {0})) × World
    unfolding ping_answer
    factory_ping call service ping_timeout w = ping_answer (call service ping_timeout w)

    -- the `channel` of the struct; `create_service` is what the factory's text makes
    unfoldable pub new_client :
        ClientParams
        → (Channel → TService)
        → (TService → ℕ → World → Timed (Result (Unit {0}) Status) × World)
        → Bool
        → GrpcChannelPool env TService
    unfolding factory_ping
    new_client params create_service call with_tls =
        new_pool create_service (settings_service_name params.service_name params.struct_name)
          (factory_ping call) params.request_timeout_sec params.ping_timeout_sec with_tls

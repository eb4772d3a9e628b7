-- ===== src/Channel/Pool.antt =====
-- grpc_channel/grpc_channel_pool.rs: GrpcChannelPool and its ping task. Log lines and the sleep
-- between two rounds are left out.
pub mod Pinging
use my_grpc_extensions.Prelude.{
  ℕ, Bool, true, false, Option, none, some, Bytes, returned, failed, panicked, out_of_fuel, Timed,
  elapsed, finished, and_then, List, [], ◌∷◌, if◌then◌else◌,
}
use my_grpc_extensions.Channel.Env.{Env, GrpcUrl}
use my_grpc_extensions.Channel.ConnectUrl.{into_connect_url}
use my_grpc_extensions.Channel.State.{State, Returns}
use my_grpc_extensions.Channel.Holder.{get_held, drop_channel, create_channel}
use my_grpc_extensions.Channel.GrpcChannel.{GrpcChannel}

pub data PingResult : Type 0 where
  ping_ok ping_timed_out : PingResult

-- The factory of the service is `service_name`, `create_service` and `ping`, which is given the
-- timeout that it stands under; `none` is a panic in it. The holder and the settings are the state
-- and the environment, and `with_tls` is the feature.
pub record GrpcChannelPool (env : Env) (TService : Type 0) : Type 0 where
  pub request_timeout : ℕ
  pub ping_timeout : ℕ
  pub service_name : Bytes
  pub create_service : env.Channel → TService
  pub ping : TService → ℕ → env.World → Option (Timed (Unit {0})) × env.World
  pub with_tls : Bool
  pub enable_ping : Bool

-- GrpcChannelPool::new, up to the spawn of its ping task; the three parts of the service factory are
-- its arguments
unfoldable pub new_pool :
    {env : Env} {TService : Type 0}
    → (env.Channel → TService)
    → Bytes
    → (TService → ℕ → env.World → Option (Timed (Unit {0})) × env.World)
    → ℕ
    → ℕ
    → Bool
    → GrpcChannelPool env TService
new_pool create_service get_service_name ping request_timeout ping_timeout with_tls = record {
  request_timeout = request_timeout;
  ping_timeout = ping_timeout;
  service_name = get_service_name;
  create_service = create_service;
  ping = ping;
  with_tls = with_tls;
  enable_ping = false;
}

-- the end of a `tokio::spawn(execute_ping_with_timeout(...))`: `none` is a JoinError
unfoldable pub ping_result : Option (Timed (Unit {0})) → Option PingResult
ping_result none = none
ping_result (some elapsed) = some ping_timed_out
ping_result (some (finished u)) = some ping_ok

module _ (env : Env) where
  open env use {Channel, World}

  -- the `match result` of the loop
  unfoldable pub settle_ping : Option PingResult → State env → State env
  settle_ping (some ping_ok) s = s
  settle_ping (some ping_timed_out) s = drop_channel env s
  settle_ping none s = drop_channel env s

  -- the log line of a failed connection, which asks for the address again
  unfoldable pub reported : Option GrpcUrl → State env → Returns env (Unit {0})
  reported none s = (panicked, s)
  reported (some grpc_url) s = (returned tt, s)

  module _ {TService : Type 0} (self : GrpcChannelPool env TService) where
    -- GrpcChannelPool::get_channel; pings are enabled from then on
    unfoldable pub get_pooled : GrpcChannel env TService × GrpcChannelPool env TService
    get_pooled = (
      record {
        request_timeout = self.request_timeout;
        service_name = self.service_name;
        create_service = self.create_service;
        with_tls = self.with_tls;
      },
      record self { enable_ping = true },
    )

    unfoldable pub created : Option GrpcUrl → State env → Returns env Channel
    created none s = (panicked, s)
    created (some grpc_url) s =
        create_channel env self.with_tls (into_connect_url env grpc_url.url) self.service_name
          self.request_timeout s

    unfoldable pub held_or_created : Option Channel → State env → Returns env Channel
    unfolding created
    held_or_created (some channel) s = (returned channel, s)
    held_or_created none s =
        let (grpc_url, w) = env.get_grpc_url self.service_name s.world in
        created grpc_url (record s { world = w })

    unfoldable pub get_or_create_channel : State env → Returns env Channel
    unfolding held_or_created
    get_or_create_channel s = held_or_created (get_held env s) s

    unfoldable pub execute_ping_with_timeout : TService → World → Option PingResult × World
    unfolding ping_result
    execute_ping_with_timeout service w =
        let (result, w') = self.ping service self.ping_timeout w in (ping_result result, w')

    unfoldable pub ping_channel : Returns env Channel → Returns env (Unit {0})
    unfolding execute_ping_with_timeout settle_ping reported
    ping_channel (returned channel, s) =
        let (result, w) = execute_ping_with_timeout (self.create_service channel) s.world in
        (returned tt, settle_ping result (record s { world = w }))
    ping_channel (failed e, s) =
        let (grpc_url, w) = env.get_grpc_url self.service_name s.world in
        reported grpc_url (record s { world = w })
    ping_channel (panicked, s) = (panicked, s)
    ping_channel (out_of_fuel, s) = (out_of_fuel, s)

    -- one round of the loop, up to the sleep
    unfoldable pub ping_round : State env → Returns env (Unit {0})
    unfolding ping_channel get_or_create_channel
    ping_round s =
        if self.enable_ping then ping_channel (get_or_create_channel s) else (returned tt, s)

    -- As many rounds as the list is long; its functions are what other calls do to the state
    -- while the task sleeps.
    unfoldable pub ping_loop : List (State env → State env) → State env → Returns env (Unit {0})
    unfolding ping_round
    ping_loop [] s = (returned tt, s)
    ping_loop (meanwhile ∷ rest) s = and_then (ping_round s) (λ u t. ping_loop rest (meanwhile t))

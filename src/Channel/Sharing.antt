-- ===== src/Channel/Sharing.antt =====
-- Requests with retries that share one holder: GrpcChannel::execute of grpc_channel.rs and the
-- loops of request_builder_with_retries.rs and grpc_channel_holder.rs, cut where the lock of the
-- holder is taken. Between two steps of a caller any other caller may take steps of its own.
pub mod Pinger
pub mod Tasks
pub mod Fetching
pub mod Meaning
pub mod Turns
pub mod Ending
pub mod Bounds
pub mod Steps
pub mod Alone
pub mod Rest
pub mod Round
pub mod Whole
pub mod Coming
pub mod Resting
pub mod Ranking
pub mod Progress
pub mod Registry
pub mod Opening
pub mod Books
pub mod Booking
pub mod Booked
pub mod Stepping
pub mod Accounts
pub mod Failing
pub mod Retired
use my_grpc_extensions.Prelude.{
  ℕ, ◌+◌, Option, none, some, Bytes, Result, ok, err, Outcome, returned, failed, panicked,
  out_of_fuel, Timed, elapsed, finished, leb, ltb, if◌then◌else◌,
}
use my_grpc_extensions.Channel.Env.{Env, timeout, transport_error, tonic_status, ReadError}
use my_grpc_extensions.Channel.ConnectUrl.{GrpcConnectUrl, tcp, unix_socket, get_grpc_host}
use my_grpc_extensions.Channel.State.{State, Returns}
use my_grpc_extensions.Channel.Ssh.{get_ssh_session, generate_unix_socket_file, start_port_forward}
use my_grpc_extensions.Channel.Holder.{
  set_channel, get_held, drop_channel, Connecting, try_unix_socket, try_tcp,
}
use my_grpc_extensions.Channel.GrpcChannel.{Executor, needs_drop, get_connect_url}
use my_grpc_extensions.Channel.Requests.BuilderWithRetries.{RequestBuilderWithRetries}

-- What a connection loop connects to.
pub data Route (Credentials : Type 0) : Type 0 where
  unix_route : Bytes → Route Credentials
  tcp_route : GrpcConnectUrl Credentials → Route Credentials

-- Where a caller stands, with the variables that are live there: the attempt's number first.
pub data Caller (env : Env) (TResponse : Type 0) : Type 0 where
  getting : ℕ → Caller env TResponse  -- before `grpc_channel_holder.get()`
  routing : ℕ → Caller env TResponse  -- past it, with no channel
  resolved : ℕ → GrpcConnectUrl env.Credentials → Caller env TResponse  -- at `create_channel`
  -- before the lock of PORT_FORWARDS_POOL, with the unix socket's name
  forwarding : ℕ → Bytes → env.Session → env.Endpoint → Caller env TResponse
  connecting : ℕ → Route env.Credentials → ℕ → Caller env TResponse  -- in a connection loop
  storing : ℕ → Bytes → env.Channel → Caller env TResponse  -- before `self.set(...)`
  calling : ℕ → env.Channel → Caller env TResponse  -- before the executor
  dropping : ℕ → env.Channel → ReadError env → Caller env TResponse  -- before `drop_channel`
  failing : ℕ → ReadError env → Caller env TResponse  -- at the `Err` of the retry loop
  done : Outcome TResponse (ReadError env) → Caller env TResponse

module _ (env : Env) where
  open env use {Channel, Credentials, Endpoint}

  unfoldable pub route_host : Route Credentials → Bytes
  route_host (unix_route raw) = raw
  route_host (tcp_route url) = get_grpc_host env url

  module _ {TService TRequest TResponse : Type 0}
      (self : RequestBuilderWithRetries env TService TRequest)
      (executor : Executor env TService TRequest TResponse) where
    unfoldable pub try_route : Route Credentials → State env → Connecting env
    try_route (unix_route raw) = try_unix_socket env raw self.channel.request_timeout
    try_route (tcp_route url) = try_tcp env self.channel.with_tls url self.channel.request_timeout

    -- the end of a lookup: the channel in the holder, or a new one
    unfoldable pub got : ℕ → Option Channel → Caller env TResponse
    got n (some channel) = calling n channel
    got n none = routing n

    -- the address that the settings gave
    unfoldable pub addressed : ℕ → Option (GrpcConnectUrl Credentials) → Caller env TResponse
    addressed n none = done panicked
    addressed n (some url) = resolved n url

    -- `create_channel` over SSH, up to the port forward
    unfoldable pub route_over_ssh :
        ℕ → Credentials → Option Endpoint → State env → Caller env TResponse × State env
    route_over_ssh n credentials none s = (done panicked, s)
    route_over_ssh n credentials (some endpoint) s =
        let name = generate_unix_socket_file env credentials endpoint in
        let (session, s') = get_ssh_session env credentials s in
        (forwarding n name session endpoint, s')

    -- `create_channel` up to its loop or its port forward
    unfoldable pub routed :
        ℕ → GrpcConnectUrl Credentials → State env → Caller env TResponse × State env
    unfolding route_over_ssh
    routed n (unix_socket raw) s = (connecting n (unix_route raw) 0, s)
    routed n (tcp raw remote none) s = (connecting n (tcp_route (tcp raw remote none)) 0, s)
    routed n (tcp raw remote (some credentials)) s =
        route_over_ssh n credentials (env.try_parse remote) s

    unfoldable pub forwarded : ℕ → Bytes → Returns env (Unit {0}) → Caller env TResponse × State env
    forwarded n name (returned u, s) = (connecting n (unix_route name) 0, s)
    forwarded n name (failed e, s) = (failing n e, s)
    forwarded n name (panicked, s) = (done panicked, s)
    forwarded n name (out_of_fuel, s) = (done out_of_fuel, s)

    -- the `match` of a connection loop
    unfoldable pub attempted :
        ℕ
        → Route Credentials
        → ℕ
        → Option (Timed (Result Channel env.TransportError))
        → Caller env TResponse
    attempted n route round none = done panicked
    attempted n route round (some (finished (ok channel))) = storing n (route_host route) channel
    attempted n route round (some (finished (err e))) =
        if ltb 3 round then failing n (transport_error e) else connecting n route (round + 1)
    attempted n route round (some elapsed) =
        if ltb 3 round then failing n timeout else connecting n route (round + 1)

    -- the `match` of `execute`
    unfoldable pub answered :
        ℕ → Channel → Option (Timed (Result TResponse env.Status)) → Caller env TResponse
    answered n channel none = done panicked
    answered n channel (some elapsed) = dropping n channel timeout
    answered n channel (some (finished (ok response))) = done (returned response)
    answered n channel (some (finished (err status))) =
        if needs_drop env (tonic_status status)
        then dropping n channel (tonic_status status)
        else failing n (tonic_status status)

    -- one step of a caller
    unfoldable pub advance : Caller env TResponse → State env → Caller env TResponse × State env
    unfolding got addressed routed forwarded attempted answered
    advance (getting n) s = (got n (get_held env s), s)
    advance (routing n) s =
        let (url, s') = get_connect_url env self.channel.service_name s in (addressed n url, s')
    advance (resolved n url) s = routed n url s
    advance (forwarding n name session endpoint) s =
        forwarded n name (start_port_forward env session name endpoint s)
    advance (connecting n route round) s =
        let (result, s') = try_route route s in (attempted n route round result, s')
    advance (storing n host channel) s =
        (calling n channel, set_channel env self.channel.service_name host channel s)
    advance (calling n channel) s =
        let (result, w) =
          executor (self.channel.create_service channel) self.input_contract
            self.channel.request_timeout s.world in
        (answered n channel result, record s { world = w })
    advance (dropping n channel e) s = (failing n e, drop_channel env s)
    advance (failing n e) s =
        if leb self.max_attempts_amount (n + 1) then (done (failed e), s) else (getting (n + 1), s)
    advance (done result) s = (done result, s)

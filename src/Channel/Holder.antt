-- ===== src/Channel/Holder.antt =====
-- grpc_channel/grpc_channel_holder.rs: GrpcChannelHolder. Log lines are left out.
use my_grpc_extensions.Prelude.{
  ℕ, zero, suc, ◌+◌, Bool, ◌&&◌, Option, none, some, Bytes, Result, ok, err, returned, failed,
  panicked, out_of_fuel, Timed, elapsed, finished, and_then, ltb, if◌then◌else◌,
}
use my_grpc_extensions.Channel.Env.{Env, timeout, transport_error}
use my_grpc_extensions.Channel.ConnectUrl.{
  GrpcConnectUrl, get_grpc_host, get_ssh_credentials, is_grpc_tls_endpoint, is_unix_socket,
}
use my_grpc_extensions.Channel.State.{ChannelData, State, Returns}
use my_grpc_extensions.Channel.Ssh.{get_ssh_session, generate_unix_socket_file, start_port_forward}

module _ (env : Env) where
  open env use {Channel, TransportError, Credentials, Endpoint}

  -- GrpcChannelHolder::set
  unfoldable pub set_channel : Bytes → Bytes → Channel → State env → State env
  set_channel service_name host channel s = record s {
    holder = some (record { channel = channel; host = host; service_name = service_name });
  }

  held : Option (ChannelData Channel) → Option Channel
  held none = none
  held (some d) = some d.channel

  -- GrpcChannelHolder::get
  unfoldable pub get_held : State env → Option Channel
  unfolding held
  get_held s = held s.holder

  -- GrpcChannelHolder::drop_channel: `take`
  unfoldable pub drop_channel : State env → State env
  drop_channel s = record s { holder = none }

  -- One round of a connection loop up to its `match`: `none` is a panic.
  abbrev pub Connecting : Type 0
  Connecting = Option (Timed (Result Channel TransportError)) × State env

  -- create_unix_socket_channel under the timeout
  unfoldable pub try_unix_socket : Bytes → ℕ → State env → Connecting
  try_unix_socket connect_url request_timeout s =
      if env.uri_is_err connect_url
      then (none, s)
      else let (result, w) = env.connect_unix connect_url request_timeout s.world in
        (some result, record s { world = w })

  -- a round of the loop of create_channel, up to its `match`
  unfoldable pub try_tcp : Bool → GrpcConnectUrl Credentials → ℕ → State env → Connecting
  try_tcp with_tls connect_url request_timeout s =
      if env.from_shared_is_err (get_grpc_host env connect_url)
      then (none, s)
      else if with_tls && is_grpc_tls_endpoint env connect_url
      then (none, s)
      else let (result, w) = env.connect (get_grpc_host env connect_url) request_timeout s.world in
        (some result, record s { world = w })

  -- the `match` of both loops; `again` is the next round
  unfoldable pub after_attempt :
      Bytes → Bytes → ℕ → Connecting → (State env → Returns env Channel) → Returns env Channel
  after_attempt service_name host attempt_no (none, s) again = (panicked, s)
  after_attempt service_name host attempt_no (some (finished (ok channel)), s) again =
      (returned channel, set_channel service_name host channel s)
  after_attempt service_name host attempt_no (some (finished (err e)), s) again =
      if ltb 3 attempt_no then (failed (transport_error e), s) else again s
  after_attempt service_name host attempt_no (some elapsed, s) again =
      if ltb 3 attempt_no then (failed timeout, s) else again s

  unfoldable pub connect_loop :
      Bytes → Bytes → (State env → Connecting) → ℕ → ℕ → State env → Returns env Channel
  connect_loop service_name host try_connect zero attempt_no s = (out_of_fuel, s)
  connect_loop service_name host try_connect (suc fuel) attempt_no s =
      after_attempt service_name host attempt_no (try_connect s)
        (connect_loop service_name host try_connect fuel (attempt_no + 1))

  -- Five rounds: attempt_no is 0 to 4.
  abbrev pub connect_fuel : ℕ
  connect_fuel = 5

  unfoldable pub connect_to_unix_socket : Bytes → Bytes → ℕ → State env → Returns env Channel
  connect_to_unix_socket connect_url service_name request_timeout =
      connect_loop service_name connect_url (try_unix_socket connect_url request_timeout)
        connect_fuel 0

  unfoldable pub connect_tcp :
      Bool → GrpcConnectUrl Credentials → Bytes → ℕ → State env → Returns env Channel
  connect_tcp with_tls connect_url service_name request_timeout =
      connect_loop service_name (get_grpc_host env connect_url)
        (try_tcp with_tls connect_url request_timeout) connect_fuel 0

  -- the block of `create_channel` under `with-ssh`, past the parse of the endpoint
  unfoldable pub connect_over_ssh :
      Credentials → Option Endpoint → Bytes → ℕ → State env → Returns env Channel
  connect_over_ssh credentials none service_name request_timeout s = (panicked, s)
  connect_over_ssh credentials (some endpoint) service_name request_timeout s =
      let unix_socket_name = generate_unix_socket_file env credentials endpoint in
      let (session, s') = get_ssh_session env credentials s in
      and_then (start_port_forward env session unix_socket_name endpoint s')
        (λ _. connect_to_unix_socket unix_socket_name service_name request_timeout)

  unfoldable pub ssh_or_tcp :
      Bool
      → GrpcConnectUrl Credentials
      → Bytes
      → ℕ
      → Option Credentials
      → State env
      → Returns env Channel
  unfolding connect_over_ssh connect_tcp
  ssh_or_tcp with_tls url service_name request_timeout none =
      connect_tcp with_tls url service_name request_timeout
  ssh_or_tcp with_tls url service_name request_timeout (some credentials) =
      connect_over_ssh credentials (env.try_parse (get_grpc_host env url)) service_name
        request_timeout

  -- GrpcChannelHolder::create_channel; `with_tls` is the feature
  unfoldable pub create_channel :
      Bool → GrpcConnectUrl Credentials → Bytes → ℕ → State env → Returns env Channel
  unfolding ssh_or_tcp
  create_channel with_tls connect_url service_name request_timeout s =
      if is_unix_socket env connect_url
      then connect_to_unix_socket (get_grpc_host env connect_url) service_name request_timeout s
      else and_then (get_ssh_credentials env connect_url, s)
          (ssh_or_tcp with_tls connect_url service_name request_timeout)

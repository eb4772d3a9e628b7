-- ===== src/Channel/Creating.antt =====
-- `create_channel` of grpc_channel_holder.rs: it ends within five rounds, and says what it leaves
-- in the holder.
use my_grpc_extensions.Prelude.{
  ℕ, ◌≡◌, refl, subst, Bool, Option, none, some, Bytes, returned, failed, panicked, out_of_fuel,
  and_then, arith,
}
use my_grpc_extensions.Channel.Env.{Env}
use my_grpc_extensions.Channel.ConnectUrl.{
  GrpcConnectUrl, tcp, unix_socket, get_grpc_host, get_ssh_credentials, is_unix_socket,
}
use my_grpc_extensions.Channel.State.{State, Returns}
use my_grpc_extensions.Channel.Ssh.{get_ssh_session, generate_unix_socket_file, start_port_forward}
use my_grpc_extensions.Channel.Attempts.{Tries, first_ok-Tries}
use my_grpc_extensions.Channel.Holder.{
  try_tcp, try_unix_socket, connect_to_unix_socket, connect_tcp, connect_over_ssh, create_channel,
}
use my_grpc_extensions.Channel.Connecting.{
  Holder, Connects, connect_once, connect_loop-first_ok, connect_loop-Connects,
  try_unix_socket-KeepsHolder, try_tcp-KeepsHolder,
}

module _ (env : Env) where
  -- A call that returns or panics, and leaves the holder alone.
  abbrev pub Forwards : Holder env → Returns env (Unit {0}) → Type 0
  Forwards before (returned u, s) = s.holder ≡ before
  Forwards before (failed e, s) = ⊥
  Forwards before (panicked, s) = s.holder ≡ before
  Forwards before (out_of_fuel, s) = ⊥

  pub start_port_forward-Forwards :
      (session : env.Session) (path : Bytes) (endpoint : env.Endpoint) (s : State env)
      → Forwards s.holder (start_port_forward env session path endpoint s)
  unfolding start_port_forward
  start_port_forward-Forwards session path endpoint s = ground arith

  pub get_ssh_session-holder :
      (credentials : env.Credentials) (s : State env)
      → (get_ssh_session env credentials s).1.holder ≡ s.holder
  unfolding get_ssh_session
  get_ssh_session-holder credentials s = ground arith

  connect_to_unix_socket-Connects :
      (url service_name : Bytes) (request_timeout : ℕ) (before : Holder env) (s : State env)
      → s.holder ≡ before
      → Connects env before (connect_to_unix_socket env url service_name request_timeout s)
  unfolding connect_to_unix_socket
  connect_to_unix_socket-Connects url service_name request_timeout before s h =
      connect_loop-Connects env service_name url _
        (try_unix_socket-KeepsHolder env url request_timeout) before s h

  forwarded-Connects :
      (url service_name : Bytes) (request_timeout : ℕ) (before : Holder env)
      (r : Returns env (Unit {0}))
      → Forwards before r
      → Connects env before
          (and_then r (λ _. connect_to_unix_socket env url service_name request_timeout))
  forwarded-Connects url service_name request_timeout before (returned u, s) h =
      connect_to_unix_socket-Connects url service_name request_timeout before s h
  forwarded-Connects url service_name request_timeout before (failed e, s) h = absurd h
  forwarded-Connects url service_name request_timeout before (panicked, s) h = h
  forwarded-Connects url service_name request_timeout before (out_of_fuel, s) h = absurd h

  connect_over_ssh-Connects :
      (credentials : env.Credentials) (endpoint : Option env.Endpoint) (service_name : Bytes)
      (request_timeout : ℕ) (s : State env)
      → Connects env s.holder
          (connect_over_ssh env credentials endpoint service_name request_timeout s)
  unfolding connect_over_ssh
  connect_over_ssh-Connects credentials none service_name request_timeout s = refl
  connect_over_ssh-Connects credentials (some endpoint) service_name request_timeout s =
      let opened = get_ssh_session env credentials s in
      forwarded-Connects _ service_name request_timeout s.holder _ (
        subst
          (λ h. Forwards h (
            start_port_forward env opened.0 (generate_unix_socket_file env credentials endpoint)
              endpoint opened.1))
          (get_ssh_session-holder credentials s)
          (start_port_forward-Forwards opened.0 _ endpoint opened.1))

  -- Whatever the address, the features and the network: `create_channel` ends within its fuel;
  -- the channel that it returns is in the holder, and when it returns an error or panics the
  -- holder is as it was. Its errors are timeouts and transport errors, no statuses.
  pub create_channel-Connects :
      (with_tls : Bool) (url : GrpcConnectUrl env.Credentials) (service_name : Bytes)
      (request_timeout : ℕ) (s : State env)
      → Connects env s.holder (create_channel env with_tls url service_name request_timeout s)
  unfolding create_channel is_unix_socket get_ssh_credentials get_grpc_host connect_tcp
  create_channel-Connects with_tls (unix_socket raw) service_name request_timeout s =
      connect_to_unix_socket-Connects raw service_name request_timeout s.holder s refl
  create_channel-Connects with_tls (tcp raw remote none) service_name request_timeout s =
      connect_loop-Connects env service_name remote _
        (try_tcp-KeepsHolder env with_tls (tcp raw remote none) request_timeout) s.holder s refl
  create_channel-Connects with_tls (tcp raw remote (some credentials)) service_name request_timeout
        s =
      connect_over_ssh-Connects credentials (env.try_parse remote) service_name request_timeout s

  -- Without SSH credentials, a TCP address and the path of a unix socket alike are tried at most
  -- five times, again only after a round that failed, and an error is returned only when all five
  -- rounds failed.
  pub create_channel-Tries :
      (with_tls : Bool) (raw remote service_name : Bytes) (request_timeout : ℕ) (s : State env)
      → Tries
          (connect_once env service_name remote
            (try_tcp env with_tls (tcp raw remote none) request_timeout))
          5
          s
          (create_channel env with_tls (tcp raw remote none) service_name request_timeout s)
        × Tries
            (connect_once env service_name raw (try_unix_socket env raw request_timeout))
            5
            s
            (create_channel env with_tls (unix_socket raw) service_name request_timeout s)
  unfolding create_channel is_unix_socket get_ssh_credentials get_grpc_host connect_tcp
      connect_to_unix_socket
  create_channel-Tries with_tls raw remote service_name request_timeout s = (
    rw (connect_loop-first_ok env service_name remote _ 4 5 0 s (omega arith) (omega arith))
        (first_ok-Tries 4 _ s),
    rw (connect_loop-first_ok env service_name raw _ 4 5 0 s (omega arith) (omega arith))
        (first_ok-Tries 4 _ s),
  )

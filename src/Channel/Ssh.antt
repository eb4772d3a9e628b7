-- ===== src/Channel/Ssh.antt =====
-- my-grpc-extensions/src/ssh.rs and grpc_channel/port_forwards_pool.rs.
use my_grpc_extensions.Prelude.{
  ℕ, Bool, false, ◌||◌, List, [], ◌∷◌, ◌++◌, Option, none, some, Bytes, returned, panicked, codes,
  bytes_eq, if◌then◌else◌,
}
use my_grpc_extensions.Channel.Env.{Env}
use my_grpc_extensions.Channel.State.{State, Returns}

-- HashMap::contains_key and HashMap::insert on an association list
unfoldable pub contains_key : {V : Type 0} → Bytes → List (Bytes × V) → Bool
contains_key k [] = false
contains_key k ((j, v) ∷ m) = bytes_eq j k || contains_key k m

unfoldable pub insert : {V : Type 0} → Bytes → V → List (Bytes × V) → List (Bytes × V)
insert k v [] = (k, v) ∷ []
insert k v ((j, w) ∷ m) = if bytes_eq j k then (k, v) ∷ m else (j, w) ∷ insert k v m

module _ (env : Env) where
  open env use {World, Credentials, Endpoint, Session, Tunnel}

  -- SshTarget::set_ssh_security_credentials_resolver
  unfoldable pub set_ssh_security_credentials_resolver : env.Resolver → State env → State env
  set_ssh_security_credentials_resolver resolver s = record s {
    private_key_resolver = some resolver;
  }

  unfoldable pub with_private_key : Credentials → Option (Bytes × Option Bytes) → Credentials
  with_private_key credentials none = credentials
  with_private_key credentials (some (content, pass_phrase)) =
      let (host, port) = env.get_host_port credentials in
      env.private_key host port (env.get_user_name credentials) content pass_phrase

  unfoldable pub resolve_by : Option env.Resolver → Credentials → World → Credentials × World
  resolve_by none credentials w = (credentials, w)
  resolve_by (some resolver) credentials w =
      let (key, w') =
        env.resolve_ssh_private_key resolver (env.credentials_to_string credentials) w in
      (with_private_key credentials key, w')

  -- SshTargetInner::get_ssh_credentials and get_ssh_session
  unfoldable pub get_ssh_session : Credentials → State env → Session × State env
  unfolding resolve_by with_private_key
  get_ssh_session credentials s =
      let (resolved, w) = resolve_by s.private_key_resolver credentials s.world in
      let (session, w') = env.get_or_create_session resolved w in (session, record s { world = w' })

  port_text : Option ℕ → Bytes
  port_text none = []
  port_text (some port) = env.port_to_string port

  root_path : Option Bytes → Bytes
  root_path none = codes "/tmp"
  root_path (some value) = value

  unfoldable pub generate_unix_socket_file : Credentials → Endpoint → Bytes
  unfolding port_text root_path
  generate_unix_socket_file credentials remote_host =
      let (ssh_host, ssh_port) = env.get_host_port credentials in
      root_path env.home
      ++ (codes "/grpc-"
          ++ (env.get_user_name credentials
              ++ (codes "-"
                  ++ (ssh_host
                      ++ (codes "_"
                          ++ (env.port_to_string ssh_port
                              ++ (codes "--"
                                  ++ (env.get_host remote_host
                                      ++ (codes "_"
                                          ++ (port_text (env.get_port remote_host)
                                              ++ codes ".sock"))))))))))

  -- the key that `start_port_forward` looks up
  unfoldable pub forward_id : Session → Endpoint → Bytes
  forward_id session endpoint =
      env.credentials_to_string (env.session_credentials session)
      ++ (codes "->" ++ env.endpoint_as_str endpoint)

  -- the end of `start_port_forward`: the tunnel, or the panic of `result.unwrap()`
  unfoldable pub keep_tunnel : Bytes → Option Tunnel → State env → Returns env (Unit {0})
  keep_tunnel unix_socket none s = (panicked, s)
  keep_tunnel unix_socket (some tunnel) s =
      (returned tt, record s { port_forwards = insert unix_socket tunnel s.port_forwards })

  unfoldable pub open_tunnel :
      Session → Bytes → Endpoint → Option ℕ → State env → Returns env (Unit {0})
  unfolding keep_tunnel
  open_tunnel session unix_socket endpoint none s = (panicked, s)
  open_tunnel session unix_socket endpoint (some port) s =
      let (result, w) = env.start_tunnel session unix_socket (env.get_host endpoint) port s.world in
      keep_tunnel unix_socket result (record s { world = w })

  unfoldable pub start_port_forward :
      Session → Bytes → Endpoint → State env → Returns env (Unit {0})
  unfolding open_tunnel forward_id
  start_port_forward session unix_socket endpoint s =
      if contains_key (forward_id session endpoint) s.port_forwards
      then (returned tt, s)
      else open_tunnel session unix_socket endpoint (env.get_port endpoint) s

-- ===== src/Channel/Sharing/Opening.antt =====
-- The way to a connection loses no channel and leaves the holder alone, and gives a new channel.
use my_grpc_extensions.Prelude.{
  ℕ, ◌≡◌, refl, ◌∙◌, Bool, Bool-cases, inl, inr, ◌&&◌, Bytes, Option, none, some, ok, finished,
}
use mathlib.Core.Option.{some-injective, none-ne-some}
use my_grpc_extensions.Channel.Env.{Env}
use my_grpc_extensions.Channel.ConnectUrl.{GrpcConnectUrl, get_grpc_host, is_grpc_tls_endpoint}
use my_grpc_extensions.Channel.State.{State}
use my_grpc_extensions.Channel.Ssh.{
  contains_key, forward_id, resolve_by, get_ssh_session, keep_tunnel, open_tunnel,
  start_port_forward,
}
use my_grpc_extensions.Channel.Holder.{get_held, Connecting, try_unix_socket, try_tcp}
use my_grpc_extensions.Channel.GrpcChannel.{Executor, get_connect_url}
use my_grpc_extensions.Channel.Requests.BuilderWithRetries.{RequestBuilderWithRetries}
use my_grpc_extensions.Channel.Sharing.{Route, unix_route, tcp_route, try_route}
use my_grpc_extensions.Channel.Sharing.Registry.{Registry}

module _ (env : Env) (registry : Registry env) where
  open env use {Channel, Credentials}
  open registry use {Made}

  -- Nothing that was made is lost, and the holder stays as it is.
  abbrev pub Quiet : State env → State env → Type 0
  Quiet s t =
      ((channel : Channel) → Made s.world channel → Made t.world channel)
      × (get_held env t ≡ get_held env s)

  Quiet-trans : (s t u : State env) → Quiet s t → Quiet t u → Quiet s u
  Quiet-trans s t u h k = ((λ channel made. k.0 channel (h.0 channel made)), k.1 ∙ h.1)

  pub get_connect_url-Quiet :
      (service_name : Bytes) (s : State env) → Quiet s (get_connect_url env service_name s).1
  unfolding get_connect_url get_held
  get_connect_url-Quiet service_name s = (registry.get_grpc_url-Made service_name s.world, refl)

  resolve_by-Made :
      (resolver : Option env.Resolver) (credentials : Credentials) (w : env.World)
      (channel : Channel)
      → Made w channel
      → Made (resolve_by env resolver credentials w).1 channel
  unfolding resolve_by
  resolve_by-Made none credentials w channel h = h
  resolve_by-Made (some resolver) credentials w channel h =
      registry.resolve_ssh_private_key-Made resolver _ w channel h

  pub get_ssh_session-Quiet :
      (credentials : Credentials) (s : State env) → Quiet s (get_ssh_session env credentials s).1
  unfolding get_ssh_session get_held
  get_ssh_session-Quiet credentials s = (
    (λ channel h.
        registry.get_or_create_session-Made _ _ channel
          (resolve_by-Made s.private_key_resolver credentials s.world channel h)),
    refl,
  )

  keep_tunnel-Quiet :
      (path : Bytes) (tunnel : Option env.Tunnel) (s : State env)
      → Quiet s (keep_tunnel env path tunnel s).1
  unfolding keep_tunnel get_held
  keep_tunnel-Quiet path none s = ((λ channel h. h), refl)
  keep_tunnel-Quiet path (some tunnel) s = ((λ channel h. h), refl)

  open_tunnel-Quiet :
      (session : env.Session) (path : Bytes) (endpoint : env.Endpoint) (port : Option ℕ)
      (s : State env)
      → Quiet s (open_tunnel env session path endpoint port s).1
  unfolding open_tunnel get_held
  open_tunnel-Quiet session path endpoint none s = ((λ channel h. h), refl)
  open_tunnel-Quiet session path endpoint (some port) s =
      let (_, w) = env.start_tunnel session path (env.get_host endpoint) port s.world in
      Quiet-trans s (record s { world = w }) (open_tunnel env session path endpoint (some port) s).1
        (registry.start_tunnel-Made session path (env.get_host endpoint) port s.world, refl)
        (keep_tunnel-Quiet path _ (record s { world = w }))

  pub start_port_forward-Quiet :
      (session : env.Session) (path : Bytes) (endpoint : env.Endpoint) (s : State env)
      → Quiet s (start_port_forward env session path endpoint s).1
  unfolding start_port_forward
  start_port_forward-Quiet session path endpoint s =
      elim (Bool-cases (contains_key (forward_id env session endpoint) s.port_forwards)) [
        | inl b ↦ rw b ((λ channel h. h), refl)
        | inr b ↦ rw b (open_tunnel-Quiet session path endpoint (env.get_port endpoint) s)
      ]

  -- One connection: nothing that was made is lost, the holder stays, and the channel is a new one.
  abbrev pub Opens : State env → Connecting env → Type 0
  Opens s c =
      Quiet s c.1
      × ((channel : Channel)
          → c.0 ≡ some (finished (ok channel))
          → (Made s.world channel → ⊥) × Made c.1.world channel)

  refused : (s : State env) → Opens s (none, s)
  refused s = (((λ channel h. h), refl), (λ channel e. absurd (none-ne-some _ e)))

  try_unix_socket-Opens :
      (path : Bytes) (time : ℕ) (s : State env) → Opens s (try_unix_socket env path time s)
  unfolding try_unix_socket get_held
  try_unix_socket-Opens path time s = elim (Bool-cases (env.uri_is_err path)) [
    | inl b ↦ rw b (refused s)
    | inr b ↦ rw b (
      (registry.connect_unix-Made path time s.world, refl),
      (λ channel e. registry.connect_unix-Fresh path time s.world channel (some-injective _ _ e)),
    )
  ]

  try_tcp-Opens :
      (with_tls : Bool) (url : GrpcConnectUrl Credentials) (time : ℕ) (s : State env)
      → Opens s (try_tcp env with_tls url time s)
  unfolding try_tcp get_held
  try_tcp-Opens with_tls url time s =
      elim (Bool-cases (env.from_shared_is_err (get_grpc_host env url))) [
        | inl b ↦ rw b (refused s)
        | inr b ↦ elim (Bool-cases (with_tls && is_grpc_tls_endpoint env url)) [
          | inl c ↦ rw (b, c) (refused s)
          | inr c ↦
              rw (b, c)
                (
                  (registry.connect-Made (get_grpc_host env url) time s.world, refl),
                  (λ channel e.
                      registry.connect-Fresh (get_grpc_host env url) time s.world channel
                        (some-injective _ _ e)),
                )
        ]
      ]

  pub try_route-Opens :
      {TService TRequest TResponse : Type 0}
      (self : RequestBuilderWithRetries env TService TRequest)
      (executor : Executor env TService TRequest TResponse) (route : Route Credentials)
      (s : State env)
      → Opens s (try_route env self executor route s)
  unfolding try_route
  try_route-Opens self executor (unix_route raw) s =
      try_unix_socket-Opens raw self.channel.request_timeout s
  try_route-Opens self executor (tcp_route url) s =
      try_tcp-Opens self.channel.with_tls url self.channel.request_timeout s

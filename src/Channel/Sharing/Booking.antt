-- ===== src/Channel/Sharing/Booking.antt =====
-- The steps up to a caller's channel keep the books of each channel.
use my_grpc_extensions.Channel.Ssh.{generate_unix_socket_file}
use my_grpc_extensions.Channel.Ssh.{get_ssh_session}
use my_grpc_extensions.Channel.ConnectUrl.{GrpcConnectUrl, tcp, unix_socket}
use my_grpc_extensions.Prelude.{
  ℕ, ◌+◌, ◌≡◌, inl, inr, refl, sym, ap, ◌∙◌, Bytes, Option, none, some, Result, ok, err, Timed,
  elapsed, finished, returned, failed, panicked, out_of_fuel, ltb, Bool, true, false, if◌then◌else◌,
}
use my_grpc_extensions.Channel.Env.{Env, timeout, transport_error, ReadError}
use my_grpc_extensions.Channel.State.{State, Returns}
use my_grpc_extensions.Channel.Holder.{get_held}
use my_grpc_extensions.Channel.GrpcChannel.{Executor}
use my_grpc_extensions.Channel.Requests.BuilderWithRetries.{RequestBuilderWithRetries}
use my_grpc_extensions.Channel.Sharing.{
  Route, Caller, getting, routing, resolved, forwarding, connecting, failing, done, got, routed,
  attempted, route_over_ssh, forwarded, unix_route, tcp_route,
}
use my_grpc_extensions.Channel.Sharing.Registry.{Registry}
use my_grpc_extensions.Channel.Sharing.Opening.{Quiet, Opens, get_ssh_session-Quiet}
use my_grpc_extensions.Channel.Sharing.Books.{Books, Idle, resting-Books, nothing}

module _ (env : Env) {TService TRequest TResponse : Type 0}
    (executor : Executor env TService TRequest TResponse) (registry : Registry env)
    (self : RequestBuilderWithRetries env TService TRequest) where
  open env use {Channel, Credentials}
  open registry use {Made}

  if-Idle :
      (b : Bool) (c d : Caller env TResponse)
      → Idle env c
      → Idle env d
      → Idle env (if b then c else d)
  if-Idle true c d h k = h
  if-Idle false c d h k = k

  pub got-Books :
      (channel : Channel) (n : ℕ) (s : State env) (o : Option Channel)
      → get_held env s ≡ o
      → Books env registry TResponse channel (getting n) s (got env self executor n o) s
  unfolding got
  got-Books channel n s none e =
      resting-Books env registry TResponse channel (getting n) s (routing n) s ((λ c h. h), refl)
        (nothing env)
  got-Books channel n s (some c) e =
      ((λ h. h), (λ h. absurd h), (λ same. inr (inl (e ∙ ap some same))), (λ h. inl h))

  route_over_ssh-Books :
      (channel : Channel) (n : ℕ) (c : Caller env TResponse) (credentials : Credentials)
      (o : Option env.Endpoint) (s : State env)
      → Books env registry TResponse channel c s
          (route_over_ssh env self executor n credentials o s).0
          (route_over_ssh env self executor n credentials o s).1
  unfolding route_over_ssh
  route_over_ssh-Books channel n c credentials none s =
      resting-Books env registry TResponse channel c s (done panicked) s ((λ d h. h), refl)
        (nothing env)
  route_over_ssh-Books channel n c credentials (some endpoint) s =
      resting-Books env registry TResponse channel c s
        (forwarding n (generate_unix_socket_file env credentials endpoint)
          (get_ssh_session env credentials s).0 endpoint)
        _ (get_ssh_session-Quiet env registry credentials s) (nothing env)

  pub routed-Books :
      (channel : Channel) (n : ℕ) (url : GrpcConnectUrl Credentials) (s : State env)
      → Books env registry TResponse channel
          (resolved n url)
          s
          (routed env self executor n url s).0
          (routed env self executor n url s).1
  unfolding routed
  routed-Books channel n (unix_socket raw) s =
      resting-Books env registry TResponse channel (resolved n (unix_socket raw)) s
        (connecting n (unix_route raw) 0) s ((λ d h. h), refl) (nothing env)
  routed-Books channel n (tcp raw remote none) s =
      resting-Books env registry TResponse channel (resolved n (tcp raw remote none)) s
        (connecting n (tcp_route (tcp raw remote none)) 0) s ((λ d h. h), refl) (nothing env)
  routed-Books channel n (tcp raw remote (some credentials)) s =
      route_over_ssh-Books channel n (resolved n (tcp raw remote (some credentials))) credentials
        (env.try_parse remote) s

  pub forwarded-Books :
      (channel : Channel) (n : ℕ) (name : Bytes) (c : Caller env TResponse) (s : State env)
      (r : Returns env (Unit {0}))
      → Quiet env registry s r.1
      → Books env registry TResponse channel c s
          (forwarded env self executor n name r).0
          (forwarded env self executor n name r).1
  unfolding forwarded
  forwarded-Books channel n name c s (returned u, t) h =
      resting-Books env registry TResponse channel c s (connecting n (unix_route name) 0) t h
        (nothing env)
  forwarded-Books channel n name c s (failed e, t) h =
      resting-Books env registry TResponse channel c s (failing n e) t h (nothing env)
  forwarded-Books channel n name c s (panicked, t) h =
      resting-Books env registry TResponse channel c s (done panicked) t h (nothing env)
  forwarded-Books channel n name c s (out_of_fuel, t) h =
      resting-Books env registry TResponse channel c s (done out_of_fuel) t h (nothing env)

  again-Books :
      (channel : Channel) (n : ℕ) (route : Route Credentials) (round : ℕ) (b : Bool)
      (e : ReadError env) (s t : State env)
      → Quiet env registry s t
      → Books env registry TResponse channel
          (connecting n route round)
          s
          (if b then failing n e else connecting n route (round + 1))
          t
  again-Books channel n route round b e s t quiet =
      resting-Books env registry TResponse channel (connecting n route round) s _ t quiet
        (if-Idle b (failing n e) (connecting n route (round + 1)) (nothing env) (nothing env))

  pub attempted-Books :
      (channel : Channel) (n : ℕ) (route : Route Credentials) (round : ℕ) (s t : State env)
      (result : Option (Timed (Result Channel env.TransportError)))
      → Opens env registry s (result, t)
      → Books env registry TResponse channel
          (connecting n route round)
          s
          (attempted env self executor n route round result)
          t
  unfolding attempted
  attempted-Books channel n route round s t none h =
      resting-Books env registry TResponse channel (connecting n route round) s (done panicked) t
        h.0 (nothing env)
  attempted-Books channel n route round s t (some (finished (ok c))) h = (
    h.0.0 channel,
    (λ same. h.1 channel (ap (λ d. some (finished (ok d))) same)),
    (λ uses. absurd uses),
    (λ held. inl (sym h.0.1 ∙ held)),
  )
  attempted-Books channel n route round s t (some (finished (err e))) h =
      again-Books channel n route round (ltb 3 round) (transport_error e) s t h.0
  attempted-Books channel n route round s t (some elapsed) h =
      again-Books channel n route round (ltb 3 round) timeout s t h.0

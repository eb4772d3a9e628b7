-- ===== src/Channel/Sharing/Fetching.antt =====
-- The steps by which a task comes to its channel, a request in `get_channel` and a ping task in
-- `get_or_create_channel`: what is left of the lookup is the same before and behind each of them.
use my_grpc_extensions.Prelude.{
  ℕ, suc, ◌+◌, ◌-◌, ◌≤◌, ◌≡◌, refl, Option, none, some, Bytes, ok, err, Outcome, returned, failed,
  panicked, out_of_fuel, elapsed, finished, and_then, ltb, arith, Bool-cases, inl, inr, sym, ◌∙◌,
}
use my_grpc_extensions.Channel.Env.{Env}
use my_grpc_extensions.Channel.ConnectUrl.{
  GrpcConnectUrl, tcp, unix_socket, get_grpc_host, get_ssh_credentials, is_unix_socket,
}
use my_grpc_extensions.Channel.State.{State, Returns}
use my_grpc_extensions.Channel.Ssh.{start_port_forward}
use my_grpc_extensions.Channel.Holder.{
  set_channel, get_held, Connecting, after_attempt, connect_loop, connect_to_unix_socket,
  connect_tcp, connect_over_ssh, create_channel,
}
use my_grpc_extensions.Channel.GrpcChannel.{
  create_at, Executor, connect_anew, channel_or_new, get_channel,
}
use my_grpc_extensions.Channel.Requests.BuilderWithRetries.{RequestBuilderWithRetries}
use my_grpc_extensions.Channel.Sharing.{
  addressed, Route, unix_route, Caller, getting, routing, resolved, forwarding, connecting, storing,
  calling, dropping, failing, done, route_host, try_route, got, route_over_ssh, routed, forwarded,
  attempted, advance,
}

-- A lookup ends in these ways, if not with a channel or an error.
abbrev pub Lost : {A E : Type 0} → Outcome A E → Type 0
Lost (returned r) = ⊥
Lost (failed e) = ⊥
Lost panicked = Unit {0}
Lost out_of_fuel = Unit {0}

-- the same end of a lookup
abbrev lost : {A B E : Type 0} → Outcome A E → Outcome B E
lost (returned r) = panicked
lost (failed e) = failed e
lost panicked = panicked
lost out_of_fuel = out_of_fuel

module _ (env : Env) {TService TRequest TResponse : Type 0}
    (self : RequestBuilderWithRetries env TService TRequest)
    (executor : Executor env TService TRequest TResponse) where
  open env use {Channel, Credentials}

  -- a connection loop from a round on
  abbrev rounds_from : Route Credentials → ℕ → State env → Returns env Channel
  rounds_from route round =
      connect_loop env self.channel.service_name (route_host env route)
        (try_route env self executor route) (5 - round) round

  -- what the lookup gives from a place in it
  abbrev pub looked_up : Caller env TResponse → State env → Returns env Channel
  looked_up (getting n) s = get_channel env self.channel s
  looked_up (routing n) s = connect_anew env self.channel s
  looked_up (resolved n url) s =
      create_channel env self.channel.with_tls url self.channel.service_name
        self.channel.request_timeout s
  looked_up (forwarding n name session endpoint) s =
      and_then (start_port_forward env session name endpoint s)
        (λ _ t. rounds_from (unix_route name) 0 t)
  looked_up (connecting n route round) s = rounds_from route round s
  looked_up (storing n host channel) s =
      (returned channel, set_channel env self.channel.service_name host channel s)
  looked_up (calling n channel) s = (returned channel, s)
  looked_up (dropping n channel e) s = (failed e, s)
  looked_up (failing n e) s = (failed e, s)
  looked_up (done result) s = (lost result, s)

  -- a place in the lookup, with the count of its rounds within its bound
  abbrev pub Looking : Caller env TResponse → Type 0
  Looking (getting n) = Unit {0}
  Looking (routing n) = Unit {0}
  Looking (resolved n url) = Unit {0}
  Looking (forwarding n name session endpoint) = Unit {0}
  Looking (connecting n route round) = round ≤ 4
  Looking (storing n host channel) = Unit {0}
  Looking (calling n channel) = ⊥
  Looking (dropping n channel e) = ⊥
  Looking (failing n e) = ⊥
  Looking (done result) = ⊥

  -- a place behind a step of the lookup, in the attempt with number `m`
  abbrev pub Led : ℕ → Caller env TResponse → Type 0
  Led m (getting n) = ⊥
  Led m (routing n) = n ≡ m
  Led m (resolved n url) = n ≡ m
  Led m (forwarding n name session endpoint) = n ≡ m
  Led m (connecting n route round) = (n ≡ m) × (round ≤ 4)
  Led m (storing n host channel) = n ≡ m
  Led m (calling n channel) = n ≡ m
  Led m (dropping n channel e) = ⊥
  Led m (failing n e) = n ≡ m
  Led m (done result) = Lost result

  -- The step leads to a place from which the lookup gives the same.
  abbrev pub Leads : ℕ → Returns env Channel → Caller env TResponse → State env → Type 0
  Leads m r c s = Led m c × (looked_up c s ≡ r)

  addressed-Leads :
      (n : ℕ) (o : Option (GrpcConnectUrl Credentials)) (s : State env)
      → Leads n (create_at env self.channel o s) (addressed env self executor n o) s
  unfolding addressed create_at
  addressed-Leads n none s = (tt, refl)
  addressed-Leads n (some url) s = (refl, refl)

  got-Leads :
      (n : ℕ) (o : Option Channel) (s : State env)
      → Leads n (channel_or_new env self.channel o s) (got env self executor n o) s
  unfolding got channel_or_new
  got-Leads n none s = (refl, refl)
  got-Leads n (some channel) s = (refl, refl)

  rounds_from-next :
      (route : Route Credentials) (round : ℕ) (s : State env)
      → round ≤ 4
      → rounds_from route round s
        ≡ after_attempt env self.channel.service_name
            (route_host env route)
            round
            (try_route env self executor route s)
            (rounds_from route (round + 1))
  unfolding connect_loop
  rounds_from-next route round s h =
      let e : 5 - round ≡ suc (5 - (round + 1)) = omega arith in rw e refl

  attempted-Leads :
      (n : ℕ) (route : Route Credentials) (round : ℕ) (c : Connecting env)
      → Leads n
          (after_attempt env self.channel.service_name
            (route_host env route)
            round
            c
            (rounds_from route (round + 1)))
          (attempted env self executor n route round c.0)
          c.1
  unfolding attempted after_attempt
  attempted-Leads n route round (none, s) = (tt, refl)
  attempted-Leads n route round (some (finished (ok channel)), s) = (refl, refl)
  attempted-Leads n route round (some (finished (err e)), s) = elim (Bool-cases (ltb 3 round)) [
    | inl b ↦ rw b (refl, refl)
    | inr b ↦ let less : round + 1 ≤ 4 = ground arith in rw b ((refl, less), refl)
  ]
  attempted-Leads n route round (some elapsed, s) = elim (Bool-cases (ltb 3 round)) [
    | inl b ↦ rw b (refl, refl)
    | inr b ↦ let less : round + 1 ≤ 4 = ground arith in rw b ((refl, less), refl)
  ]

  forwarded-Leads :
      (n : ℕ) (name : Bytes) (r : Returns env (Unit {0}))
      → Leads n
          (and_then r (λ _ t. rounds_from (unix_route name) 0 t))
          (forwarded env self executor n name r).0
          (forwarded env self executor n name r).1
  unfolding forwarded
  forwarded-Leads n name (returned _, s) = ((refl, omega arith), refl)
  forwarded-Leads n name (failed e, s) = (refl, refl)
  forwarded-Leads n name (panicked, s) = (tt, refl)
  forwarded-Leads n name (out_of_fuel, s) = (tt, refl)

  route_over_ssh-Leads :
      (n : ℕ) (credentials : Credentials) (o : Option env.Endpoint) (s : State env)
      → Leads n
          (connect_over_ssh env credentials o self.channel.service_name self.channel.request_timeout
            s)
          (route_over_ssh env self executor n credentials o s).0
          (route_over_ssh env self executor n credentials o s).1
  unfolding route_over_ssh connect_over_ssh connect_to_unix_socket route_host try_route
  route_over_ssh-Leads n credentials none s = (tt, refl)
  route_over_ssh-Leads n credentials (some endpoint) s = (refl, refl)

  routed-Leads :
      (n : ℕ) (url : GrpcConnectUrl Credentials) (s : State env)
      → Leads n
          (create_channel env self.channel.with_tls url self.channel.service_name
            self.channel.request_timeout s)
          (routed env self executor n url s).0
          (routed env self executor n url s).1
  unfolding routed create_channel is_unix_socket get_ssh_credentials get_grpc_host connect_tcp
      connect_to_unix_socket route_host try_route
  routed-Leads n (unix_socket raw) s = ((refl, omega arith), refl)
  routed-Leads n (tcp raw remote none) s = ((refl, omega arith), refl)
  routed-Leads n (tcp raw remote (some credentials)) s =
      route_over_ssh-Leads n credentials (env.try_parse remote) s

  -- the number of the attempt
  abbrev pub number : Caller env TResponse → ℕ
  number (getting n) = n
  number (routing n) = n
  number (resolved n url) = n
  number (forwarding n name session endpoint) = n
  number (connecting n route round) = n
  number (storing n host channel) = n
  number (calling n channel) = n
  number (dropping n channel e) = n
  number (failing n e) = n
  number (done result) = 0

  pub advance-Leads :
      (c : Caller env TResponse) (s : State env)
      → Looking c
      → Leads
          (number c)
          (looked_up c s)
          (advance env self executor c s).0
          (advance env self executor c s).1
  unfolding advance connect_anew get_channel
  advance-Leads (getting n) s h = got-Leads n (get_held env s) s
  advance-Leads (routing n) s h = addressed-Leads n _ _
  advance-Leads (resolved n url) s h = routed-Leads n url s
  advance-Leads (forwarding n name session endpoint) s h = forwarded-Leads n name _
  advance-Leads (connecting n route round) s h =
      let (led, same) = attempted-Leads n route round (try_route env self executor route s) in
      (led, same ∙ sym (rounds_from-next route round s h))
  advance-Leads (storing n host channel) s h = (refl, refl)
  advance-Leads (calling n channel) s h = absurd h
  advance-Leads (dropping n channel e) s h = absurd h
  advance-Leads (failing n e) s h = absurd h
  advance-Leads (done result) s h = absurd h

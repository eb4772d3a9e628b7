-- ===== src/Channel/Sharing/Bounds.antt =====
-- The counts of a request stay within their bounds.
use my_grpc_extensions.Prelude.{
  ℕ, ◌≤◌, Option, none, some, Result, ok, err, returned, failed, panicked, out_of_fuel, Timed,
  elapsed, finished, arith, Bytes,
}
use my_grpc_extensions.Channel.Env.{Env}
use my_grpc_extensions.Channel.ConnectUrl.{GrpcConnectUrl, tcp, unix_socket}
use my_grpc_extensions.Channel.State.{State, Returns}
use my_grpc_extensions.Channel.GrpcChannel.{Executor}
use my_grpc_extensions.Channel.Requests.BuilderWithRetries.{RequestBuilderWithRetries}
use my_grpc_extensions.Channel.Sharing.{
  addressed, Route, Caller, getting, routing, resolved, forwarding, connecting, storing, calling,
  dropping, failing, done, got, route_over_ssh, routed, forwarded, attempted, answered, advance,
}
use my_grpc_extensions.Channel.Sharing.Meaning.{InBounds}

module _ (env : Env) {TService TRequest TResponse : Type 0}
    (self : RequestBuilderWithRetries env TService TRequest)
    (executor : Executor env TService TRequest TResponse) where
  open env use {Channel, Credentials}

  got-InBounds :
      (n : ℕ) (o : Option Channel)
      → n ≤ self.max_attempts_amount
      → InBounds env self executor (got env self executor n o)
  unfolding got
  got-InBounds n none h = h
  got-InBounds n (some channel) h = h

  route_over_ssh-InBounds :
      (n : ℕ) (credentials : Credentials) (o : Option env.Endpoint) (s : State env)
      → n ≤ self.max_attempts_amount
      → InBounds env self executor (route_over_ssh env self executor n credentials o s).0
  unfolding route_over_ssh
  route_over_ssh-InBounds n credentials none s h = tt
  route_over_ssh-InBounds n credentials (some endpoint) s h = h

  routed-InBounds :
      (n : ℕ) (url : GrpcConnectUrl Credentials) (s : State env)
      → n ≤ self.max_attempts_amount
      → InBounds env self executor (routed env self executor n url s).0
  unfolding routed
  routed-InBounds n (unix_socket raw) s h = (h, omega arith)
  routed-InBounds n (tcp raw remote none) s h = (h, omega arith)
  routed-InBounds n (tcp raw remote (some credentials)) s h =
      route_over_ssh-InBounds n credentials (env.try_parse remote) s h

  forwarded-InBounds :
      (n : ℕ) (name : Bytes) (r : Returns env (Unit {0}))
      → n ≤ self.max_attempts_amount
      → InBounds env self executor (forwarded env self executor n name r).0
  unfolding forwarded
  forwarded-InBounds n name (returned u, s) h = (h, omega arith)
  forwarded-InBounds n name (failed e, s) h = h
  forwarded-InBounds n name (panicked, s) h = tt
  forwarded-InBounds n name (out_of_fuel, s) h = tt

  attempted-InBounds :
      (n : ℕ) (route : Route Credentials) (round : ℕ)
      (result : Option (Timed (Result Channel env.TransportError)))
      → n ≤ self.max_attempts_amount
      → InBounds env self executor (attempted env self executor n route round result)
  unfolding attempted
  attempted-InBounds n route round none h = tt
  attempted-InBounds n route round (some (finished (ok channel))) h = h
  attempted-InBounds n route round (some (finished (err e))) h = ground arith
  attempted-InBounds n route round (some elapsed) h = ground arith

  answered-InBounds :
      (n : ℕ) (channel : Channel) (result : Option (Timed (Result TResponse env.Status)))
      → n ≤ self.max_attempts_amount
      → InBounds env self executor (answered env self executor n channel result)
  unfolding answered
  answered-InBounds n channel none h = tt
  answered-InBounds n channel (some elapsed) h = h
  answered-InBounds n channel (some (finished (ok response))) h = tt
  answered-InBounds n channel (some (finished (err status))) h = ground arith

  addressed-InBounds :
      (n : ℕ) (o : Option (GrpcConnectUrl env.Credentials))
      → n ≤ self.max_attempts_amount
      → InBounds env self executor (addressed env self executor n o)
  unfolding addressed
  addressed-InBounds n none h = tt
  addressed-InBounds n (some url) h = h

  pub advance-InBounds :
      (c : Caller env TResponse) (s : State env)
      → InBounds env self executor c
      → InBounds env self executor (advance env self executor c s).0
  unfolding advance
  advance-InBounds (getting n) s h = got-InBounds n _ h
  advance-InBounds (routing n) s h = addressed-InBounds n _ h
  advance-InBounds (resolved n url) s h = routed-InBounds n url s h
  advance-InBounds (forwarding n name session endpoint) s h = forwarded-InBounds n name _ h
  advance-InBounds (connecting n route round) s h = attempted-InBounds n route round _ h.0
  advance-InBounds (storing n host channel) s h = h
  advance-InBounds (calling n channel) s h = answered-InBounds n channel _ h
  advance-InBounds (dropping n channel e) s h = h
  advance-InBounds (failing n e) s h = ground arith
  advance-InBounds (done result) s h = tt

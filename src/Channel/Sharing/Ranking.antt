-- ===== src/Channel/Sharing/Ranking.antt =====
-- Each step of a request takes it nearer to its end.
use my_grpc_extensions.Prelude.{
  ℕ, ◌+◌, ◌-◌, ◌*◌, ◌≤◌, ◌≡◌, refl, Option, none, some, Result, ok, err, Outcome, returned, failed,
  panicked, out_of_fuel, Timed, elapsed, finished, arith, Bytes,
}
use my_grpc_extensions.Channel.Env.{Env, ReadError}
use my_grpc_extensions.Channel.ConnectUrl.{GrpcConnectUrl, tcp, unix_socket}
use my_grpc_extensions.Channel.State.{State, Returns}
use my_grpc_extensions.Channel.GrpcChannel.{Executor}
use my_grpc_extensions.Channel.Requests.BuilderWithRetries.{RequestBuilderWithRetries}
use my_grpc_extensions.Channel.Sharing.{
  addressed, Route, Caller, getting, routing, resolved, forwarding, connecting, storing, calling,
  dropping, failing, done, got, routed, attempted, answered, advance, route_over_ssh, forwarded,
}

module _ (env : Env) {TService TRequest TResponse : Type 0}
    (self : RequestBuilderWithRetries env TService TRequest)
    (executor : Executor env TService TRequest TResponse) where
  open env use {Channel, Credentials}

  max : ℕ
  max = self.max_attempts_amount

  -- The steps that a caller has left at most.
  unfoldable pub rank : Caller env TResponse → ℕ
  rank (getting n) = (self.max_attempts_amount - (n + 1)) * 13 + 13
  rank (routing n) = (self.max_attempts_amount - (n + 1)) * 13 + 12
  rank (resolved n url) = (self.max_attempts_amount - (n + 1)) * 13 + 11
  rank (forwarding n name session endpoint) = (self.max_attempts_amount - (n + 1)) * 13 + 10
  rank (connecting n route round) = (self.max_attempts_amount - (n + 1)) * 13 + 5 + (4 - round)
  rank (storing n host channel) = (self.max_attempts_amount - (n + 1)) * 13 + 4
  rank (calling n channel) = (self.max_attempts_amount - (n + 1)) * 13 + 3
  rank (dropping n channel e) = (self.max_attempts_amount - (n + 1)) * 13 + 2
  rank (failing n e) = (self.max_attempts_amount - (n + 1)) * 13 + 1
  rank (done result) = 0

  rank-got :
      (n : ℕ) (o : Option Channel)
      → rank (got env self executor n o) ≤ (self.max_attempts_amount - (n + 1)) * 13 + 12
  unfolding got rank
  rank-got n none = omega arith
  rank-got n (some channel) = omega arith

  rank-route_over_ssh :
      (n : ℕ) (credentials : Credentials) (o : Option env.Endpoint) (s : State env)
      → rank (route_over_ssh env self executor n credentials o s).0
        ≤ (self.max_attempts_amount - (n + 1)) * 13 + 10
  unfolding route_over_ssh rank
  rank-route_over_ssh n credentials none s = omega arith
  rank-route_over_ssh n credentials (some endpoint) s = omega arith

  rank-routed :
      (n : ℕ) (url : GrpcConnectUrl Credentials) (s : State env)
      → rank (routed env self executor n url s).0 ≤ (self.max_attempts_amount - (n + 1)) * 13 + 10
  unfolding routed rank
  rank-routed n (unix_socket raw) s = omega arith
  rank-routed n (tcp raw remote none) s = omega arith
  rank-routed n (tcp raw remote (some credentials)) s =
      rank-route_over_ssh n credentials (env.try_parse remote) s

  rank-forwarded :
      (n : ℕ) (name : Bytes) (r : Returns env (Unit {0}))
      → rank (forwarded env self executor n name r).0
        ≤ (self.max_attempts_amount - (n + 1)) * 13 + 9
  unfolding forwarded rank
  rank-forwarded n name (returned u, s) = omega arith
  rank-forwarded n name (failed e, s) = omega arith
  rank-forwarded n name (panicked, s) = omega arith
  rank-forwarded n name (out_of_fuel, s) = omega arith

  rank-attempted :
      (n : ℕ) (route : Route Credentials) (round : ℕ)
      (result : Option (Timed (Result Channel env.TransportError)))
      → rank (attempted env self executor n route round result)
        ≤ (self.max_attempts_amount - (n + 1)) * 13 + 5 + (4 - round) - 1
  unfolding attempted rank
  rank-attempted n route round none = omega arith
  rank-attempted n route round (some (finished (ok channel))) = omega arith
  rank-attempted n route round (some (finished (err e))) = ground arith
  rank-attempted n route round (some elapsed) = ground arith

  rank-answered :
      (n : ℕ) (channel : Channel) (result : Option (Timed (Result TResponse env.Status)))
      → rank (answered env self executor n channel result)
        ≤ (self.max_attempts_amount - (n + 1)) * 13 + 2
  unfolding answered rank
  rank-answered n channel none = omega arith
  rank-answered n channel (some elapsed) = omega arith
  rank-answered n channel (some (finished (ok response))) = omega arith
  rank-answered n channel (some (finished (err status))) = ground arith

  rank-addressed :
      (n : ℕ) (o : Option (GrpcConnectUrl env.Credentials))
      → rank (addressed env self executor n o) ≤ rank (routing n) - 1
  unfolding addressed rank
  rank-addressed n none = omega arith
  rank-addressed n (some url) = omega arith

  below : {a b c : ℕ} → a ≤ b → b + 1 ≤ c → a ≤ c - 1
  below h k = omega arith

  -- Each step takes at least one from what is left.
  pub rank-advance :
      (c : Caller env TResponse) (s : State env)
      → rank (advance env self executor c s).0 ≤ rank c - 1
  unfolding advance rank
  rank-advance (getting n) s = below (rank-got n _) (omega arith)
  rank-advance (routing n) s = rank-addressed n _
  rank-advance (resolved n url) s = below (rank-routed n url s) (omega arith)
  rank-advance (forwarding n name session endpoint) s =
      below (rank-forwarded n name _) (omega arith)
  rank-advance (connecting n route round) s = rank-attempted n route round _
  rank-advance (storing n host channel) s = omega arith
  rank-advance (calling n channel) s = below (rank-answered n channel _) (omega arith)
  rank-advance (dropping n channel e) s = omega arith
  rank-advance (failing n e) s = ground arith
  rank-advance (done result) s = omega arith

  pub rank-done :
      (c : Caller env TResponse)
      → rank c ≡ 0
      → (r : Outcome TResponse (ReadError env)) × (c ≡ done r)
  unfolding rank
  rank-done (getting n) h = absurd (omega arith)
  rank-done (routing n) h = absurd (omega arith)
  rank-done (resolved n url) h = absurd (omega arith)
  rank-done (forwarding n name session endpoint) h = absurd (omega arith)
  rank-done (connecting n route round) h = absurd (omega arith)
  rank-done (storing n host channel) h = absurd (omega arith)
  rank-done (calling n channel) h = absurd (omega arith)
  rank-done (dropping n channel e) h = absurd (omega arith)
  rank-done (failing n e) h = absurd (omega arith)
  rank-done (done result) h = (result, refl)

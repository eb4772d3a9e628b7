-- ===== src/Channel/Sharing/Rest.antt =====
-- What is left of a round of the ping task, from each place in it.
use my_grpc_extensions.Prelude.{
  ℕ, ◌≤◌, ◌≡◌, refl, Option, none, some, returned, failed, panicked, out_of_fuel, elapsed, arith,
}
use my_grpc_extensions.Channel.Env.{Env}
use my_grpc_extensions.Channel.State.{State, Returns}
use my_grpc_extensions.Channel.Holder.{drop_channel}
use my_grpc_extensions.Channel.GrpcChannel.{Executor}
use my_grpc_extensions.Channel.Pool.{
  PingResult, ping_ok, ping_timed_out, GrpcChannelPool, settle_ping, ping_channel,
}
use my_grpc_extensions.Channel.Sharing.{
  Caller, getting, routing, resolved, forwarding, connecting, storing, calling, dropping, failing,
  done,
}
use my_grpc_extensions.Channel.Sharing.Pinger.{
  Pinger, waiting, fetching, checking, leaving, reporting, stopped, fetched, checked, ping_request,
}
use my_grpc_extensions.Channel.Sharing.Fetching.{Lost, Looking, Led, looked_up}
use my_grpc_extensions.Channel.Sharing.Ranking.{rank}

module _ (env : Env) {TService : Type 0} (pool : GrpcChannelPool env TService) where
  abbrev pub never : Executor env TService (Unit {0}) (Unit {0})
  never service input_data time w = (some elapsed, w)

  abbrev pub looked : Caller env (Unit {0}) → State env → Returns env env.Channel
  looked = looked_up env (ping_request env pool) never

  -- what the round gives from a place in it
  abbrev pub rest : Pinger env → State env → Returns env (Unit {0})
  rest waiting s = (returned tt, s)
  rest (fetching c) s = ping_channel env pool (looked c s)
  rest (checking channel) s = ping_channel env pool (returned channel, s)
  rest (leaving channel) s = (returned tt, drop_channel env s)
  rest (reporting e) s = ping_channel env pool (failed e, s)
  rest (stopped result) s = (result, s)

  -- a place that the task comes to
  abbrev pub Sound : Pinger env → Type 0
  Sound waiting = Unit {0}
  Sound (fetching c) = Looking env (ping_request env pool) never c
  Sound (checking channel) = Unit {0}
  Sound (leaving channel) = Unit {0}
  Sound (reporting e) = Unit {0}
  Sound (stopped result) = Lost result

  -- the steps to the end of the round at most
  abbrev pub ping_rank : Pinger env → ℕ
  ping_rank waiting = 0
  ping_rank (fetching c) = rank env (ping_request env pool) never c
  ping_rank (checking channel) = 2
  ping_rank (leaving channel) = 1
  ping_rank (reporting e) = 1
  ping_rank (stopped result) = 0

  -- A place keeps what the round gives, and is sound.
  abbrev pub Goes : Returns env (Unit {0}) → Pinger env → State env → Type 0
  Goes r p s = (rest p s ≡ r) × Sound p

  pub fetched-Goes :
      (m : ℕ) (c : Caller env (Unit {0})) (s : State env)
      → Led env (ping_request env pool) never m c
      → Goes (ping_channel env pool (looked c s)) (fetched env c) s
  unfolding fetched ping_channel
  fetched-Goes m (getting n) s h = absurd h
  fetched-Goes m (routing n) s h = (refl, tt)
  fetched-Goes m (resolved n url) s h = (refl, tt)
  fetched-Goes m (forwarding n name session endpoint) s h = (refl, tt)
  fetched-Goes m (connecting n route round) s h = (refl, h.1)
  fetched-Goes m (storing n host channel) s h = (refl, tt)
  fetched-Goes m (calling n channel) s h = (refl, tt)
  fetched-Goes m (dropping n channel e) s h = absurd h
  fetched-Goes m (failing n e) s h = (refl, tt)
  fetched-Goes m (done (returned r)) s h = absurd h
  fetched-Goes m (done (failed e)) s h = absurd h
  fetched-Goes m (done panicked) s h = (refl, tt)
  fetched-Goes m (done out_of_fuel) s h = (refl, tt)

  pub checked-Goes :
      (channel : env.Channel) (result : Option PingResult) (s : State env)
      → Goes (returned tt, settle_ping env result s) (checked env channel result) s
  unfolding checked settle_ping
  checked-Goes channel (some ping_ok) s = (refl, tt)
  checked-Goes channel (some ping_timed_out) s = (refl, tt)
  checked-Goes channel none s = (refl, tt)

  pub rank-fetched :
      (c : Caller env (Unit {0}))
      → ping_rank (fetched env c) ≤ rank env (ping_request env pool) never c
  unfolding fetched rank
  rank-fetched (getting n) = omega arith
  rank-fetched (routing n) = omega arith
  rank-fetched (resolved n url) = omega arith
  rank-fetched (forwarding n name session endpoint) = omega arith
  rank-fetched (connecting n route round) = omega arith
  rank-fetched (storing n host channel) = omega arith
  rank-fetched (calling n channel) = omega arith
  rank-fetched (dropping n channel e) = omega arith
  rank-fetched (failing n e) = omega arith
  rank-fetched (done result) = omega arith

  pub rank-checked :
      (channel : env.Channel) (result : Option PingResult)
      → ping_rank (checked env channel result) ≤ 1
  unfolding checked
  rank-checked channel (some ping_ok) = omega arith
  rank-checked channel (some ping_timed_out) = omega arith
  rank-checked channel none = omega arith

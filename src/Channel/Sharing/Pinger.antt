-- ===== src/Channel/Sharing/Pinger.antt =====
-- ping_loop of grpc_channel_pool.rs, cut where the lock of the holder is taken. It comes to its
-- channel by the steps of a request.
use my_grpc_extensions.Prelude.{Outcome, panicked, Option, none, some, if◌then◌else◌, elapsed}
use my_grpc_extensions.Channel.Env.{Env, GrpcUrl, ReadError}
use my_grpc_extensions.Channel.State.{State}
use my_grpc_extensions.Channel.Holder.{drop_channel}
use my_grpc_extensions.Channel.Pool.{
  PingResult, ping_ok, ping_timed_out, GrpcChannelPool, get_pooled, execute_ping_with_timeout,
}
use my_grpc_extensions.Channel.Requests.BuilderWithRetries.{RequestBuilderWithRetries}
use my_grpc_extensions.Channel.Sharing.{
  Caller, getting, routing, resolved, forwarding, connecting, storing, calling, dropping, failing,
  done, advance,
}

-- Where the ping task stands.
pub data Pinger (env : Env) : Type 0 where
  waiting : Pinger env  -- at the top of the loop
  fetching : Caller env (Unit {0}) → Pinger env  -- in `get_or_create_channel`
  checking : env.Channel → Pinger env  -- before `execute_ping_with_timeout`
  leaving : env.Channel → Pinger env  -- before `drop_channel`
  reporting : ReadError env → Pinger env  -- at the `Err` of `match channel`
  stopped : Outcome (Unit {0}) (ReadError env) → Pinger env

module _ (env : Env) where
  open env use {Channel}

  -- the `match channel` of the loop, once the channel is there or cannot be
  unfoldable pub fetched : Caller env (Unit {0}) → Pinger env
  fetched (getting n) = fetching (getting n)
  fetched (routing n) = fetching (routing n)
  fetched (resolved n url) = fetching (resolved n url)
  fetched (forwarding n name session endpoint) = fetching (forwarding n name session endpoint)
  fetched (connecting n route round) = fetching (connecting n route round)
  fetched (storing n host channel) = fetching (storing n host channel)
  fetched (calling n channel) = checking channel
  fetched (dropping n channel e) = reporting e
  fetched (failing n e) = reporting e
  fetched (done result) = stopped result

  -- the `match result` of the loop, up to `drop_channel`
  unfoldable pub checked : Channel → Option PingResult → Pinger env
  checked channel (some ping_ok) = waiting
  checked channel (some ping_timed_out) = leaving channel
  checked channel none = leaving channel

  -- behind the log line of a failed connection
  unfoldable pub logged : Option GrpcUrl → Pinger env
  logged none = stopped panicked
  logged (some grpc_url) = waiting

  module _ {TService : Type 0} (pool : GrpcChannelPool env TService) where
    -- The request by whose first steps the task comes to its channel; it never makes its call.
    unfoldable pub ping_request : RequestBuilderWithRetries env TService (Unit {0})
    unfolding get_pooled
    ping_request = record {
      input_contract = tt;
      channel = (get_pooled env pool).0;
      max_attempts_amount = 1;
    }

    -- one step of `get_or_create_channel`
    unfoldable pub fetch : Caller env (Unit {0}) → State env → Caller env (Unit {0}) × State env
    fetch = advance env ping_request (λ service input_data time w. (some elapsed, w))

    -- one step of the task
    unfoldable pub advance_ping : Pinger env → State env → Pinger env × State env
    unfolding fetched checked logged fetch
    advance_ping waiting s = (if pool.enable_ping then fetching (getting 0) else waiting, s)
    advance_ping (fetching c) s = let (next, s') = fetch c s in (fetched next, s')
    advance_ping (checking channel) s =
        let (result, w) =
          execute_ping_with_timeout env pool (pool.create_service channel) s.world in
        (checked channel result, record s { world = w })
    advance_ping (leaving channel) s = (waiting, drop_channel env s)
    advance_ping (reporting e) s =
        let (grpc_url, w) = env.get_grpc_url pool.service_name s.world in
        (logged grpc_url, record s { world = w })
    advance_ping (stopped result) s = (stopped result, s)

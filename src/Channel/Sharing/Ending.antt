-- ===== src/Channel/Sharing/Ending.antt =====
-- No caller ends for want of fuel.
use my_grpc_extensions.Channel.Connecting.{Holder}
use my_grpc_extensions.Prelude.{
  ℕ, Option, none, some, Result, ok, err, Outcome, returned, failed, panicked, out_of_fuel, Timed,
  elapsed, finished, arith, Bytes,
}
use my_grpc_extensions.Channel.Env.{Env, ReadError}
use my_grpc_extensions.Channel.ConnectUrl.{GrpcConnectUrl, tcp, unix_socket}
use my_grpc_extensions.Channel.State.{State, Returns}
use my_grpc_extensions.Channel.Creating.{Forwards, start_port_forward-Forwards}
use my_grpc_extensions.Channel.GrpcChannel.{Executor}
use my_grpc_extensions.Channel.Requests.BuilderWithRetries.{RequestBuilderWithRetries}
use my_grpc_extensions.Channel.Sharing.{
  addressed, Route, Caller, getting, routing, resolved, forwarding, connecting, storing, calling,
  dropping, failing, done, got, route_over_ssh, routed, forwarded, attempted, answered, advance,
}

module _ (env : Env) where
  open env use {Channel, Credentials}

  module _ {A : Type 0} where
    -- Only a loop without fuel ends without a result.
    abbrev pub Ended : Outcome A (ReadError env) → Type 0
    Ended (returned response) = Unit {0}
    Ended (failed e) = Unit {0}
    Ended panicked = Unit {0}
    Ended out_of_fuel = ⊥

    abbrev pub Ends : Caller env A → Type 0
    Ends (getting n) = Unit {0}
    Ends (routing n) = Unit {0}
    Ends (resolved n url) = Unit {0}
    Ends (forwarding n name session endpoint) = Unit {0}
    Ends (connecting n route round) = Unit {0}
    Ends (storing n host channel) = Unit {0}
    Ends (calling n channel) = Unit {0}
    Ends (dropping n channel e) = Unit {0}
    Ends (failing n e) = Unit {0}
    Ends (done result) = Ended result

  module _ {TService TRequest TResponse : Type 0}
      (self : RequestBuilderWithRetries env TService TRequest)
      (executor : Executor env TService TRequest TResponse) where
    got-Ends : (n : ℕ) (o : Option Channel) → Ends (got env self executor n o)
    unfolding got
    got-Ends n none = tt
    got-Ends n (some channel) = tt

    route_over_ssh-Ends :
        (n : ℕ) (credentials : Credentials) (o : Option env.Endpoint) (s : State env)
        → Ends (route_over_ssh env self executor n credentials o s).0
    unfolding route_over_ssh
    route_over_ssh-Ends n credentials none s = tt
    route_over_ssh-Ends n credentials (some endpoint) s = tt

    routed-Ends :
        (n : ℕ) (url : GrpcConnectUrl Credentials) (s : State env)
        → Ends (routed env self executor n url s).0
    unfolding routed
    routed-Ends n (unix_socket raw) s = tt
    routed-Ends n (tcp raw remote none) s = tt
    routed-Ends n (tcp raw remote (some credentials)) s =
        route_over_ssh-Ends n credentials (env.try_parse remote) s

    forwarded-Ends :
        (n : ℕ) (name : Bytes) (before : Holder env) (r : Returns env (Unit {0}))
        → Forwards env before r
        → Ends (forwarded env self executor n name r).0
    unfolding forwarded
    forwarded-Ends n name before (returned u, s) h = tt
    forwarded-Ends n name before (failed e, s) h = tt
    forwarded-Ends n name before (panicked, s) h = tt
    forwarded-Ends n name before (out_of_fuel, s) h = h

    attempted-Ends :
        (n : ℕ) (route : Route Credentials) (round : ℕ)
        (result : Option (Timed (Result Channel env.TransportError)))
        → Ends (attempted env self executor n route round result)
    unfolding attempted
    attempted-Ends n route round none = tt
    attempted-Ends n route round (some (finished (ok channel))) = tt
    attempted-Ends n route round (some (finished (err e))) = ground arith
    attempted-Ends n route round (some elapsed) = ground arith

    answered-Ends :
        (n : ℕ) (channel : Channel) (result : Option (Timed (Result TResponse env.Status)))
        → Ends (answered env self executor n channel result)
    unfolding answered
    answered-Ends n channel none = tt
    answered-Ends n channel (some elapsed) = tt
    answered-Ends n channel (some (finished (ok response))) = tt
    answered-Ends n channel (some (finished (err status))) = ground arith

    addressed-Ends :
        (n : ℕ) (o : Option (GrpcConnectUrl Credentials)) → Ends (addressed env self executor n o)
    unfolding addressed
    addressed-Ends n none = tt
    addressed-Ends n (some url) = tt

    pub advance-Ends :
        (c : Caller env TResponse) (s : State env) → Ends c → Ends (advance env self executor c s).0
    unfolding advance
    advance-Ends (getting n) s h = got-Ends n _
    advance-Ends (routing n) s h = addressed-Ends n _
    advance-Ends (resolved n url) s h = routed-Ends n url s
    advance-Ends (forwarding n name session endpoint) s h =
        forwarded-Ends n name _ _ (start_port_forward-Forwards env session name endpoint s)
    advance-Ends (connecting n route round) s h = attempted-Ends n route round _
    advance-Ends (storing n host channel) s h = tt
    advance-Ends (calling n channel) s h = answered-Ends n channel _
    advance-Ends (dropping n channel e) s h = tt
    advance-Ends (failing n e) s h = ground arith
    advance-Ends (done result) s h = h

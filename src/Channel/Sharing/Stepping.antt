-- ===== src/Channel/Sharing/Stepping.antt =====
-- Each step of a task, a request or a ping task, keeps the books of each channel.
use my_grpc_extensions.Prelude.{ℕ, inl, refl, ◌≡◌, Option, none, some, Bool-cases, inr, elapsed}
use mathlib.Core.Option.{none-ne-some}
use my_grpc_extensions.Channel.Env.{GrpcUrl, Env, ReadError}
use my_grpc_extensions.Channel.State.{State}
use my_grpc_extensions.Channel.Holder.{get_held, drop_channel}
use my_grpc_extensions.Channel.Pool.{
  PingResult, ping_ok, ping_timed_out, GrpcChannelPool, execute_ping_with_timeout,
}
use my_grpc_extensions.Channel.Sharing.{
  Caller, getting, routing, resolved, forwarding, connecting, storing, calling, dropping, failing,
  done,
}
use my_grpc_extensions.Channel.Sharing.Pinger.{
  logged, Pinger, waiting, fetching, checking, leaving, reporting, stopped, fetched, checked,
  ping_request, fetch, advance_ping,
}
use my_grpc_extensions.Channel.Sharing.Tasks.{Task, request, pinging, Place, take_step}
use my_grpc_extensions.Channel.Sharing.Registry.{Registry, Careful}
use my_grpc_extensions.Channel.Sharing.Books.{Pending, Uses, Moves, Moves-resting, Moves-weaken}
use my_grpc_extensions.Channel.Sharing.Booked.{advance-Books}

module _ (env : Env) where
  open env use {Channel}

  module _ (channel : Channel) where
    abbrev pub PingPending : Pinger env → Type 0
    PingPending waiting = ⊥
    PingPending (fetching c) = Pending env channel c
    PingPending (checking c) = ⊥
    PingPending (leaving c) = ⊥
    PingPending (reporting e) = ⊥
    PingPending (stopped result) = ⊥

    abbrev pub PingUses : Pinger env → Type 0
    PingUses waiting = ⊥
    PingUses (fetching c) = Uses env channel c
    PingUses (checking c) = c ≡ channel
    PingUses (leaving c) = c ≡ channel
    PingUses (reporting e) = ⊥
    PingUses (stopped result) = ⊥

    module _ {TService : Type 0} where
      -- The task has made the channel and has yet to put it into the holder.
      abbrev pub Stores : (task : Task env TService) → Place task → Type 0
      Stores (request TRequest TResponse self executor) place = Pending env channel place
      Stores (pinging pool) place = PingPending place

      -- The task's call is on the channel.
      abbrev pub CallsOn : (task : Task env TService) → Place task → Type 0
      CallsOn (request TRequest TResponse self executor) place = Uses env channel place
      CallsOn (pinging pool) place = PingUses place

      -- The call of the task on the channel has failed, and the task is about to let go of it.
      abbrev pub LetsGo : (task : Task env TService) → Place task → Type 0
      LetsGo (request TRequest TResponse self executor) place =
          (n : ℕ) × (e : ReadError env) × (place ≡ dropping n channel e)
      LetsGo (pinging pool) place = place ≡ leaving channel

    fetched-Pending :
        (c : Caller env (Unit {0})) → PingPending (fetched env c) → Pending env channel c
    unfolding fetched
    fetched-Pending (getting n) h = h
    fetched-Pending (routing n) h = h
    fetched-Pending (resolved n url) h = h
    fetched-Pending (forwarding n name session endpoint) h = h
    fetched-Pending (connecting n route round) h = h
    fetched-Pending (storing n host c) h = h
    fetched-Pending (calling n c) h = h
    fetched-Pending (dropping n c e) h = h
    fetched-Pending (failing n e) h = h
    fetched-Pending (done result) h = h

    fetched-Uses : (c : Caller env (Unit {0})) → PingUses (fetched env c) → Uses env channel c
    unfolding fetched
    fetched-Uses (getting n) h = h
    fetched-Uses (routing n) h = h
    fetched-Uses (resolved n url) h = h
    fetched-Uses (forwarding n name session endpoint) h = h
    fetched-Uses (connecting n route round) h = h
    fetched-Uses (storing n host c) h = h
    fetched-Uses (calling n c) h = h
    fetched-Uses (dropping n c e) h = absurd h
    fetched-Uses (failing n e) h = h
    fetched-Uses (done result) h = h

    logged-nothing :
        (o : Option GrpcUrl) → (PingPending (logged env o) → ⊥) × (PingUses (logged env o) → ⊥)
    unfolding logged
    logged-nothing none = ((λ h. h), (λ h. h))
    logged-nothing (some grpc_url) = ((λ h. h), (λ h. h))

    checked-Pending :
        (c : Channel) (result : Option PingResult) → PingPending (checked env c result) → ⊥
    unfolding checked
    checked-Pending c (some ping_ok) h = h
    checked-Pending c (some ping_timed_out) h = h
    checked-Pending c none h = h

    checked-Uses :
        (c : Channel) (result : Option PingResult) → PingUses (checked env c result) → c ≡ channel
    unfolding checked
    checked-Uses c (some ping_ok) h = absurd h
    checked-Uses c (some ping_timed_out) h = h
    checked-Uses c none h = h

    module _ {TService : Type 0} (registry : Registry env) (pool : GrpcChannelPool env TService)
        (careful : Careful env registry (pinging pool)) where
      -- the steps of the ping task
      abbrev PingMoves : Pinger env → State env → Pinger env → State env → Type 0
      PingMoves p s p' s' =
          Moves env registry channel (PingPending p) (PingUses p) s (PingPending p') (PingUses p')
            s'

      round-Moves : (s : State env) → PingMoves waiting s (advance_ping env pool waiting s).0 s
      unfolding advance_ping
      round-Moves s = elim (Bool-cases pool.enable_ping) [
        | inl b ↦
            rw b
              (Moves-resting env registry channel ⊥ ⊥ s ⊥ ⊥ s ((λ d h. h), refl) (λ h. h) (λ h. h))
        | inr b ↦
            rw b
              (Moves-resting env registry channel ⊥ ⊥ s ⊥ ⊥ s ((λ d h. h), refl) (λ h. h) (λ h. h))
      ]

      settled-Moves :
          (c : Channel) (result : Option PingResult) (s : State env) (w : env.World)
          → ((d : Channel) → registry.Made s.world d → registry.Made w d)
          → PingMoves (checking c) s (checked env c result) (record s { world = w })
      unfolding get_held
      settled-Moves c result s w kept = (
        kept channel,
        (λ h. absurd (checked-Pending c result h)),
        (λ h. inl (checked-Uses c result h)),
        (λ held. inl held),
      )

      advance_ping-Moves :
          (p : Pinger env) (s : State env)
          → PingMoves p s (advance_ping env pool p s).0 (advance_ping env pool p s).1
      unfolding advance_ping fetch execute_ping_with_timeout drop_channel get_held
      advance_ping-Moves waiting s = round-Moves s
      advance_ping-Moves (fetching c) s =
          Moves-weaken env registry channel _ _ s _ _ _ _ (fetch env pool c s).1 (fetched-Pending _)
            (fetched-Uses _)
            (advance-Books env (λ service input_data time w. (some elapsed, w)) registry
              (λ service input_data time w d h. h) (ping_request env pool) channel c s)
      advance_ping-Moves (checking c) s =
          settled-Moves c _ s _ (λ d h. careful (pool.create_service c) s.world d h)
      advance_ping-Moves (leaving c) s =
          ((λ h. h), (λ h. absurd h), (λ h. absurd h), (λ held. absurd (none-ne-some _ held)))
      advance_ping-Moves (reporting e) s = (
        (registry.get_grpc_url-Made pool.service_name s.world channel),
        (λ h. absurd ((logged-nothing _).0 h)),
        (λ h. absurd ((logged-nothing _).1 h)),
        (λ held. inl held),
      )
      advance_ping-Moves (stopped result) s =
          ((λ h. h), (λ h. absurd h), (λ h. absurd h), (λ held. inl held))

    module _ {TService : Type 0} (registry : Registry env) where
      -- A step of any task on its own part of the books.
      pub step-Moves :
          (task : Task env TService)
          → Careful env registry task
          → (place : Place task) (s : State env)
          → Moves env registry channel
              (Stores task place)
              (CallsOn task place)
              s
              (Stores task (take_step task place s).0)
              (CallsOn task (take_step task place s).0)
              (take_step task place s).1
      unfolding take_step
      step-Moves (request TRequest TResponse self executor) careful place s =
          advance-Books env executor registry careful self channel place s
      step-Moves (pinging pool) careful place s = advance_ping-Moves registry pool careful place s

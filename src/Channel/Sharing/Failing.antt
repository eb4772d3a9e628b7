-- ===== src/Channel/Sharing/Failing.antt =====
-- A call that fails in a way for which its channel is to go, and the step of the task behind it.
use my_grpc_extensions.Prelude.{
  ℕ, ◌≡◌, refl, ◌∙◌, true, List, [], ◌∷◌, Option, none, some, Result, ok, err, Timed, elapsed,
  finished, Bool-cases, inl, inr, ◌==◌, arith,
}
use my_grpc_extensions.Channel.Env.{Env, ReadError, timeout, tonic_status}
use my_grpc_extensions.Channel.State.{State}
use my_grpc_extensions.Channel.GrpcChannel.{Executor, needs_drop}
use my_grpc_extensions.Channel.Requests.BuilderWithRetries.{RequestBuilderWithRetries}
use my_grpc_extensions.Channel.Pool.{ping_result, execute_ping_with_timeout}
use my_grpc_extensions.Channel.Sharing.{calling, dropping, answered, advance}
use my_grpc_extensions.Channel.Sharing.Pinger.{checking, leaving, checked, advance_ping}
use my_grpc_extensions.Channel.Sharing.Tasks.{
  Task, request, pinging, Place, take_step, System, turn, run_schedule,
}
use my_grpc_extensions.Channel.Sharing.Turns.{own_turn, turn-cases}
use my_grpc_extensions.Channel.Sharing.Progress.{turns_of}
use my_grpc_extensions.Channel.Sharing.Stepping.{LetsGo}

module _ (env : Env) where
  -- a timeout, or a status with the code Unknown
  abbrev pub BadCall : {TResponse : Type 0} → Option (Timed (Result TResponse env.Status)) → Type 0
  BadCall none = ⊥
  BadCall (some elapsed) = Unit {0}
  BadCall (some (finished (ok response))) = ⊥
  BadCall (some (finished (err status))) = env.code_eq (env.code status) env.unknown ≡ true

  -- a timeout, or a panic
  abbrev pub BadPing : Option (Timed (Unit {0})) → Type 0
  BadPing none = Unit {0}
  BadPing (some elapsed) = Unit {0}
  BadPing (some (finished u)) = ⊥

  checked-leaves :
      (channel : env.Channel) (r : Option (Timed (Unit {0})))
      → BadPing r
      → checked env channel (ping_result r) ≡ leaving channel
  unfolding checked ping_result
  checked-leaves channel none h = refl
  checked-leaves channel (some elapsed) h = refl
  checked-leaves channel (some (finished u)) h = absurd h

  module _ {TService : Type 0} (channel : env.Channel) where
    -- The next step of the task is its call, or its ping, on the channel, and that fails so.
    abbrev pub FailsOn : (task : Task env TService) → Place task → State env → Type 0
    FailsOn (request TRequest TResponse self executor) place s =
        ((n : ℕ) × (place ≡ calling n channel))
        × BadCall
            (executor (self.channel.create_service channel) self.input_contract
              self.channel.request_timeout s.world).0
    FailsOn (pinging pool) place s =
        (place ≡ checking channel)
        × BadPing (pool.ping (pool.create_service channel) pool.ping_timeout s.world).0

    answered-drops :
        {TRequest TResponse : Type 0} (self : RequestBuilderWithRetries env TService TRequest)
        (executor : Executor env TService TRequest TResponse) (n : ℕ)
        (r : Option (Timed (Result TResponse env.Status)))
        → BadCall r
        → (e : ReadError env) × (answered env self executor n channel r ≡ dropping n channel e)
    unfolding answered needs_drop
    answered-drops self executor n none h = absurd h
    answered-drops self executor n (some elapsed) h = (timeout, refl)
    answered-drops self executor n (some (finished (ok response))) h = absurd h
    answered-drops self executor n (some (finished (err status))) h =
        (tonic_status status, rw h refl)

    step-LetsGo :
        (task : Task env TService) (place : Place task) (s : State env)
        → FailsOn task place s
        → LetsGo env channel task (take_step task place s).0
    unfolding take_step advance advance_ping execute_ping_with_timeout
    step-LetsGo (request TRequest TResponse self executor) place s ((n, at), h) =
        let (e, drops) = answered-drops self executor n _ h in (n, e, rw at drops)
    step-LetsGo (pinging pool) place s (at, h) = rw at (checked-leaves channel _ h)

    module _ (tasks : ℕ → Task env TService) (i : ℕ) where
      -- the turn of a call that fails
      pub turn-LetsGo :
          (s : System tasks)
          → FailsOn (tasks i) (s.places i) s.shared
          → LetsGo env channel (tasks i) ((turn tasks i s).places i)
      turn-LetsGo s h = rw (own_turn tasks s i) (step-LetsGo (tasks i) (s.places i) s.shared h)

      -- Between its turns a task stands where it stood.
      pub run_schedule-kept :
          (between : List ℕ) (s : System tasks)
          → turns_of i between ≡ 0
          → (run_schedule tasks between s).places i ≡ s.places i
      unfolding run_schedule
      run_schedule-kept [] s h = refl
      run_schedule-kept (j ∷ between) s h = elim (Bool-cases (j == i)) [
        | inl same ↦ absurd (ground arith)
        | inr other ↦
            let none_left : turns_of i between ≡ 0 = ground arith in
            run_schedule-kept between (turn tasks j s) none_left ∙ elim (turn-cases tasks s j i) [
              | inl (e, _) ↦ absurd (ground arith)
              | inr (_, kept) ↦ kept
            ]
      ]

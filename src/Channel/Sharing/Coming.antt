-- ===== src/Channel/Sharing/Coming.antt =====
-- Each task comes to rest by its own steps, from wherever it stands in a schedule.
use my_grpc_extensions.Prelude.{
  Option, none, some, ℕ, zero, suc, ◌-◌, ◌≤◌, ◌≡◌, ◌≢◌, ◌⊎◌, inl, inr, refl, subst, Outcome,
  returned, failed, panicked, out_of_fuel, Bool, true, false, arith, if◌then◌else◌,
}
use my_grpc_extensions.Channel.Env.{GrpcUrl, Env, ReadError}
use my_grpc_extensions.Channel.State.{State}
use my_grpc_extensions.Channel.Pool.{GrpcChannelPool}
use my_grpc_extensions.Channel.Sharing.{getting, done}
use my_grpc_extensions.Channel.Sharing.Pinger.{
  logged, Pinger, waiting, fetching, checking, leaving, reporting, stopped, fetched, ping_request,
  fetch, advance_ping,
}
use my_grpc_extensions.Channel.Sharing.Tasks.{Task, request, pinging, Place, first_place, take_step}
use my_grpc_extensions.Channel.Sharing.Ending.{Ended, Ends, advance-Ends}
use my_grpc_extensions.Channel.Sharing.Fetching.{Lost}
use my_grpc_extensions.Channel.Sharing.Ranking.{rank, rank-advance, rank-done}
use my_grpc_extensions.Channel.Sharing.Rest.{never, Sound, ping_rank, rank-fetched, rank-checked}
use my_grpc_extensions.Channel.Sharing.Round.{fetch-Goes, check-Goes, rank-first, lookup_rank}
use my_grpc_extensions.Channel.Sharing.Progress.{steps_bound, PingEnds, advance_ping-PingEnds}

zero-cases : (n : ℕ) → (n ≡ 0) ⊎ (1 ≤ n)
zero-cases zero = inl refl
zero-cases (suc n) = inr (omega arith)

module _ (env : Env) {TService : Type 0} where
  -- A request is done, a ping task waits at the top of its loop or has panicked.
  abbrev pub AtRest : (task : Task env TService) → Place task → Type 0
  AtRest (request TRequest TResponse self executor) place =
      (r : Outcome TResponse (ReadError env)) × (place ≡ done r) × (r ≢ out_of_fuel)
  AtRest (pinging pool) place = (place ≡ waiting) ⊎ (place ≡ stopped panicked)

  -- the steps of a task to its rest at most
  abbrev pub turns_to_rest : Task env TService → ℕ
  turns_to_rest (request TRequest TResponse self executor) = steps_bound self.max_attempts_amount
  turns_to_rest (pinging pool) = 13

  -- The task comes to rest within `k` steps of its own.
  abbrev pub Left : ℕ → (task : Task env TService) → Place task → Type 0
  Left k (request TRequest TResponse self executor) place =
      (rank env self executor place ≤ k) × Ends env place
  Left k (pinging pool) place =
      (ping_rank env pool place ≤ k) × Sound env pool place × PingEnds env place

  module _ (pool : GrpcChannelPool env TService) where
    logged-Sound :
        (o : Option GrpcUrl)
        → (ping_rank env pool (logged env o) ≤ 0) × Sound env pool (logged env o)
    unfolding logged
    logged-Sound none = (omega arith, tt)
    logged-Sound (some grpc_url) = (omega arith, tt)

    -- a step from the inside of a round
    ping_rank-advance :
        (p : Pinger env) (s : State env)
        → Sound env pool p
        → 1 ≤ ping_rank env pool p
        → (ping_rank env pool (advance_ping env pool p s).0 ≤ ping_rank env pool p - 1)
          × Sound env pool (advance_ping env pool p s).0
    unfolding advance_ping fetch
    ping_rank-advance waiting s sound h = absurd (omega arith)
    ping_rank-advance (fetching c) s sound h =
        let less : ping_rank env pool (fetched env (fetch env pool c s).0)
            ≤ rank env (ping_request env pool) (never env pool) c - 1 =
          omega (
            arith,
            rank-fetched env pool (fetch env pool c s).0,
            rank-advance env (ping_request env pool) (never env pool) c s,
          ) in
        (less, (fetch-Goes env pool c s sound).1)
    ping_rank-advance (checking channel) s sound h =
        (rank-checked env pool channel _, (check-Goes env pool channel s).1)
    ping_rank-advance (leaving channel) s sound h = (omega arith, tt)
    ping_rank-advance (reporting e) s sound h = logged-Sound _
    ping_rank-advance (stopped result) s sound h = absurd (omega arith)

    stopped-AtRest :
        (r : Outcome (Unit {0}) (ReadError env))
        → Lost r
        → Ended env r
        → AtRest (pinging pool) (stopped r)
    stopped-AtRest (returned u) lost ended = absurd lost
    stopped-AtRest (failed e) lost ended = absurd lost
    stopped-AtRest panicked lost ended = inr refl
    stopped-AtRest out_of_fuel lost ended = absurd ended

    ping_rank-zero :
        (p : Pinger env)
        → ping_rank env pool p ≤ 0
        → Sound env pool p
        → PingEnds env p
        → AtRest (pinging pool) p
    ping_rank-zero waiting h sound ends = inl refl
    ping_rank-zero (fetching c) h sound ends =
        absurd (omega (arith, h, lookup_rank env pool c sound))
    ping_rank-zero (checking channel) h sound ends = absurd (omega arith)
    ping_rank-zero (leaving channel) h sound ends = absurd (omega arith)
    ping_rank-zero (reporting e) h sound ends = absurd (omega arith)
    ping_rank-zero (stopped result) h sound ends = stopped-AtRest result sound ends

    -- the top of the loop
    woken :
        (b : Bool)
        → (ping_rank env pool (if b then fetching (getting 0) else waiting) ≤ 13)
          × Sound env pool (if b then fetching (getting 0) else waiting)
    woken true = (rank-first env pool, tt)
    woken false = (omega arith, tt)

    from_top :
        (p : Pinger env) (s : State env)
        → ping_rank env pool p ≡ 0
        → Sound env pool p
        → (ping_rank env pool (advance_ping env pool p s).0 ≤ 13)
          × Sound env pool (advance_ping env pool p s).0
    unfolding advance_ping
    from_top waiting s h sound = woken pool.enable_ping
    from_top (fetching c) s h sound = absurd (omega (arith, h, lookup_rank env pool c sound))
    from_top (checking channel) s h sound = absurd (omega arith)
    from_top (leaving channel) s h sound = absurd (omega arith)
    from_top (reporting e) s h sound = absurd (omega arith)
    from_top (stopped result) s h sound = (omega arith, sound)

    advance_ping-bounded :
        (p : Pinger env) (s : State env)
        → ping_rank env pool p ≤ 13
        → Sound env pool p
        → (ping_rank env pool (advance_ping env pool p s).0 ≤ 13)
          × Sound env pool (advance_ping env pool p s).0
    advance_ping-bounded p s h sound = elim (zero-cases (ping_rank env pool p)) [
      | inl e ↦ from_top p s e sound
      | inr more ↦
          let (less, next) = ping_rank-advance p s sound more in (omega (arith, less, h), next)
    ]

  -- A task that can come to rest in some steps has come to rest, or its next step takes it nearer.
  pub Left-cases :
      (k : ℕ) (task : Task env TService) (place : Place task)
      → Left (suc k) task place
      → AtRest task place ⊎ ((s : State env) → Left k task (take_step task place s).0)
  unfolding take_step
  Left-cases k (request TRequest TResponse self executor) place (h, ends) = inr (λ s. (
    omega (arith, h, rank-advance env self executor place s),
    advance-Ends env self executor place s ends,
  ))
  Left-cases k (pinging pool) place (h, sound, ends) =
      elim (zero-cases (ping_rank env pool place)) [
        | inl e ↦ inl (ping_rank-zero pool place (omega (arith, e)) sound ends)
        | inr more ↦ inr (λ s.
            let (less, next) = ping_rank-advance pool place s sound more in
            (omega (arith, less, h), next, advance_ping-PingEnds env pool place s ends))
      ]

  pub Left-zero :
      (task : Task env TService) (place : Place task) → Left 0 task place → AtRest task place
  Left-zero (request TRequest TResponse self executor) place (h, ends) =
      let (r, e) = rank-done env self executor place (omega (arith, h)) in
      (r, e, λ fuel. subst (Ended env) fuel (subst (Ends env) e ends))
  Left-zero (pinging pool) place (h, sound, ends) = ping_rank-zero pool place h sound ends

  -- the bound from which a task starts holds wherever it stands
  pub Left-first_place :
      (task : Task env TService) → Left (turns_to_rest task) task (first_place task)
  unfolding rank
  Left-first_place (request TRequest TResponse self executor) = (omega arith, tt)
  Left-first_place (pinging pool) = (omega arith, tt, tt)

  pub Left-take_step :
      (task : Task env TService) (place : Place task) (s : State env)
      → Left (turns_to_rest task) task place
      → Left (turns_to_rest task) task (take_step task place s).0
  unfolding take_step
  Left-take_step (request TRequest TResponse self executor) place s (h, ends) = (
    omega (arith, h, rank-advance env self executor place s),
    advance-Ends env self executor place s ends,
  )
  Left-take_step (pinging pool) place s (h, sound, ends) =
      let (less, next) = advance_ping-bounded pool place s h sound in
      (less, next, advance_ping-PingEnds env pool place s ends)

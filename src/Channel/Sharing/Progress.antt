-- ===== src/Channel/Sharing/Progress.antt =====
-- A request gets to its end by its own steps, whatever the other tasks do between them.
use my_grpc_extensions.Prelude.{
  ℕ, suc, ◌+◌, ◌-◌, ◌*◌, ◌≤◌, ◌≡◌, sym, subst, List, [], ◌∷◌, Option, none, some, Outcome,
  out_of_fuel, ◌==◌, ◌≢◌, ==_iff, arith, if◌then◌else◌, Bool-cases, inl, inr,
}
use my_grpc_extensions.Channel.Env.{GrpcUrl, Env, ReadError}
use my_grpc_extensions.Channel.State.{State}
use my_grpc_extensions.Channel.Pool.{PingResult, ping_ok, ping_timed_out, GrpcChannelPool}
use my_grpc_extensions.Channel.Sharing.{
  Caller, getting, routing, resolved, forwarding, connecting, storing, calling, dropping, failing,
  done,
}
use my_grpc_extensions.Channel.Sharing.Pinger.{
  logged, Pinger, waiting, fetching, checking, leaving, reporting, stopped, fetched, checked,
  ping_request, fetch, advance_ping,
}
use my_grpc_extensions.Channel.Sharing.Tasks.{
  Task, request, pinging, Place, first_place, take_step, System, turn, run_schedule, starting,
}
use my_grpc_extensions.Channel.Sharing.Turns.{own_turn, turn-cases}
use my_grpc_extensions.Channel.Sharing.Ending.{Ended, Ends, advance-Ends}
use my_grpc_extensions.Channel.Sharing.Ranking.{rank, rank-advance, rank-done}

-- The steps that a caller with `max` attempts has at most, from its start.
abbrev pub steps_bound : ℕ → ℕ
steps_bound max = (max - 1) * 13 + 13

-- how often a caller has its turn
abbrev pub turns_of : ℕ → List ℕ → ℕ
turns_of i [] = 0
turns_of i (j ∷ schedule) = if j == i then suc (turns_of i schedule) else turns_of i schedule

module _ (env : Env) where
  -- The task was not stopped for want of fuel.
  abbrev pub PingEnds : Pinger env → Type 0
  PingEnds waiting = Unit {0}
  PingEnds (fetching c) = Ends env c
  PingEnds (checking channel) = Unit {0}
  PingEnds (leaving channel) = Unit {0}
  PingEnds (reporting e) = Unit {0}
  PingEnds (stopped result) = Ended env result

  fetched-PingEnds : (c : Caller env (Unit {0})) → Ends env c → PingEnds (fetched env c)
  unfolding fetched
  fetched-PingEnds (getting n) h = tt
  fetched-PingEnds (routing n) h = tt
  fetched-PingEnds (resolved n url) h = tt
  fetched-PingEnds (forwarding n name session endpoint) h = tt
  fetched-PingEnds (connecting n route round) h = tt
  fetched-PingEnds (storing n host channel) h = tt
  fetched-PingEnds (calling n channel) h = tt
  fetched-PingEnds (dropping n channel e) h = tt
  fetched-PingEnds (failing n e) h = tt
  fetched-PingEnds (done result) h = h

  checked-PingEnds :
      (channel : env.Channel) (result : Option PingResult) → PingEnds (checked env channel result)
  unfolding checked
  checked-PingEnds channel (some ping_ok) = tt
  checked-PingEnds channel (some ping_timed_out) = tt
  checked-PingEnds channel none = tt

  logged-PingEnds : (o : Option GrpcUrl) → PingEnds (logged env o)
  unfolding logged
  logged-PingEnds none = tt
  logged-PingEnds (some grpc_url) = tt

  pub advance_ping-PingEnds :
      {TService : Type 0} (pool : GrpcChannelPool env TService) (p : Pinger env) (s : State env)
      → PingEnds p
      → PingEnds (advance_ping env pool p s).0
  unfolding advance_ping fetch
  advance_ping-PingEnds pool waiting s h = elim (Bool-cases pool.enable_ping) [
    | inl b ↦ rw b tt
    | inr b ↦ rw b tt
  ]
  advance_ping-PingEnds pool (fetching c) s h =
      fetched-PingEnds _ (advance-Ends env (ping_request env pool) _ c s h)
  advance_ping-PingEnds pool (checking channel) s h = checked-PingEnds channel _
  advance_ping-PingEnds pool (leaving channel) s h = tt
  advance_ping-PingEnds pool (reporting e) s h = logged-PingEnds _
  advance_ping-PingEnds pool (stopped result) s h = h

  module _ {TService : Type 0} where
    -- A request can end within `k` steps of its own; a ping task is not stopped for want of fuel.
    abbrev pub EndsWithin : ℕ → (task : Task env TService) → Place task → Type 0
    EndsWithin k (request TRequest TResponse self executor) place =
        (rank env self executor place ≤ k) × Ends env place
    EndsWithin k (pinging pool) place = PingEnds place

    -- the turns that a task needs to its end; a ping task has none
    abbrev pub turns_needed : Task env TService → ℕ
    turns_needed (request TRequest TResponse self executor) = steps_bound self.max_attempts_amount
    turns_needed (pinging pool) = 0

    -- A request is done, with a response, an error or a panic; a ping task has not run out of fuel.
    abbrev pub Finished : (task : Task env TService) → Place task → Type 0
    Finished (request TRequest TResponse self executor) place =
        (r : Outcome TResponse (ReadError env)) × (place ≡ done r) × (r ≢ out_of_fuel)
    Finished (pinging pool) place = place ≢ stopped out_of_fuel

    pub step-EndsWithin :
        (k : ℕ) (task : Task env TService) (place : Place task) (s : State env)
        → EndsWithin k task place
        → EndsWithin (k - 1) task (take_step task place s).0
    unfolding take_step
    step-EndsWithin k (request TRequest TResponse self executor) place s h =
        let less = rank-advance env self executor place s in
        (omega (arith, less, h.0), advance-Ends env self executor place s h.1)
    step-EndsWithin k (pinging pool) place s h = advance_ping-PingEnds pool place s h

    EndsWithin-more :
        (k : ℕ) (task : Task env TService) (place : Place task)
        → EndsWithin (k - 1) task place
        → EndsWithin k task place
    EndsWithin-more k (request TRequest TResponse self executor) place h = (omega (arith, h.0), h.1)
    EndsWithin-more k (pinging pool) place h = h

    pub rank-started :
        (k : ℕ) (task : Task env TService)
        → turns_needed task ≤ k
        → EndsWithin k task (first_place task)
    unfolding rank
    rank-started k (request TRequest TResponse self executor) h = (omega arith, tt)
    rank-started k (pinging pool) h = tt

    pub EndsWithin-Finished :
        (task : Task env TService) (place : Place task)
        → EndsWithin 0 task place
        → Finished task place
    EndsWithin-Finished (request TRequest TResponse self executor) place h =
        let (r, e) = rank-done env self executor place (omega (arith, h.0)) in
        (r, e, λ fuel. subst (Ended env) fuel (subst (Ends env) e h.1))
    EndsWithin-Finished (pinging pool) place h = λ fuel. subst PingEnds fuel h

    module _ (tasks : ℕ → Task env TService) where
      own_turn-EndsWithin :
          (i k : ℕ) (s : System tasks)
          → EndsWithin (suc k) (tasks i) (s.places i)
          → EndsWithin k (tasks i) ((turn tasks i s).places i)
      own_turn-EndsWithin i k s h =
          let less : suc k - 1 ≡ k = omega arith in
          let next = step-EndsWithin (suc k) (tasks i) (s.places i) s.shared h in
          rw (own_turn tasks s i) (
            subst (λ l. EndsWithin l (tasks i) (take_step (tasks i) (s.places i) s.shared).0) less
              next)

      turn-EndsWithin :
          (i j k : ℕ) (s : System tasks)
          → EndsWithin k (tasks i) (s.places i)
          → EndsWithin k (tasks i) ((turn tasks j s).places i)
      turn-EndsWithin i j k s h = elim (turn-cases tasks s j i) [
        | inl (same, e) ↦
            rw e
              (EndsWithin-more k (tasks i) _ (step-EndsWithin k (tasks i) (s.places i) s.shared h))
        | inr (other, e) ↦ rw e h
      ]

      any_turn-EndsWithin :
          (i j k : ℕ) (s : System tasks)
          → EndsWithin (if j == i then suc k else k) (tasks i) (s.places i)
          → EndsWithin k (tasks i) ((turn tasks j s).places i)
      any_turn-EndsWithin i j k s h = elim (Bool-cases (j == i)) [
        | inl b ↦
            let own : EndsWithin (suc k) (tasks i) (s.places i) =
              subst (λ c. EndsWithin (if c then suc k else k) (tasks i) (s.places i)) b h in
            subst (λ l. EndsWithin k (tasks i) ((turn tasks l s).places i)) (sym ((==_iff j i).0 b))
              (own_turn-EndsWithin i k s own)
        | inr b ↦
            turn-EndsWithin i j k s
              (subst (λ c. EndsWithin (if c then suc k else k) (tasks i) (s.places i)) b h)
      ]

      pub run-EndsWithin :
          (i : ℕ) (schedule : List ℕ) (s : System tasks)
          → EndsWithin (turns_of i schedule) (tasks i) (s.places i)
          → EndsWithin 0 (tasks i) ((run_schedule tasks schedule s).places i)
      unfolding run_schedule
      run-EndsWithin i [] s h = h
      run-EndsWithin i (j ∷ schedule) s h =
          run-EndsWithin i schedule _ (any_turn-EndsWithin i j (turns_of i schedule) s h)

      -- The tasks are requests with retries, of any types, and ping tasks. A request that has its turn
      -- often enough is done, with a response, an error or a panic, whatever the other tasks do
      -- before, between and after its turns: with `max` attempts it needs `(max - 1) * 13 + 13` turns
      -- at most. A ping task never runs out of fuel.
      pub run_schedule-Ends :
          (i : ℕ) (schedule : List ℕ) (s : State env)
          → turns_needed (tasks i) ≤ turns_of i schedule
          → Finished (tasks i) ((run_schedule tasks schedule (starting tasks s)).places i)
      run_schedule-Ends i schedule s h = EndsWithin-Finished (tasks i) _ (
          run-EndsWithin i schedule (starting tasks s)
            (rank-started (turns_of i schedule) (tasks i) h))

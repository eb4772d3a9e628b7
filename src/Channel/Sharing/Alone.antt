-- ===== src/Channel/Sharing/Alone.antt =====
-- A request that takes all its steps in a row: what `get_response` gives in one piece.
use my_grpc_extensions.Prelude.{ℕ, zero, suc, ◌+◌, ◌-◌, ◌≤◌, ◌≡◌, sym, ap, ◌∙◌, refl, arith}
use my_grpc_extensions.Channel.Env.{Env}
use my_grpc_extensions.Channel.State.{State}
use my_grpc_extensions.Channel.GrpcChannel.{Executor}
use my_grpc_extensions.Channel.Requests.Retrying.{with_fuel}
use my_grpc_extensions.Channel.Requests.BuilderWithRetries.{RequestBuilderWithRetries, get_response}
use my_grpc_extensions.Channel.Sharing.{Caller, getting, done, advance}
use my_grpc_extensions.Channel.Sharing.Meaning.{meaning, InBounds, meaning-advance}
use my_grpc_extensions.Channel.Sharing.Bounds.{advance-InBounds}
use my_grpc_extensions.Channel.Sharing.Tasks.{Task, request, take_step}
use my_grpc_extensions.Channel.Sharing.Steps.{steps}
use my_grpc_extensions.Channel.Sharing.Ranking.{rank, rank-advance, rank-done}
use my_grpc_extensions.Channel.Sharing.Progress.{steps_bound}

module _ (env : Env) {TService TRequest TResponse : Type 0}
    (self : RequestBuilderWithRetries env TService TRequest)
    (executor : Executor env TService TRequest TResponse) where
  abbrev task : Task env TService
  task = request TRequest TResponse self executor

  steps-meaning :
      (k : ℕ) (c : Caller env TResponse) (s : State env)
      → InBounds env self executor c
      → meaning env self executor (steps k task (c, s)).0 (steps k task (c, s)).1
        ≡ meaning env self executor c s
  unfolding take_step
  steps-meaning zero c s h = refl
  steps-meaning (suc k) c s h =
      let (next, s') = advance env self executor c s in
      steps-meaning k next s' (advance-InBounds env self executor c s h)
      ∙ meaning-advance env self executor c s h

  rank-steps :
      (k : ℕ) (c : Caller env TResponse) (s : State env)
      → rank env self executor c ≤ k
      → rank env self executor (steps k task (c, s)).0 ≡ 0
  unfolding take_step
  rank-steps zero c s h = omega arith
  rank-steps (suc k) c s h =
      let (next, s') = advance env self executor c s in
      rank-steps k next s' (omega (arith, h, rank-advance env self executor c s))

  started :
      (k : ℕ) → steps_bound self.max_attempts_amount ≤ k → rank env self executor (getting 0) ≤ k
  unfolding rank
  started k h = omega arith

  meaning-get_response :
      (s : State env) → meaning env self executor (getting 0) s ≡ get_response env self executor s
  unfolding get_response with_fuel
  meaning-get_response s =
      let e : self.max_attempts_amount + 1 - 0 ≡ self.max_attempts_amount + 1 = omega arith in
      rw e refl

  -- A request at its start that takes `(max - 1) * 13 + 13` steps in a row, or more, is then done
  -- with the outcome of `get_response`, and leaves what `get_response` leaves.
  pub steps-get_response :
      (k : ℕ) (s : State env)
      → steps_bound self.max_attempts_amount ≤ k
      → steps k task (getting 0, s)
        ≡ (done (get_response env self executor s).0, (get_response env self executor s).1)
  steps-get_response k s h =
      let at = steps k task (getting 0, s) in
      let (r, e) = rank-done env self executor at.0 (rank-steps k (getting 0) s (started k h)) in
      let same : (r, at.1) ≡ get_response env self executor s =
        sym (ap (λ c. meaning env self executor c at.1) e)
        ∙ steps-meaning k (getting 0) s (omega arith)
        ∙ meaning-get_response s in
      ap (λ c. (c, at.1)) e ∙ ap (λ p. (done p.0, p.1)) same

-- ===== src/Channel/Sharing/Whole.antt =====
-- A task that is not interrupted does what its operation does in one piece.
use my_grpc_extensions.Prelude.{
  ℕ, suc, ◌-◌, ◌≤◌, ◌≡◌, ◌≢◌, refl, ap, subst, sym, ◌∙◌, arith, Bool-cases, inl, inr, returned,
  if◌then◌else◌,
}
use my_grpc_extensions.Channel.Env.{Env}
use my_grpc_extensions.Channel.State.{State}
use my_grpc_extensions.Channel.Pool.{GrpcChannelPool, ping_round}
use my_grpc_extensions.Channel.Pool.Pinging.{Pings, ping_round-Pings}
use my_grpc_extensions.Channel.GrpcChannel.{execute}
use my_grpc_extensions.Channel.Attempts.{Tries}
use my_grpc_extensions.Channel.Executing.{Leaves}
use my_grpc_extensions.Channel.Requests.Leaving.{get_response-Tries}
use my_grpc_extensions.Channel.Requests.BuilderWithRetries.{get_response}
use my_grpc_extensions.Channel.Sharing.{done}
use my_grpc_extensions.Channel.Sharing.Tasks.{
  Task, request, pinging, Place, first_place, System, run_schedule,
}
use my_grpc_extensions.Channel.Sharing.Steps.{
  turns_in_a_row, steps, seen, in_a_row-steps, in_a_row-others,
}
use my_grpc_extensions.Channel.Sharing.Progress.{steps_bound}
use my_grpc_extensions.Channel.Sharing.Alone.{steps-get_response}
use my_grpc_extensions.Channel.Sharing.Round.{resting, steps-ping_round}

module _ {env : Env} {TService : Type 0} where
  -- What a round of the ping task is to come to: nothing until pings are enabled, and then a holder
  -- that is empty or has a channel whose ping came back.
  abbrev pub AfterRound : GrpcChannelPool env TService → State env → Type 0
  AfterRound pool s =
      if pool.enable_ping
      then Pings env pool s (ping_round env pool s)
      else ping_round env pool s ≡ (returned tt, s)

  -- A request is done with what `get_response` gives from the state, and a ping task is at the end
  -- of what `ping_round` does from it; and these are as they are to be.
  abbrev pub AtEnd : (task : Task env TService) → Place task × State env → State env → Type 0
  AtEnd (request TRequest TResponse self executor) p s =
      (p ≡ (done (get_response env self executor s).0, (get_response env self executor s).1))
      × (Tries (execute env self.channel self.input_contract executor)
            (suc (self.max_attempts_amount - 1)) s (get_response env self executor s)
          × Leaves env (get_response env self executor s))
  AtEnd (pinging pool) p s =
      (p ≡ (resting (ping_round env pool s).0, (ping_round env pool s).1)) × AfterRound pool s

  -- the steps of a request, or of a round of a ping task, at most
  abbrev pub turns_in_one : Task env TService → ℕ
  turns_in_one (request TRequest TResponse self executor) = steps_bound self.max_attempts_amount
  turns_in_one (pinging pool) = 15

  ping_round-AfterRound : (pool : GrpcChannelPool env TService) (s : State env) → AfterRound pool s
  unfolding ping_round
  ping_round-AfterRound pool s = elim (Bool-cases pool.enable_ping) [
    | inl on ↦
        subst
          (λ b.
            (if b
              then Pings env pool s (ping_round env pool s)
              else ping_round env pool s ≡ (returned tt, s)))
          (sym on) (ping_round-Pings env pool s on)
    | inr off ↦ rw off refl
  ]

  steps-AtEnd :
      (task : Task env TService) (s : State env)
      → (k : ℕ) × ((1 ≤ k) × (k ≤ turns_in_one task))
        × AtEnd task (steps k task (first_place task, s)) s
  steps-AtEnd (request TRequest TResponse self executor) s = (
    steps_bound self.max_attempts_amount,
    (omega arith, omega arith),
    (
      steps-get_response env self executor (steps_bound self.max_attempts_amount) s (omega arith),
      get_response-Tries env self executor s,
    ),
  )
  steps-AtEnd (pinging pool) s =
      let (k, less, e) = steps-ping_round env pool s in
      (suc k, (omega arith, omega arith), (e, ping_round-AfterRound pool s))

  -- A task at its start, a request with retries or a ping task at the top of its loop, that has its
  -- turns in a row comes to an end: within `(max - 1) * 13 + 13` steps, a request is done with the
  -- outcome of `get_response` from the shared state that it found; within 15 steps, a ping task is
  -- behind a round, and waits, or is stopped by a panic. The shared state is then the one that
  -- `get_response`, or `ping_round`, leaves, and the other tasks stand where they stood. The request
  -- was executed at most `max_attempts_amount` times, but once at least, again only when it failed;
  -- a response leaves a channel in the holder, a timeout or a transport error an empty holder, and a
  -- status an empty holder exactly if its code is Unknown. The round leaves an empty holder or a
  -- channel whose ping came back, and panics only when the holder was empty and the settings or
  -- `create_channel` panicked; until pings are enabled it does nothing.
  pub in_a_row-AtEnd :
      (tasks : ℕ → Task env TService) (i : ℕ) (s : System tasks)
      → s.places i ≡ first_place (tasks i)
      → (k : ℕ) × ((1 ≤ k) × (k ≤ turns_in_one (tasks i)))
        × AtEnd (tasks i) (seen tasks i (run_schedule tasks (turns_in_a_row k i) s)) s.shared
        × ((j : ℕ) → i ≢ j → (run_schedule tasks (turns_in_a_row k i) s).places j ≡ s.places j)
  in_a_row-AtEnd tasks i s at =
      let (k, bounds, end) = steps-AtEnd (tasks i) s.shared in
      let same = in_a_row-steps tasks i k s ∙ ap (λ p. steps k (tasks i) (p, s.shared)) at in
      (
        k,
        bounds,
        subst (λ p. AtEnd (tasks i) p s.shared) (sym same) end,
        in_a_row-others tasks i k s,
      )

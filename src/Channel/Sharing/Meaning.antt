-- ===== src/Channel/Sharing/Meaning.antt =====
-- What is left to do of a caller that takes all its steps at once: the same as before each step.
use my_grpc_extensions.Prelude.{
  ℕ, suc, ◌+◌, ◌-◌, ◌≤◌, ◌≡◌, refl, sym, ap, ◌∙◌, Result, ok, err, returned, failed, panicked,
  out_of_fuel, Timed, elapsed, finished, and_then, leb, arith, Bool-cases, inl, inr, Option, some,
  none,
}
use my_grpc_extensions.Channel.Env.{Env, tonic_status, ReadError}
use my_grpc_extensions.Channel.State.{State, Returns}
use my_grpc_extensions.Channel.Holder.{drop_channel}
use my_grpc_extensions.Channel.GrpcChannel.{
  Executor, needs_drop, drop_dead_channel, drop_channel_if_needed, get_channel, get_service, settle,
  call_service, execute,
}
use my_grpc_extensions.Channel.Requests.Retrying.{after_call, retry_loop}
use my_grpc_extensions.Channel.Requests.BuilderWithRetries.{RequestBuilderWithRetries}
use my_grpc_extensions.Channel.Sharing.{
  Caller, getting, routing, resolved, forwarding, connecting, storing, calling, dropping, failing,
  done, answered, advance,
}
use my_grpc_extensions.Channel.Sharing.Fetching.{Led, Looking, looked_up, number, advance-Leads}

module _ (env : Env) {TService TRequest TResponse : Type 0}
    (self : RequestBuilderWithRetries env TService TRequest)
    (executor : Executor env TService TRequest TResponse) where
  open env use {Channel, Credentials}

  abbrev pub max : ℕ
  max = self.max_attempts_amount

  -- `execute` on a channel, or on the lack of one
  abbrev serve : Returns env Channel → Returns env TResponse
  serve r =
      and_then (and_then r (λ channel t. (returned (self.channel.create_service channel), t)))
        (call_service env self.channel executor self.input_contract)

  -- the attempt with number `n` and those behind it
  abbrev attempts_from : ℕ → State env → Returns env TResponse
  attempts_from n =
      retry_loop max (execute env self.channel self.input_contract executor) (max + 1 - n) n

  -- the result of the attempt with number `n`, and the attempts behind it
  abbrev next : ℕ → Returns env TResponse → Returns env TResponse
  next n r = after_call max n r (attempts_from (n + 1))

  abbrev pub meaning : Caller env TResponse → State env → Returns env TResponse
  meaning (getting n) s = attempts_from n s
  meaning (routing n) s = next n (serve (looked_up env self executor (routing n) s))
  meaning (resolved n url) s = next n (serve (looked_up env self executor (resolved n url) s))
  meaning (forwarding n name session endpoint) s =
      next n (serve (looked_up env self executor (forwarding n name session endpoint) s))
  meaning (connecting n route round) s =
      next n (serve (looked_up env self executor (connecting n route round) s))
  meaning (storing n host channel) s =
      next n (serve (looked_up env self executor (storing n host channel) s))
  meaning (calling n channel) s = next n (serve (returned channel, s))
  meaning (dropping n channel e) s = next n (failed e, drop_channel env s)
  meaning (failing n e) s = next n (failed e, s)
  meaning (done result) s = (result, s)

  -- The counts are within their bounds.
  abbrev pub InBounds : Caller env TResponse → Type 0
  InBounds (getting n) = n ≤ max
  InBounds (routing n) = n ≤ max
  InBounds (resolved n url) = n ≤ max
  InBounds (forwarding n name session endpoint) = n ≤ max
  InBounds (connecting n route round) = (n ≤ max) × (round ≤ 4)
  InBounds (storing n host channel) = n ≤ max
  InBounds (calling n channel) = n ≤ max
  InBounds (dropping n channel e) = n ≤ max
  InBounds (failing n e) = n ≤ max
  InBounds (done result) = Unit {0}

  -- the loops, with their fuel taken apart
  attempts_from-next :
      (n : ℕ) (s : State env)
      → n ≤ max
      → attempts_from n s ≡ next n (execute env self.channel self.input_contract executor s)
  unfolding retry_loop
  attempts_from-next n s h =
      let e : max + 1 - n ≡ suc (max + 1 - (n + 1)) = omega arith in rw e refl

  -- the attempt of a place that a step of the lookup leads to
  Led-meaning :
      (m : ℕ) (c : Caller env TResponse) (s : State env)
      → Led env self executor m c
      → meaning c s ≡ next m (serve (looked_up env self executor c s))
  unfolding after_call
  Led-meaning m (getting n) s h = absurd h
  Led-meaning m (routing n) s h = rw h refl
  Led-meaning m (resolved n url) s h = rw h refl
  Led-meaning m (forwarding n name session endpoint) s h = rw h refl
  Led-meaning m (connecting n route round) s h = rw h.0 refl
  Led-meaning m (storing n host channel) s h = rw h refl
  Led-meaning m (calling n channel) s h = rw h refl
  Led-meaning m (dropping n channel e) s h = absurd h
  Led-meaning m (failing n e) s h = rw h refl
  Led-meaning m (done (returned r)) s h = absurd h
  Led-meaning m (done (failed e)) s h = absurd h
  Led-meaning m (done panicked) s h = refl
  Led-meaning m (done out_of_fuel) s h = refl

  -- a step of the lookup
  step_of_lookup :
      (c : Caller env TResponse) (s : State env)
      → Looking env self executor c
      → meaning (advance env self executor c s).0 (advance env self executor c s).1
        ≡ next (number env self executor c) (serve (looked_up env self executor c s))
  step_of_lookup c s h =
      let (led, same) = advance-Leads env self executor c s h in
      Led-meaning (number env self executor c) _ _ led
      ∙ ap (λ r. next (number env self executor c) (serve r)) same

  getting_one :
      (n : ℕ) (s : State env)
      → n ≤ max
      → next n (serve (looked_up env self executor (getting n) s)) ≡ attempts_from n s
  unfolding execute get_service get_channel
  getting_one n s h = sym (attempts_from-next n s h)

  advance_answered :
      (n : ℕ) (channel : Channel) (result : Option (Timed (Result TResponse env.Status)))
      (s : State env)
      → meaning (answered env self executor n channel result) s
        ≡ next n (settle env self.channel result s)
  unfolding answered settle drop_dead_channel drop_channel_if_needed after_call
  advance_answered n channel none s = refl
  advance_answered n channel (some elapsed) s = refl
  advance_answered n channel (some (finished (ok response))) s = refl
  advance_answered n channel (some (finished (err status))) s =
      elim (Bool-cases (needs_drop env (tonic_status status))) [
        | inl b ↦ rw b refl
        | inr b ↦ rw b refl
      ]

  retry_or_fail :
      (n : ℕ) (e : ReadError env) (s : State env)
      → meaning
          (advance env self executor (failing n e) s).0
          (advance env self executor (failing n e) s).1
        ≡ next n (failed e, s)
  unfolding advance after_call
  retry_or_fail n e s = elim (Bool-cases (leb max (n + 1))) [
    | inl b ↦ rw b refl
    | inr b ↦ rw b refl
  ]

  advance_calling :
      (n : ℕ) (channel : Channel) (s : State env)
      → meaning
          (advance env self executor (calling n channel) s).0
          (advance env self executor (calling n channel) s).1
        ≡ next n (serve (returned channel, s))
  unfolding advance call_service
  advance_calling n channel s = advance_answered n channel _ _

  -- A step of a caller leaves what is left to do as it is.
  pub meaning-advance :
      (c : Caller env TResponse) (s : State env)
      → InBounds c
      → meaning (advance env self executor c s).0 (advance env self executor c s).1 ≡ meaning c s
  unfolding advance
  meaning-advance (getting n) s h = step_of_lookup (getting n) s tt ∙ getting_one n s h
  meaning-advance (routing n) s h = step_of_lookup (routing n) s tt
  meaning-advance (resolved n url) s h = step_of_lookup (resolved n url) s tt
  meaning-advance (forwarding n name session endpoint) s h =
      step_of_lookup (forwarding n name session endpoint) s tt
  meaning-advance (connecting n route round) s h = step_of_lookup (connecting n route round) s h.1
  meaning-advance (storing n host channel) s h = step_of_lookup (storing n host channel) s tt
  meaning-advance (calling n channel) s h = advance_calling n channel s
  meaning-advance (dropping n channel e) s h = refl
  meaning-advance (failing n e) s h = retry_or_fail n e s
  meaning-advance (done result) s h = refl

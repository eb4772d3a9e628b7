-- ===== src/Channel/Sharing/Round.antt =====
-- A ping task that takes all steps of a round in a row: what `ping_round` gives in one piece.
use my_grpc_extensions.Prelude.{
  Option, none, some, ℕ, zero, suc, ◌≤◌, ◌≡◌, refl, sym, ap, ◌∙◌, Outcome, returned, failed,
  panicked, out_of_fuel, Bool-cases, inl, inr, arith, true, if◌then◌else◌,
}
use my_grpc_extensions.Channel.Env.{GrpcUrl, Env, ReadError}
use my_grpc_extensions.Channel.State.{State}
use my_grpc_extensions.Channel.Pool.{
  reported, GrpcChannelPool, get_pooled, get_or_create_channel, execute_ping_with_timeout,
  ping_channel, ping_round,
}
use my_grpc_extensions.Channel.Pool.Pinging.{get_or_create_channel-get_channel}
use my_grpc_extensions.Channel.Sharing.{
  Caller, getting, routing, resolved, forwarding, connecting, storing, calling, dropping, failing,
  done,
}
use my_grpc_extensions.Channel.Sharing.Pinger.{
  logged, Pinger, waiting, fetching, checking, leaving, reporting, stopped, fetched, checked,
  ping_request, fetch, advance_ping,
}
use my_grpc_extensions.Channel.Sharing.Fetching.{Lost, Looking, number, advance-Leads}
use my_grpc_extensions.Channel.Sharing.Ranking.{rank, rank-advance}
use my_grpc_extensions.Channel.Sharing.Tasks.{Task, pinging, take_step}
use my_grpc_extensions.Channel.Sharing.Steps.{steps}
use my_grpc_extensions.Channel.Sharing.Rest.{
  never, rest, Sound, ping_rank, Goes, fetched-Goes, checked-Goes, rank-fetched, rank-checked,
}

-- where the ping task stands behind a round
abbrev pub resting : {env : Env} → Outcome (Unit {0}) (ReadError env) → Pinger env
resting (returned u) = waiting
resting (failed e) = stopped (failed e)
resting panicked = stopped panicked
resting out_of_fuel = stopped out_of_fuel

module _ (env : Env) {TService : Type 0} (pool : GrpcChannelPool env TService) where
  abbrev task : Task env TService
  task = pinging pool

  -- From a place in the round, within `b` steps the task comes to the end of the round.
  abbrev Rounds : ℕ → Pinger env → State env → Type 0
  Rounds b p s =
      (k : ℕ) × (k ≤ b)
      × (steps k task (p, s) ≡ (resting (rest env pool p s).0, (rest env pool p s).1))

  -- one step more
  one_more :
      (b : ℕ) (p : Pinger env) (s : State env)
      → rest env pool (advance_ping env pool p s).0 (advance_ping env pool p s).1
        ≡ rest env pool p s
      → Rounds b (advance_ping env pool p s).0 (advance_ping env pool p s).1
      → Rounds (suc b) p s
  unfolding take_step
  one_more b p s same (k, less, e) = (suc k, omega arith, e ∙ ap (λ r. (resting r.0, r.1)) same)

  stopped-Rounds :
      (b : ℕ) (r : Outcome (Unit {0}) (ReadError env)) (s : State env)
      → Lost r
      → Rounds b (stopped r) s
  stopped-Rounds b (returned u) s h = absurd h
  stopped-Rounds b (failed e) s h = absurd h
  stopped-Rounds b panicked s h = (0, omega arith, refl)
  stopped-Rounds b out_of_fuel s h = (0, omega arith, refl)

  pub fetch-Goes :
      (c : Caller env (Unit {0})) (s : State env)
      → Looking env (ping_request env pool) (never env pool) c
      → Goes env pool
          (rest env pool (fetching c) s)
          (advance_ping env pool (fetching c) s).0
          (advance_ping env pool (fetching c) s).1
  unfolding advance_ping fetch
  fetch-Goes c s h =
      let (led, same) = advance-Leads env (ping_request env pool) (never env pool) c s h in
      let (goes, sound) =
        fetched-Goes env pool (number env (ping_request env pool) (never env pool) c)
          (fetch env pool c s).0 (fetch env pool c s).1 led in
      (goes ∙ ap (ping_channel env pool) same, sound)

  pub check-Goes :
      (channel : env.Channel) (s : State env)
      → Goes env pool
          (rest env pool (checking channel) s)
          (advance_ping env pool (checking channel) s).0
          (advance_ping env pool (checking channel) s).1
  unfolding advance_ping ping_channel
  check-Goes channel s = checked-Goes env pool channel _ _

  pub lookup_rank :
      (c : Caller env (Unit {0}))
      → Looking env (ping_request env pool) (never env pool) c
      → 4 ≤ rank env (ping_request env pool) (never env pool) c
  unfolding rank
  lookup_rank (getting n) h = omega arith
  lookup_rank (routing n) h = omega arith
  lookup_rank (resolved n url) h = omega arith
  lookup_rank (forwarding n name session endpoint) h = omega arith
  lookup_rank (connecting n route round) h = omega arith
  lookup_rank (storing n host channel) h = omega arith
  lookup_rank (calling n channel) h = absurd h
  lookup_rank (dropping n channel e) h = absurd h
  lookup_rank (failing n e) h = absurd h
  lookup_rank (done result) h = absurd h

  logged_end :
      (o : Option GrpcUrl) (s : State env)
      → ◌≡◌ {A = Pinger env × State env}
          (logged env o, s)
          (resting (reported env o s).0, (reported env o s).1)
  unfolding logged reported
  logged_end none s = refl
  logged_end (some grpc_url) s = refl

  round_from :
      (b : ℕ) (p : Pinger env) (s : State env)
      → Sound env pool p
      → ping_rank env pool p ≤ b
      → Rounds b p s
  unfolding advance_ping fetch ping_channel take_step
  round_from b waiting s sound h = (0, omega arith, refl)
  round_from b (stopped result) s sound h = stopped-Rounds b result s sound
  round_from zero (fetching c) s sound h = absurd (omega (arith, lookup_rank c sound, h))
  round_from zero (checking channel) s sound h = absurd (omega arith)
  round_from zero (leaving channel) s sound h = absurd (omega arith)
  round_from zero (reporting e) s sound h = absurd (omega arith)
  round_from (suc b) (fetching c) s sound h =
      let (same, next) = fetch-Goes c s sound in
      let less : ping_rank env pool (fetched env (fetch env pool c s).0) ≤ b = omega (
        arith,
        h,
        lookup_rank c sound,
        rank-fetched env pool (fetch env pool c s).0,
        rank-advance env (ping_request env pool) (never env pool) c s,
      ) in
      one_more b (fetching c) s same (round_from b _ _ next less)
  round_from (suc b) (checking channel) s sound h =
      let (same, next) = check-Goes channel s in
      let result = (execute_ping_with_timeout env pool (pool.create_service channel) s.world).0 in
      let less : ping_rank env pool (checked env channel result) ≤ b =
        omega (arith, h, rank-checked env pool channel result) in
      one_more b (checking channel) s same (round_from b _ _ next less)
  round_from (suc b) (leaving channel) s sound h = (1, omega arith, refl)
  round_from (suc b) (reporting e) s sound h = (1, omega arith, logged_end _ _)

  pub rank-first : rank env (ping_request env pool) (never env pool) (getting 0) ≤ 13
  unfolding rank ping_request
  rank-first = omega arith

  -- the top of the loop, as the steps and as the round see it
  woken :
      (s : State env)
      → pool.enable_ping ≡ true
      → (advance_ping env pool waiting s ≡ (fetching (getting 0), s))
        × (ping_round env pool s ≡ rest env pool (fetching (getting 0)) s)
  unfolding advance_ping ping_round ping_request get_pooled
  woken s on = (
    ap (λ b. ((if b then fetching (getting 0) else waiting), s)) on,
    ap
          (λ b.
            if b
            then ping_channel env pool (get_or_create_channel env pool s)
            else (returned tt, s))
          on
        ∙ ap (ping_channel env pool) (get_or_create_channel-get_channel env pool s),
  )

  -- A ping task at the top of its loop comes to the end of a round within 14 steps in a row: it then
  -- leaves what `ping_round` leaves, and waits, or is stopped if `ping_round` does not return.
  pub steps-ping_round :
      (s : State env)
      → (k : ℕ) × (k ≤ 14)
        × (steps (suc k) task (waiting, s)
            ≡ (resting (ping_round env pool s).0, (ping_round env pool s).1))
  unfolding take_step advance_ping ping_round rank
  steps-ping_round s = elim (Bool-cases pool.enable_ping) [
    | inl b ↦
        let (k, less, e) = round_from 13 (fetching (getting 0)) s tt rank-first in
        let (step_e, round_e) = woken s b in
        (
          k,
          omega arith,
          ap (λ p. steps k task p) step_e ∙ e ∙ ap (λ r. (resting r.0, r.1)) (sym round_e),
        )
    | inr b ↦ rw b (0, omega arith, refl)
  ]

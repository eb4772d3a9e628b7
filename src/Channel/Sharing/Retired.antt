-- ===== src/Channel/Sharing/Retired.antt =====
-- A channel that a task let go of after a failed call stays out of the holder.
use my_grpc_extensions.Prelude.{
  ℕ, ◌≡◌, ◌≢◌, inl, inr, refl, sym, ◌∙◌, List, [], ◌∷◌, none, some, subst,
}
use my_grpc_extensions.Channel.Env.{Env}
use mathlib.Core.Option.{none-ne-some}
use my_grpc_extensions.Channel.State.{State}
use my_grpc_extensions.Channel.Holder.{get_held, drop_channel}
use my_grpc_extensions.Channel.Sharing.{advance}
use my_grpc_extensions.Channel.Sharing.Pinger.{advance_ping}
use my_grpc_extensions.Channel.Sharing.Tasks.{
  Task, request, pinging, Place, take_step, System, turn, run_schedule, starting, first_place,
}
use my_grpc_extensions.Channel.Sharing.Registry.{Registry, Careful}
use my_grpc_extensions.Channel.Sharing.Books.{Held}
use my_grpc_extensions.Channel.Sharing.Stepping.{Stores, CallsOn, LetsGo}
use my_grpc_extensions.Channel.Sharing.Accounts.{
  Accounted, turn-Moves, turn-Stores, turn-Accounted, run-Accounted,
}
use my_grpc_extensions.Channel.Sharing.Progress.{turns_of}
use my_grpc_extensions.Channel.Sharing.Failing.{FailsOn, turn-LetsGo, run_schedule-kept}

module _ (env : Env) {TService : Type 0} (tasks : ℕ → Task env TService) (registry : Registry env)
    (careful : (i : ℕ) → Careful env registry (tasks i)) (channel : env.Channel) where
  open registry use {Made}

  -- The channel was made, is not in the holder, and no caller has yet to store it.
  abbrev Gone : System tasks → Type 0
  Gone s =
      Made s.shared.world channel
      × (Held env channel s.shared → ⊥)
      × ((j : ℕ) → Stores env channel (tasks j) (s.places j) → ⊥)

  turn-Gone : (i : ℕ) (s : System tasks) → Gone s → Gone (turn tasks i s)
  turn-Gone i s h = (
    (turn-Moves env tasks registry careful channel i s).0 h.0,
    (λ held. elim ((turn-Moves env tasks registry careful channel i s).3 held) [
      | inl before ↦ h.1 before
      | inr mine ↦ h.2 i mine
    ]),
    (λ j waits. elim (turn-Stores env tasks registry careful channel i s j waits) [
      | inl (_, new, _) ↦ new h.0
      | inr (_, before) ↦ h.2 j before
    ]),
  )

  run-Gone : (schedule : List ℕ) (s : System tasks) → Gone s → Gone (run_schedule tasks schedule s)
  unfolding run_schedule
  run-Gone [] s h = h
  run-Gone (i ∷ schedule) s h = run-Gone schedule _ (turn-Gone i s h)

  -- the holder is empty behind the step that lets go of the channel
  emptied :
      (task : Task env TService) (place : Place task) (s : State env)
      → LetsGo env channel task place
      → get_held env (take_step task place s).1 ≡ none
  unfolding take_step advance advance_ping drop_channel get_held
  emptied (request TRequest TResponse self executor) place s (n, e, at) = rw at refl
  emptied (pinging pool) place s at = rw at refl

  let_go-CallsOn :
      (task : Task env TService) (place : Place task)
      → LetsGo env channel task place
      → CallsOn env channel task place
  let_go-CallsOn (request TRequest TResponse self executor) place (n, e, at) = rw at refl
  let_go-CallsOn (pinging pool) place at = rw at refl

  let_go-Gone :
      (i : ℕ) (s : System tasks)
      → Accounted env tasks registry careful channel s
      → LetsGo env channel (tasks i) (s.places i)
      → Gone (turn tasks i s)
  unfolding turn
  let_go-Gone i s h at =
      let calls = let_go-CallsOn (tasks i) (s.places i) at in
      (
        (turn-Moves env tasks registry careful channel i s).0 (h.1 i calls),
        (λ held. none-ne-some _ (sym (emptied (tasks i) (s.places i) s.shared at) ∙ held)),
        (λ j waits. elim (turn-Stores env tasks registry careful channel i s j waits) [
          | inl (_, new, _) ↦ new (h.1 i calls)
          | inr (_, before) ↦ (h.2 j before).2 i calls
        ]),
      )

  nothing_stored : (task : Task env TService) → Stores env channel task (first_place task) → ⊥
  nothing_stored (request TRequest TResponse self executor) h = h
  nothing_stored (pinging pool) h = h

  nothing_called : (task : Task env TService) → CallsOn env channel task (first_place task) → ⊥
  nothing_called (request TRequest TResponse self executor) h = h
  nothing_called (pinging pool) h = h

  -- The tasks are requests with retries, of any types, and ping tasks. When connections give new
  -- channels only, and the channel in the holder at the start, if any, was made before: let the
  -- call of a task on a channel end with a timeout or with the code Unknown, or its ping with a
  -- timeout or a panic. Whatever the other tasks do until the task has its next turn, behind that
  -- turn the channel is out of the holder, and no schedule puts it there again.
  pub dropped-run_schedule :
      (schedule between later : List ℕ) (i : ℕ) (s : State env)
      → (get_held env s ≡ some channel → registry.Made s.world channel)
      → (let failing_call = run_schedule tasks schedule (starting tasks s) in
          FailsOn env channel (tasks i) (failing_call.places i) failing_call.shared)
      → turns_of i between ≡ 0
      → get_held env
          (run_schedule tasks later (
            turn tasks i (
              run_schedule tasks between
                (turn tasks i (run_schedule tasks schedule (starting tasks s)))))).shared
        ≢ some channel
  dropped-run_schedule schedule between later i s made fails waits =
      let failing_call = run_schedule tasks schedule (starting tasks s) in
      let at = run_schedule tasks between (turn tasks i failing_call) in
      let accounted = run-Accounted env tasks registry careful channel schedule (starting tasks s) (
        made,
        (λ j h. absurd (nothing_called (tasks j) h)),
        (λ j h. absurd (nothing_stored (tasks j) h)),
      ) in
      let still =
        run-Accounted env tasks registry careful channel between (turn tasks i failing_call)
          (turn-Accounted env tasks registry careful channel i failing_call accounted) in
      let lets_go =
        subst (LetsGo env channel (tasks i))
          (sym (run_schedule-kept env channel tasks i between (turn tasks i failing_call) waits))
          (turn-LetsGo env channel tasks i failing_call fails) in
      (run-Gone later (turn tasks i at) (let_go-Gone i at still lets_go)).1

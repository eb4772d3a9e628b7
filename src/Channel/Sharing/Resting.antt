-- ===== src/Channel/Sharing/Resting.antt =====
-- Wherever the tasks of a process stand, each of them comes to rest if it has its turns.
use my_grpc_extensions.Prelude.{
  ℕ, zero, suc, ◌≤◌, ◌≡◌, refl, ap, List, [], ◌∷◌, ◌++◌, inl, inr, arith,
}
use my_grpc_extensions.Channel.Env.{Env}
use my_grpc_extensions.Channel.State.{State}
use my_grpc_extensions.Channel.Sharing.Tasks.{Task, System, turn, run_schedule, starting}
use my_grpc_extensions.Channel.Sharing.Turns.{turn-cases}
use my_grpc_extensions.Channel.Sharing.Progress.{turns_of}
use my_grpc_extensions.Channel.Sharing.Coming.{
  AtRest, turns_to_rest, Left, Left-cases, Left-zero, Left-first_place, Left-take_step,
}

module _ (env : Env) {TService : Type 0} (tasks : ℕ → Task env TService) (i : ℕ) where
  -- Behind the first part of the schedule the task is at rest.
  abbrev pub Rests : List ℕ → System tasks → Type 0
  Rests schedule s =
      (before : List ℕ) × (rest : List ℕ) × (schedule ≡ before ++ rest)
      × AtRest env (tasks i) ((run_schedule tasks before s).places i)

  at_once :
      (schedule : List ℕ) (s : System tasks) → AtRest env (tasks i) (s.places i) → Rests schedule s
  unfolding run_schedule
  at_once schedule s h = ([], schedule, refl, h)

  one_turn :
      (j : ℕ) (schedule : List ℕ) (s : System tasks)
      → Rests schedule (turn tasks j s)
      → Rests (j ∷ schedule) s
  unfolding run_schedule
  one_turn j schedule s (before, rest, e, h) = (j ∷ before, rest, ap (◌∷◌ j) e, h)

  turn-Left :
      (j : ℕ) (s : System tasks)
      → Left env (turns_to_rest env (tasks i)) (tasks i) (s.places i)
      → Left env (turns_to_rest env (tasks i)) (tasks i) ((turn tasks j s).places i)
  turn-Left j s h = elim (turn-cases tasks s j i) [
    | inl (same, e) ↦ rw e (Left-take_step env (tasks i) (s.places i) s.shared h)
    | inr (other, e) ↦ rw e h
  ]

  run-Left :
      (schedule : List ℕ) (s : System tasks)
      → Left env (turns_to_rest env (tasks i)) (tasks i) (s.places i)
      → Left env (turns_to_rest env (tasks i)) (tasks i) ((run_schedule tasks schedule s).places i)
  unfolding run_schedule
  run-Left [] s h = h
  run-Left (j ∷ schedule) s h = run-Left schedule _ (turn-Left j s h)

  comes :
      (schedule : List ℕ) (k : ℕ) (s : System tasks)
      → Left env k (tasks i) (s.places i)
      → k ≤ turns_of i schedule
      → Rests schedule s
  comes schedule zero s left h = at_once schedule s (Left-zero env (tasks i) (s.places i) left)
  comes [] (suc k) s left h = absurd (omega arith)
  comes (j ∷ schedule) (suc k) s left h = elim (Left-cases env k (tasks i) (s.places i) left) [
    | inl rest ↦ at_once (j ∷ schedule) s rest
    | inr next ↦ one_turn j schedule s (elim (turn-cases tasks s j i) [
      | inl (same, e) ↦ comes schedule k _ (rw e (next s.shared)) (own_count j k schedule same h)
      | inr (other, e) ↦
          comes schedule (suc k) _ (rw e left) (other_count j (suc k) schedule other h)
    ])
  ]
    where
      own_count :
          (j k : ℕ) (schedule : List ℕ)
          → j ≡ i
          → suc k ≤ turns_of i (j ∷ schedule)
          → k ≤ turns_of i schedule
      own_count j k schedule same h = ground arith

      other_count :
          (j k : ℕ) (schedule : List ℕ)
          → (j ≡ i → ⊥)
          → k ≤ turns_of i (j ∷ schedule)
          → k ≤ turns_of i schedule
      other_count j k schedule other h = ground arith

  -- Wherever a task stands behind some turns of all tasks: if the turns that follow give it enough
  -- of its own, `(max - 1) * 13 + 13` for a request with `max` attempts and 13 for a ping task, it
  -- comes to rest behind a first part of them. A request is then done, with a response, an error or
  -- a panic; a ping task is at the top of its loop, or was stopped by a panic.
  pub run_schedule-Rests :
      (earlier later : List ℕ) (s : State env)
      → turns_to_rest env (tasks i) ≤ turns_of i later
      → Rests later (run_schedule tasks earlier (starting tasks s))
  run_schedule-Rests earlier later s h =
      comes later (turns_to_rest env (tasks i)) _
        (run-Left earlier (starting tasks s) (Left-first_place env (tasks i))) h

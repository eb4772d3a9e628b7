-- ===== src/Channel/Sharing/Steps.antt =====
-- The steps of one task in a row.
use my_grpc_extensions.Prelude.{ℕ, zero, suc, ◌≡◌, ◌≢◌, refl, ap, ◌∙◌, List, [], ◌∷◌, inl, inr}
use my_grpc_extensions.Channel.Env.{Env}
use my_grpc_extensions.Channel.State.{State}
use my_grpc_extensions.Channel.Sharing.Tasks.{Task, Place, take_step, System, turn, run_schedule}
use my_grpc_extensions.Channel.Sharing.Turns.{own_turn, turn-cases}

-- `k` turns of task `i`
abbrev pub turns_in_a_row : ℕ → ℕ → List ℕ
turns_in_a_row zero i = []
turns_in_a_row (suc k) i = i ∷ turns_in_a_row k i

module _ {env : Env} {TService : Type 0} where
  -- `k` steps of a task
  abbrev pub steps :
      ℕ → (task : Task env TService) → Place task × State env → Place task × State env
  steps zero task p = p
  steps (suc k) task p = steps k task (take_step task p.0 p.1)

  module _ (tasks : ℕ → Task env TService) where
    -- a task with what it shares
    abbrev pub seen : (i : ℕ) → System tasks → Place (tasks i) × State env
    seen i s = (s.places i, s.shared)

    pub in_a_row-steps :
        (i k : ℕ) (s : System tasks)
        → seen i (run_schedule tasks (turns_in_a_row k i) s) ≡ steps k (tasks i) (seen i s)
    unfolding run_schedule turn
    in_a_row-steps i zero s = refl
    in_a_row-steps i (suc k) s =
        in_a_row-steps i k (turn tasks i s)
        ∙ ap (λ place. steps k (tasks i) (place, (take_step (tasks i) (s.places i) s.shared).1))
            (own_turn tasks s i)

    pub in_a_row-others :
        (i k : ℕ) (s : System tasks) (j : ℕ)
        → i ≢ j
        → (run_schedule tasks (turns_in_a_row k i) s).places j ≡ s.places j
    unfolding run_schedule
    in_a_row-others i zero s j h = refl
    in_a_row-others i (suc k) s j h =
        in_a_row-others i k (turn tasks i s) j h
        ∙ elim (turn-cases tasks s i j) [ inl (same, e) ↦ absurd (h same) | inr (other, e) ↦ e ]

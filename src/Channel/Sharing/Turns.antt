-- ===== src/Channel/Sharing/Turns.antt =====
-- Whose step a turn is: the task's own, or that of another task.
use my_grpc_extensions.Prelude.{
  ℕ, ◌≡◌, ◌≢◌, ◌⊎◌, inl, inr, refl, Bool-cases, ◌==◌, ==_iff, true, arith,
}
use my_grpc_extensions.Channel.Env.{Env}
use my_grpc_extensions.Channel.Sharing.Tasks.{Task, take_step, System, turn}

pub same-equal : (i : ℕ) → (i == i) ≡ true
same-equal i = ground arith

module _ {env : Env} {TService : Type 0} (tasks : ℕ → Task env TService) where
  -- task `j` after the turn of task `i`
  abbrev pub Stepped : System tasks → ℕ → ℕ → Type 0
  Stepped s i j =
      (i ≡ j) × ((turn tasks i s).places j ≡ (take_step (tasks j) (s.places j) s.shared).0)

  abbrev pub Kept : System tasks → ℕ → ℕ → Type 0
  Kept s i j = (i ≢ j) × ((turn tasks i s).places j ≡ s.places j)

  pub own_turn :
      (s : System tasks) (i : ℕ)
      → (turn tasks i s).places i ≡ (take_step (tasks i) (s.places i) s.shared).0
  unfolding turn
  own_turn s i = rw (same-equal i) refl

  pub turn-cases : (s : System tasks) (i j : ℕ) → Stepped s i j ⊎ Kept s i j
  unfolding turn
  turn-cases s i j = elim (Bool-cases (i == j)) [
    | inl b ↦ inl ((==_iff i j).0 b, rw b refl)
    | inr b ↦ inr ((λ same. ground arith), rw b refl)
  ]

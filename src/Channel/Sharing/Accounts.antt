-- ===== src/Channel/Sharing/Accounts.antt =====
-- Where a channel can be while the tasks of a process share one holder.
use my_grpc_extensions.Prelude.{ℕ, ◌≡◌, ◌≢◌, ◌⊎◌, inl, inr, sym, ◌∙◌, subst, List, [], ◌∷◌}
use my_grpc_extensions.Channel.Env.{Env}
use my_grpc_extensions.Channel.Sharing.Tasks.{Task, System, turn, run_schedule}
use my_grpc_extensions.Channel.Sharing.Turns.{own_turn, turn-cases}
use my_grpc_extensions.Channel.Sharing.Registry.{Registry, Careful}
use my_grpc_extensions.Channel.Sharing.Books.{Held, Moves}
use my_grpc_extensions.Channel.Sharing.Stepping.{Stores, CallsOn, step-Moves}

module _ (env : Env) {TService : Type 0} (tasks : ℕ → Task env TService) (registry : Registry env)
    (careful : (i : ℕ) → Careful env registry (tasks i)) (channel : env.Channel) where
  open registry use {Made}

  -- The channel is known to the transport if it is in the holder or a call is on it. While the
  -- task that made it has yet to store it, no other task has it, and neither has the holder.
  abbrev pub Accounted : System tasks → Type 0
  Accounted s =
      (Held env channel s.shared → Made s.shared.world channel)
      × ((j : ℕ) → CallsOn env channel (tasks j) (s.places j) → Made s.shared.world channel)
      × ((j : ℕ)
          → Stores env channel (tasks j) (s.places j)
          → Made s.shared.world channel
            × (Held env channel s.shared → ⊥)
            × ((k : ℕ) → CallsOn env channel (tasks k) (s.places k) → ⊥)
            × ((k : ℕ) → Stores env channel (tasks k) (s.places k) → j ≡ k))

  -- What the turn of caller `i` does to the channel.
  module _ (i : ℕ) (s : System tasks) where
    abbrev pub after : System tasks
    after = turn tasks i s

    pub turn-Moves :
        Moves env registry channel
          (Stores env channel (tasks i) (s.places i))
          (CallsOn env channel (tasks i) (s.places i))
          s.shared
          (Stores env channel (tasks i) (after.places i))
          (CallsOn env channel (tasks i) (after.places i))
          after.shared
    unfolding turn
    turn-Moves =
        rw (own_turn tasks s i)
          (step-Moves env channel registry (tasks i) (careful i) (s.places i) s.shared)

    pub turn-Stores :
        (j : ℕ)
        → Stores env channel (tasks j) (after.places j)
        → ((i ≡ j) × (Made s.shared.world channel → ⊥) × Made after.shared.world channel)
          ⊎ ((i ≢ j) × Stores env channel (tasks j) (s.places j))
    turn-Stores j h = elim (turn-cases tasks s i j) [
      | inl (same, _) ↦
          let own =
            turn-Moves.1
              (subst (λ k. Stores env channel (tasks k) (after.places k)) (sym same) h) in
          inl (same, own.0, own.1)
      | inr (other, e) ↦ inr (other, subst (Stores env channel (tasks j)) e h)
    ]

    turn-CallsOn :
        (k : ℕ)
        → CallsOn env channel (tasks k) (after.places k)
        → ((l : ℕ) × CallsOn env channel (tasks l) (s.places l))
          ⊎ (Held env channel s.shared ⊎ Stores env channel (tasks i) (s.places i))
    turn-CallsOn k h = elim (turn-cases tasks s i k) [
      | inl (same, _) ↦
          elim (turn-Moves.2
            (subst (λ l. CallsOn env channel (tasks l) (after.places l)) (sym same) h)) [
              | inl uses ↦ inl (i, uses)
              | inr before ↦ inr before
            ]
      | inr (other, e) ↦ inl (k, subst (CallsOn env channel (tasks k)) e h)
    ]

    module _ (h : Accounted s) where
      Held_made : Held env channel after.shared → Made s.shared.world channel
      Held_made held = elim (turn-Moves.3 held) [
        | inl before ↦ h.0 before
        | inr pending ↦ (h.2 i pending).0
      ]

      Uses_made :
          (k : ℕ) → CallsOn env channel (tasks k) (after.places k) → Made s.shared.world channel
      Uses_made k uses = elim (turn-CallsOn k uses) [
        | inl (l, before) ↦ h.1 l before
        | inr (inl held) ↦ h.0 held
        | inr (inr pending) ↦ (h.2 i pending).0
      ]

      -- what a caller has yet to store stays its own in the turn of another caller
      module _ (j : ℕ) (other : i ≢ j) (pending : Stores env channel (tasks j) (s.places j)) where
        not_stored : Stores env channel (tasks i) (s.places i) → ⊥
        not_stored mine = other (sym ((h.2 j pending).3 i mine))

        still_unheld : Held env channel after.shared → ⊥
        still_unheld held = elim (turn-Moves.3 held) [
          | inl before ↦ (h.2 j pending).1 before
          | inr mine ↦ not_stored mine
        ]

        still_unused : (k : ℕ) → CallsOn env channel (tasks k) (after.places k) → ⊥
        still_unused k uses = elim (turn-CallsOn k uses) [
          | inl (l, before) ↦ (h.2 j pending).2 l before
          | inr (inl held) ↦ (h.2 j pending).1 held
          | inr (inr mine) ↦ not_stored mine
        ]

        still_alone : (k : ℕ) → Stores env channel (tasks k) (after.places k) → j ≡ k
        still_alone k waits = elim (turn-Stores k waits) [
          | inl (_, new, _) ↦ absurd (new (h.2 j pending).0)
          | inr (_, before) ↦ (h.2 j pending).3 k before
        ]

      new_alone :
          (Made s.shared.world channel → ⊥)
          → (k : ℕ) → Stores env channel (tasks k) (after.places k)
          → i ≡ k
      new_alone new k waits = elim (turn-Stores k waits) [
        | inl (same, _, _) ↦ same
        | inr (_, before) ↦ absurd (new (h.2 k before).0)
      ]

      pub turn-Accounted : Accounted after
      turn-Accounted = (
        (λ held. turn-Moves.0 (Held_made held)),
        (λ k uses. turn-Moves.0 (Uses_made k uses)),
        (λ j waits. elim (turn-Stores j waits) [
          | inl (same, new, made) ↦ (
            made,
            (λ held. new (Held_made held)),
            (λ k uses. new (Uses_made k uses)),
            (λ k others. sym same ∙ new_alone new k others),
          )
          | inr (other, pending) ↦ (
            turn-Moves.0 (h.2 j pending).0,
            still_unheld j other pending,
            still_unused j other pending,
            still_alone j other pending,
          )
        ]),
      )

  pub run-Accounted :
      (schedule : List ℕ) (s : System tasks)
      → Accounted s
      → Accounted (run_schedule tasks schedule s)
  unfolding run_schedule
  run-Accounted [] s h = h
  run-Accounted (i ∷ schedule) s h = run-Accounted schedule _ (turn-Accounted i s h)

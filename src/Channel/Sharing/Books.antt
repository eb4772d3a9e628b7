-- ===== src/Channel/Sharing/Books.antt =====
-- What a step of a caller does to one channel: where the channel was before it and after it.
use my_grpc_extensions.Prelude.{◌≡◌, ◌⊎◌, inl, sym, ◌∙◌, some}
use my_grpc_extensions.Channel.Env.{Env}
use my_grpc_extensions.Channel.State.{State}
use my_grpc_extensions.Channel.Holder.{get_held}
use my_grpc_extensions.Channel.Sharing.{
  Caller, getting, routing, resolved, forwarding, connecting, storing, calling, dropping, failing,
  done,
}
use my_grpc_extensions.Channel.Sharing.Registry.{Registry}
use my_grpc_extensions.Channel.Sharing.Opening.{Quiet}

module _ (env : Env) where
  open env use {Channel, Credentials}

  abbrev pub Held : Channel → State env → Type 0
  Held channel s = get_held env s ≡ some channel

  module _ {TResponse : Type 0} where
    -- The caller has made the channel and has yet to put it into the holder.
    abbrev pub Pending : Channel → Caller env TResponse → Type 0
    Pending channel (getting n) = ⊥
    Pending channel (routing n) = ⊥
    Pending channel (resolved n url) = ⊥
    Pending channel (forwarding n name session endpoint) = ⊥
    Pending channel (connecting n route round) = ⊥
    Pending channel (storing n host c) = c ≡ channel
    Pending channel (calling n c) = ⊥
    Pending channel (dropping n c e) = ⊥
    Pending channel (failing n e) = ⊥
    Pending channel (done result) = ⊥

    -- The caller's call is on the channel.
    abbrev pub Uses : Channel → Caller env TResponse → Type 0
    Uses channel (getting n) = ⊥
    Uses channel (routing n) = ⊥
    Uses channel (resolved n url) = ⊥
    Uses channel (forwarding n name session endpoint) = ⊥
    Uses channel (connecting n route round) = ⊥
    Uses channel (storing n host c) = ⊥
    Uses channel (calling n c) = c ≡ channel
    Uses channel (dropping n c e) = c ≡ channel
    Uses channel (failing n e) = ⊥
    Uses channel (done result) = ⊥

    abbrev pub Idle : Caller env TResponse → Type 0
    Idle c = (channel : Channel) → (Pending channel c → ⊥) × (Uses channel c → ⊥)

  module _ (registry : Registry env) where
    open registry use {Made}

    -- A channel waits to be stored behind a step only if it is new; a task uses it only if it did
    -- before, found it in the holder or stored it; and it gets into the holder only from the task
    -- that made it. The types say that the task waits to store the channel, and that it uses it.
    abbrev pub Moves : Channel → Type 0 → Type 0 → State env → Type 0 → Type 0 → State env → Type 0
    Moves channel P U s P' U' s' =
        (Made s.world channel → Made s'.world channel)
        × (P' → (Made s.world channel → ⊥) × Made s'.world channel)
        × (U' → U ⊎ (Held channel s ⊎ P))
        × (Held channel s' → Held channel s ⊎ P)

    abbrev pub Books :
        (A : Type 0) → Channel → Caller env A → State env → Caller env A → State env → Type 0
    Books A channel c s c' s' =
        Moves channel (Pending channel c) (Uses channel c) s (Pending channel c') (Uses channel c')
          s'

    -- a task that neither waits to store a channel nor uses one behind its step
    pub Moves-resting :
        (channel : Channel) (P U : Type 0) (s : State env) (P' U' : Type 0) (s' : State env)
        → Quiet env registry s s'
        → (P' → ⊥)
        → (U' → ⊥)
        → Moves channel P U s P' U' s'
    Moves-resting channel P U s P' U' s' quiet unstored unused = (
      quiet.0 channel,
      (λ pending. absurd (unstored pending)),
      (λ uses. absurd (unused uses)),
      (λ held. inl (sym quiet.1 ∙ held)),
    )

    -- less is said of the place behind the step
    pub Moves-weaken :
        (channel : Channel) (P U : Type 0) (s : State env) (P' U' P'' U'' : Type 0) (s' : State env)
        → (P'' → P')
        → (U'' → U')
        → Moves channel P U s P' U' s'
        → Moves channel P U s P'' U'' s'
    Moves-weaken channel P U s P' U' P'' U'' s' p u h =
        (h.0, (λ x. h.1 (p x)), (λ x. h.2 (u x)), h.3)

    pub resting-Books :
        (A : Type 0) (channel : Channel) (c : Caller env A) (s : State env) (c' : Caller env A)
        (s' : State env)
        → Quiet env registry s s'
        → Idle c'
        → Books A channel c s c' s'
    resting-Books A channel c s c' s' quiet idle =
        Moves-resting channel (Pending channel c) (Uses channel c) s (Pending channel c')
          (Uses channel c') s' quiet (idle channel).0 (idle channel).1

  -- a caller that neither waits to store a channel nor uses one
  pub nothing : Channel → (⊥ → ⊥) × (⊥ → ⊥)
  nothing channel = ((λ h. h), (λ h. h))

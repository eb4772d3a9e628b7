-- ===== src/Streams/Writer/Written.antt =====
-- What the calls on a writer and its producers put into the channel of the response.
use my_grpc_extensions.Prelude.{
  ℕ, ◌≡◌, refl, sym, ap, ◌∙◌, subst, List, [], ◌∷◌, ◌++◌, append-nil, append_assoc, map, Option,
  none, some, Option-cases, inl, inr, Result, ok, err,
}
use my_grpc_extensions.Streams.ServerStreams.{SendTimeoutError, appended}
use my_grpc_extensions.Streams.Writer.{
  Sender, StreamedResponseWriter, unwrap_sent, write, write_error, produce, Write, writes, produces,
  fails, write_step, write_all,
}

module _ {Status TResult : Type 0} (tx : Sender (Result TResult Status)) where
  open tx use {Chan, accepted}

  abbrev pub Message : Type 0
  Message = Result TResult Status

  abbrev pub Writer : Type 0
  Writer = StreamedResponseWriter tx

  abbrev pub Call : Type 0
  Call = Write tx

  abbrev pub message : Call → Message
  message (writes itm) = ok itm
  message (produces item) = ok item
  message (fails status) = err status

  -- No send fails.
  abbrev pub IsReliable : Type 0
  IsReliable = (m : Message) (time : ℕ) (c : Chan) → (tx.send_timeout m time c).0 ≡ none

  -- The messages of all calls in order, of which those of producers may be lost.
  pub data Takes : List Call → List Message → Type 0 where
    nothing_left : Takes [] []
    taken :
        {ws : List Call} {ms : List Message} (w : Call)
        → Takes ws ms
        → Takes (w ∷ ws) (message w ∷ ms)
    lost :
        {ws : List Call} {ms : List Message} (item : TResult)
        → Takes ws ms
        → Takes (produces item ∷ ws) ms

  -- Either a send failed and the call panicked, or the channel took the messages, all of them if no
  -- send failed.
  abbrev pub Written : List Call → Writer → Option Writer → Type 0
  Written ws self none = IsReliable → ⊥
  Written ws self (some next) =
      (ms : List Message) × Takes ws ms
      × (accepted next.chan ≡ accepted self.chan ++ ms)
      × (IsReliable → ms ≡ map message ws)

  unwrap_sent-Written :
      (w : Call) (self : Writer) (r : Option SendTimeoutError × Chan)
      → tx.send_timeout (message w) self.time_out self.chan ≡ r
      → accepted r.1 ≡ appended r.0 (message w) (accepted self.chan)
      → Written (w ∷ []) self (unwrap_sent tx r self)
  unfolding unwrap_sent
  unwrap_sent-Written w self (none, c) e h =
      (message w ∷ [], taken w nothing_left, h, λ reliable. refl)
  unwrap_sent-Written w self (some broken, c) e h =
      λ reliable. cc (reliable (message w) self.time_out self.chan, ap (λ p. p.0) e)

  produced-Written :
      (item : TResult) (self : Writer) (r : Option SendTimeoutError × Chan)
      → tx.send_timeout (ok item) self.time_out self.chan ≡ r
      → accepted r.1 ≡ appended r.0 (ok item) (accepted self.chan)
      → Written (produces item ∷ []) self (some (record self { chan = r.1 }))
  produced-Written item self (none, c) e h =
      (ok item ∷ [], taken (produces item) nothing_left, h, λ reliable. refl)
  produced-Written item self (some broken, c) e h = (
    [],
    lost item nothing_left,
    h ∙ sym (append-nil (accepted self.chan)),
    λ reliable. absurd (cc (reliable (ok item) self.time_out self.chan, ap (λ p. p.0) e)),
  )

  write_step-Written : (w : Call) (self : Writer) → Written (w ∷ []) self (write_step tx w self)
  unfolding write_step write write_error produce
  write_step-Written (writes itm) self =
      unwrap_sent-Written (writes itm) self _ refl
        (tx.accepted-send_timeout (ok itm) self.time_out self.chan)
  write_step-Written (fails status) self =
      unwrap_sent-Written (fails status) self _ refl
        (tx.accepted-send_timeout (err status) self.time_out self.chan)
  write_step-Written (produces item) self =
      produced-Written item self _ refl (tx.accepted-send_timeout (ok item) self.time_out self.chan)

  Takes-append :
      (w : Call) (ws : List Call) (ms ns : List Message)
      → Takes (w ∷ []) ms
      → Takes ws ns
      → Takes (w ∷ ws) (ms ++ ns)
  Takes-append _ ws _ ns (taken w nothing_left) b = taken w b
  Takes-append _ ws _ ns (lost item nothing_left) b = lost item b

  then-Written :
      (w : Call) (ws : List Call) (self next : Writer) (r : Option Writer)
      → Written (w ∷ []) self (some next)
      → Written ws next r
      → Written (w ∷ ws) self r
  then-Written w ws self next none first rest = rest
  then-Written w ws self next (some after) (ms, a, e, all) (ns, b, f, rest) = (
    ms ++ ns,
    Takes-append w ws ms ns a b,
    f ∙ ap (λ xs. xs ++ ns) e ∙ append_assoc (accepted self.chan) ms ns,
    λ reliable. rw (all reliable) (ap (◌∷◌ (message w)) (rest reliable)),
  )

  -- The calls on a writer and its producers, one after the other: if none panics, the messages of
  -- all calls are put into the channel of the response in order, except that a producer's may be
  -- lost; all are put there, and no call panics, if no send fails.
  pub write_all-Written : (ws : List Call) (self : Writer) → Written ws self (write_all tx ws self)
  unfolding write_all
  write_all-Written [] self =
      ([], nothing_left, sym (append-nil (accepted self.chan)), λ reliable. refl)
  write_all-Written (w ∷ ws) self = elim (Option-cases (write_step tx w self)) [
    | inl e ↦ rw (e, write_all) (subst (Written (w ∷ []) self) e (write_step-Written w self))
    | inr (next, e) ↦
        rw (e, write_all)
          (then-Written w ws self next (write_all tx ws next)
            (subst (Written (w ∷ []) self) e (write_step-Written w self))
            (write_all-Written ws next))
  ]

-- ===== src/Streams/Writer/Unread.antt =====
-- A writer whose result has not been taken: nothing reads its channel, which has room for as many
-- messages as `new` was told.
use my_grpc_extensions.Prelude.{
  ℕ, zero, suc, ◌+◌, ◌≤◌, ◌<◌, ◌≡◌, refl, sym, ap, ◌∙◌, List, [], ◌∷◌, ◌++◌, append-nil,
  append_assoc, length, length-append, Option, none, some, Result, ok, err, arith,
}
use mathlib.Core.Option
use mathlib.Core.Option.{none-ne-some}
use my_grpc_extensions.Streams.ServerStreams.{SendTimeoutError, timed_out, appended}
use my_grpc_extensions.Streams.Writer.{
  Sender, StreamedResponseWriter, new_writer, unwrap_sent, write, write_error, produce, Write,
  writes, produces, fails, write_step, write_all,
}
use my_grpc_extensions.Streams.Writer.Written.{message}

module _ {Status TResult : Type 0} (tx : Sender (Result TResult Status)) where
  open tx use {Chan, accepted}

  -- tokio::sync::mpsc while nothing receives: a send finds room, or it waits until its timeout.
  pub record Unread : Type 0 where
    pub capacity : Chan → ℕ
    pub capacity-channel : (size : ℕ) → 1 ≤ size → capacity (tx.channel size) ≡ size
    pub capacity-send_timeout :
        (m : Result TResult Status) (time : ℕ) (c : Chan)
        → capacity (tx.send_timeout m time c).1 ≡ capacity c
    pub send_timeout-room :
        (m : Result TResult Status) (time : ℕ) (c : Chan)
        → length (accepted c) < capacity c
        → (tx.send_timeout m time c).0 ≡ none
    pub send_timeout-full :
        (m : Result TResult Status) (time : ℕ) (c : Chan)
        → capacity c ≤ length (accepted c)
        → (tx.send_timeout m time c).0 ≡ some timed_out

  -- What is in the channel behind the calls, with room for so many messages: a writer's call beyond
  -- the room panics, a producer's is lost.
  abbrev pub filled : ℕ → List (Write tx) → Option (List (Result TResult Status))
  filled room [] = some []
  filled zero (writes itm ∷ ws) = none
  filled zero (fails status ∷ ws) = none
  filled zero (produces item ∷ ws) = filled zero ws
  filled (suc room) (w ∷ ws) = Option.map (◌∷◌ (message tx w)) (filled room ws)

  -- what is in the channel, unless a call has panicked
  abbrev pub contents : Option (StreamedResponseWriter tx) → Option (List (Result TResult Status))
  contents r = Option.map (λ self. accepted self.chan) r

  module _ (unread : Unread) where
    -- the room that is left
    abbrev Room : ℕ → Chan → Type 0
    Room room c = unread.capacity c ≡ length (accepted c) + room

    -- one send
    sent-Room :
        (m : Result TResult Status) (time room : ℕ) (c : Chan)
        → Room (suc room) c
        → ((tx.send_timeout m time c).0 ≡ none)
          × (accepted (tx.send_timeout m time c).1 ≡ accepted c ++ m ∷ [])
          × Room room (tx.send_timeout m time c).1
    sent-Room m time room c h =
        let sent = unread.send_timeout-room m time c (omega arith) in
        let there : accepted (tx.send_timeout m time c).1 ≡ accepted c ++ m ∷ [] =
          tx.accepted-send_timeout m time c ∙ ap (λ r. appended r m (accepted c)) sent in
        (
          sent,
          there,
          unread.capacity-send_timeout m time c
              ∙ rw (there, length-append (accepted c) (m ∷ [])) (omega arith),
        )

    sent_full :
        (m : Result TResult Status) (time : ℕ) (c : Chan)
        → Room zero c
        → ((tx.send_timeout m time c).0 ≡ some timed_out)
          × (accepted (tx.send_timeout m time c).1 ≡ accepted c)
          × Room zero (tx.send_timeout m time c).1
    sent_full m time c h =
        let sent = unread.send_timeout-full m time c (omega arith) in
        let there : accepted (tx.send_timeout m time c).1 ≡ accepted c =
          tx.accepted-send_timeout m time c ∙ ap (λ r. appended r m (accepted c)) sent in
        (sent, there, unread.capacity-send_timeout m time c ∙ rw there h)

    -- the `unwrap` of a send
    unwrap_sent-none :
        (self : StreamedResponseWriter tx) (r : Option SendTimeoutError × Chan)
        → r.0 ≡ none
        → unwrap_sent tx r self ≡ some (record self { chan = r.1 })
    unfolding unwrap_sent
    unwrap_sent-none self (none, c) h = refl
    unwrap_sent-none self (some e, c) h = absurd (none-ne-some _ (sym h))

    unwrap_sent-some :
        (self : StreamedResponseWriter tx) (r : Option SendTimeoutError × Chan)
        → r.0 ≡ some timed_out
        → unwrap_sent tx r self ≡ none
    unfolding unwrap_sent
    unwrap_sent-some self (none, c) h = absurd (none-ne-some _ h)
    unwrap_sent-some self (some e, c) h = refl

    -- the writer behind a call that does not panic
    abbrev behind : Write tx → StreamedResponseWriter tx → StreamedResponseWriter tx
    behind w self = record self {
      chan = (tx.send_timeout (message tx w) self.time_out self.chan).1;
    }

    write_step-Room :
        (w : Write tx) (self : StreamedResponseWriter tx) (room : ℕ)
        → Room (suc room) self.chan
        → write_step tx w self ≡ some (behind w self)
    unfolding write_step write write_error produce
    write_step-Room (writes itm) self room h =
        unwrap_sent-none self _ (sent-Room (ok itm) self.time_out room self.chan h).0
    write_step-Room (produces item) self room h = refl
    write_step-Room (fails status) self room h =
        unwrap_sent-none self _ (sent-Room (err status) self.time_out room self.chan h).0

    pushed :
        (xs : List (Result TResult Status)) (m : Result TResult Status)
        (o : Option (List (Result TResult Status)))
        → Option.map (λ ms. (xs ++ m ∷ []) ++ ms) o
          ≡ Option.map (λ ms. xs ++ ms) (Option.map (◌∷◌ m) o)
    pushed xs m none = refl
    pushed xs m (some ms) = ap some (append_assoc xs (m ∷ []) ms)

    full_write :
        (itm : TResult) (self : StreamedResponseWriter tx)
        → Room zero self.chan
        → write_step tx (writes itm) self ≡ none
    unfolding write_step write
    full_write itm self h = unwrap_sent-some self _ (sent_full (ok itm) self.time_out self.chan h).0

    full_error :
        (status : Status) (self : StreamedResponseWriter tx)
        → Room zero self.chan
        → write_step tx (fails status) self ≡ none
    unfolding write_step write_error
    full_error status self h =
        unwrap_sent-some self _ (sent_full (err status) self.time_out self.chan h).0

    -- The calls that follow put their messages behind what is there.
    write_all-filled :
        (ws : List (Write tx)) (self : StreamedResponseWriter tx) (room : ℕ)
        → Room room self.chan
        → contents (write_all tx ws self)
          ≡ Option.map (λ ms. accepted self.chan ++ ms) (filled room ws)
    unfolding write_all
    write_all-filled [] self room h = ap some (sym (append-nil (accepted self.chan)))
    write_all-filled (w ∷ ws) self (suc room) h =
        let (sent, there, less) = sent-Room (message tx w) self.time_out room self.chan h in
        rw (write_all, write_step-Room w self room h)
          (write_all-filled ws (behind w self) room less
            ∙ ap (λ xs. Option.map (λ ms. xs ++ ms) (filled room ws)) there
            ∙ pushed (accepted self.chan) (message tx w) (filled room ws))
    write_all-filled (writes itm ∷ ws) self zero h = rw (write_all, full_write itm self h) refl
    write_all-filled (fails status ∷ ws) self zero h = rw (write_all, full_error status self h) refl
    write_all-filled (produces item ∷ ws) self zero h =
        let (sent, there, less) = sent_full (ok item) self.time_out self.chan h in
        write_all-filled ws (behind (produces item) self) zero less
        ∙ ap (λ xs. Option.map (λ ms. xs ++ ms) (filled zero ws)) there

    -- While nothing reads it, the channel of a new writer takes as many messages as it was made for,
    -- in the order of the calls: each call of the writer beyond them panics, for an item and for an
    -- error alike, and the item of a producer is lost without a panic. No call panics, and nothing is
    -- lost, before the channel is full.
    pub write_all-new_writer :
        (size : ℕ) (ws : List (Write tx))
        → 1 ≤ size
        → contents (write_all tx ws (new_writer tx size)) ≡ filled size ws
    unfolding new_writer
    write_all-new_writer size ws h =
        write_all-filled ws (new_writer tx size) size
          (unread.capacity-channel size h ∙ rw (tx.accepted-channel size) (omega arith))
        ∙ ap (λ xs. Option.map (λ ms. xs ++ ms) (filled size ws)) (tx.accepted-channel size)
        ∙ unchanged (filled size ws)
      where
        unchanged : (o : Option (List (Result TResult Status))) → Option.map (λ ms. [] ++ ms) o ≡ o
        unchanged none = refl
        unchanged (some ms) = refl

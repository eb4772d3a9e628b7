-- ===== src/Streams/ServerStreams.antt =====
-- my-grpc-extensions/src/grpc_server_streams.rs: the tasks that fill the stream of a response. The
-- stream that is returned at once is the other end of the task's channel.
pub mod Sending
pub mod Chunks
use my_grpc_extensions.Prelude.{
  ℕ, ◌*◌, Bool, List, [], ◌∷◌, ◌++◌, Option, none, some, Result, ok, length, ltb, if◌then◌else◌,
  ◌≡◌,
}

pub data SendTimeoutError : Type 0 where
  timed_out closed : SendTimeoutError

-- what the channel has accepted, behind `xs`, when a send of `m` ends so
abbrev pub appended : {M : Type 0} → Option SendTimeoutError → M → List M → List M
appended none m xs = xs ++ m ∷ []
appended (some e) m xs = xs

-- tokio::sync::mpsc: a channel of some capacity, and `send_timeout` with the timeout of 30
-- seconds. `accepted` is what was put into the channel, in order: an item exactly if its send
-- succeeds. The receiver takes its items from the front of that; those that it has not taken when it
-- hangs up it never gets.
pub record Mpsc (M : Type 0) : Type 1 where
  pub Chan : Type 0
  pub channel : ℕ → Chan
  pub accepted : Chan → List M
  pub send_timeout : M → Chan → Option SendTimeoutError × Chan
  pub accepted-channel : (size : ℕ) → accepted (channel size) ≡ []
  pub accepted-send_timeout :
      (m : M) (c : Chan)
      → accepted (send_timeout m c).1 ≡ appended (send_timeout m c).0 m (accepted c)

abbrev pub channel_size : ℕ
channel_size = 100

-- `isize::MAX` of a 64-bit target
abbrev pub isize_max : ℕ
isize_max = 9223372036854775807

-- whether Vec::with_capacity panics for items of that size; that memory may run out is left out
abbrev pub capacity_overflow : ℕ → ℕ → Bool
capacity_overflow size_of capacity = ltb isize_max (capacity * size_of)

module _ {Status TDest : Type 0} (tx : Mpsc (Result TDest Status)) where
  open tx use {Chan}

  -- create_empty_stream: the sender is dropped at once
  unfoldable pub create_empty_stream : Chan
  create_empty_stream = tx.channel 1

  -- send_single_item_to_stream
  unfoldable pub send_single_item_to_stream : TDest → Chan
  send_single_item_to_stream item = (tx.send_timeout (ok item) (tx.channel 1)).1

  -- the end of a loop's round: an error breaks the loop
  unfoldable pub go_on :
      {S : Type 0} → Option SendTimeoutError × Chan → S → (Chan → S × Chan) → S × Chan
  go_on (none, c) broken next = next c
  go_on (some e, c) broken next = (broken, c)

  module _ {TSrc : Type 0} where
    unfoldable pub send_loop : (TSrc → TDest) → List TSrc → Chan → Unit {0} × Chan
    send_loop mapping [] c = (tt, c)
    send_loop mapping (itm ∷ src) c =
        go_on (tx.send_timeout (ok (mapping itm)) c) tt (send_loop mapping src)

    unfoldable pub send_from_iterator_with_transformation : List TSrc → (TSrc → TDest) → Chan
    send_from_iterator_with_transformation src mapping =
        (send_loop mapping src (tx.channel channel_size)).1

    -- deprecated
    unfoldable pub send_vec_to_stream : List TSrc → (TSrc → TDest) → Chan
    send_vec_to_stream src mapping = send_from_iterator_with_transformation src mapping

    -- `into` is `TDest: From<TSrc>`
    unfoldable pub send_from_iterator : (TSrc → TDest) → List TSrc → Chan
    send_from_iterator into src = (send_loop into src (tx.channel channel_size)).1

  -- the entries in the order in which the map gives them
  unfoldable pub send_hash_map_to_stream :
      {TKeySrc TValueSrc : Type 0}
      → List (TKeySrc × TValueSrc)
      → (TKeySrc → TValueSrc → TDest)
      → Chan
  send_hash_map_to_stream src mapping =
      (send_loop (λ (entry : _ × _). mapping entry.0 entry.1) src (tx.channel channel_size)).1

module _ {Status TSrc TDest TDestChunk : Type 0} (tx : Mpsc (Result TDestChunk Status)) where
  open tx use {Chan}

  module _ (chunk_size : ℕ) (mapping : TSrc → TDest)
      (transform_to_contract : List TDest → TDestChunk) where
    -- the chunk that is left, and the channel
    unfoldable pub chunk_loop : List TSrc → List TDest → Chan → List TDest × Chan
    chunk_loop [] chunk c = (chunk, c)
    chunk_loop (itm ∷ src) chunk c =
        let filled = chunk ++ mapping itm ∷ [] in
        let wait = chunk_loop src filled c in
        let send =
          go_on tx (tx.send_timeout (ok (transform_to_contract filled)) c) [] (chunk_loop src []) in
        if ltb (length filled) chunk_size then wait else send

    unfoldable pub send_rest : List TDest × Chan → Chan
    send_rest (chunk, c) =
        if ltb 0 (length chunk) then (tx.send_timeout (ok (transform_to_contract chunk)) c).1 else c

    -- The size of a `TDest` comes first. A panic of the task drops its sender.
    unfoldable pub send_vec_to_stream_by_chunks : ℕ → List TSrc → Chan
    unfolding send_rest
    send_vec_to_stream_by_chunks size_of src =
        if capacity_overflow size_of chunk_size
        then tx.channel channel_size
        else send_rest (chunk_loop src [] (tx.channel channel_size))

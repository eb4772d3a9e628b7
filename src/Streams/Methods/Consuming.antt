-- ===== src/Streams/Methods/Consuming.antt =====
-- The methods that read item by item, against what the stream delivers.
use my_grpc_extensions.Prelude.{
  ℕ, ◌≡◌, refl, ap, ◌∙◌, List, [], ◌∷◌, ◌++◌, append-nil, append_assoc, map, Option, none, some, ok,
  err, Outcome, panicked, to_outcome, elapsed, finished, codes,
}
use my_grpc_extensions.Channel.Env.{GrpcReadError, tonic_status}
use my_grpc_extensions.Streams.Streaming.{Streaming, StreamedResponse}
use my_grpc_extensions.Streams.Reading.Received.{received, failure, unless}
use my_grpc_extensions.Streams.Methods.{
  Statuses, timeout_status, next_answer, keep_single, single_loop, get_single_item, reader_answer,
  push_item, reader_loop, reader_into_vec,
}

module _ {Status TransportError : Type 0} (statuses : Statuses Status) where
  -- the failure of a method of `StreamedResponse`: a timeout is the status that it makes
  abbrev pub item_failure :
      {T : Type 0} → ℕ → Streaming Status T → Option (GrpcReadError Status TransportError)
  item_failure time_out = failure (tonic_status (timeout_status statuses time_out)) tonic_status

  -- none, one or more items in front of a failure
  abbrev pub single :
      {TResult : Type 0}
      → Option (GrpcReadError Status TransportError)
      → List TResult
      → Outcome (Option TResult) (GrpcReadError Status TransportError)
  single f [] = to_outcome (unless f none)
  single f (item ∷ []) = to_outcome (unless f (some item))
  single f (item ∷ next ∷ items) = panicked

  module _ {T TResult : Type 0} (from : T → TResult) where
    single_loop-kept :
        (time_out : ℕ) (kept : TResult) (s : Streaming Status T)
        → single_loop statuses from time_out s (some kept)
          ≡ single (item_failure time_out s) (kept ∷ map from (received s))
    unfolding single_loop keep_single next_answer
    single_loop-kept time_out kept [] = refl
    single_loop-kept time_out kept (elapsed ∷ s) = refl
    single_loop-kept time_out kept (finished (err e) ∷ s) = refl
    single_loop-kept time_out kept (finished (ok item) ∷ s) = refl

    single_loop-received :
        (time_out : ℕ) (s : Streaming Status T)
        → single_loop statuses from time_out s none
          ≡ single (item_failure time_out s) (map from (received s))
    unfolding single_loop keep_single next_answer
    single_loop-received time_out [] = refl
    single_loop-received time_out (elapsed ∷ s) = refl
    single_loop-received time_out (finished (err e) ∷ s) = refl
    single_loop-received time_out (finished (ok item) ∷ s) = single_loop-kept time_out (from item) s

    -- `get_single_item` gives the one item of a stream, or none of an empty stream; it panics
    -- exactly if a second item arrives before the first failure, and fails with that failure
    -- else. A timeout is reported as a status, never as the error Timeout.
    pub get_single_item-received :
        (self : StreamedResponse Status T)
        → get_single_item statuses from self
          ≡ single (item_failure self.time_out self.stream) (map from (received self.stream))
    unfolding get_single_item
    get_single_item-received self = single_loop-received self.time_out self.stream

module _ {Status T TResult : Type 0} (statuses : Statuses Status) (from : T → TResult) where
  reader_loop-received :
      (time_out : ℕ) (result : List TResult) (s : Streaming Status T)
      → reader_loop statuses from time_out s result
        ≡ unless
            (failure
              (statuses.unavailable (codes "Timeout: " ++ statuses.debug time_out))
              (λ e. e)
              s)
            (result ++ map from (received s))
  unfolding reader_loop push_item reader_answer
  reader_loop-received time_out result [] = rw append-nil
  reader_loop-received time_out result (elapsed ∷ s) = refl
  reader_loop-received time_out result (finished (err e) ∷ s) = refl
  reader_loop-received time_out result (finished (ok item) ∷ s) =
      reader_loop-received time_out (result ++ from item ∷ []) s
      ∙ ap (unless _) (append_assoc result (from item ∷ []) (map from (received s)))

  -- A server that reads a request's stream into a vector gets all of its items, converted and in
  -- order, if no poll fails; else the status of the first poll that fails, which is Unavailable
  -- with the reader's timeout if that poll timed out.
  pub reader_into_vec-received :
      (time_out : ℕ) (s : Streaming Status T)
      → reader_into_vec statuses from time_out s
        ≡ unless
            (failure
              (statuses.unavailable (codes "Timeout: " ++ statuses.debug time_out))
              (λ e. e)
              s)
            (map from (received s))
  unfolding reader_into_vec
  reader_into_vec-received time_out s = reader_loop-received time_out [] s

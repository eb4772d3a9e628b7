-- ===== src/Streams/Methods.antt =====
-- The methods of grpc_channel/streamed_response.rs and streamed_request_reader.rs. Their timeouts
-- become statuses, with the timeout printed by `{:?}`.
pub mod Consuming
use my_grpc_extensions.Prelude.{
  ℕ, List, [], ◌∷◌, ◌++◌, Option, none, some, Bytes, Result, ok, err, Outcome, returned, failed,
  panicked, Timed, elapsed, finished, codes,
}
use my_grpc_extensions.Channel.Env.{GrpcReadError, tonic_status}
use my_grpc_extensions.Streams.Streaming.{Streaming, StreamedResponse}
use my_grpc_extensions.Streams.Reading.{
  Read, MapOps, as_vec, as_vec_with_transformation, as_hash_map, as_b_tree_map,
}

-- tonic::Status::aborted and unavailable, and `{:?}` of a Duration
pub record Statuses (Status : Type 0) : Type 0 where
  pub aborted : Bytes → Status
  pub unavailable : Bytes → Status
  pub debug : ℕ → Bytes

-- std::collections::HashSet
pub record SetOps (K : Type 0) : Type 1 where
  pub HashSet : Type 0
  pub empty : HashSet
  pub insert : K → HashSet → HashSet

module _ {Status T : Type 0} where
  -- StreamedResponse::new
  unfoldable pub new_response : Streaming Status T → ℕ → StreamedResponse Status T
  new_response stream time_out = record { stream = stream; time_out = time_out }

  unfoldable pub set_response_timeout : StreamedResponse Status T → ℕ → StreamedResponse Status T
  set_response_timeout self time_out = record self { time_out = time_out }

  unfoldable pub get_response_timeout : StreamedResponse Status T → ℕ
  get_response_timeout self = self.time_out

  module _ {TransportError : Type 0} where
    unfoldable pub into_vec_with_transformation :
        {TDest : Type 0}
        → (T → TDest)
        → StreamedResponse Status T
        → Read Status TransportError (List TDest)
    into_vec_with_transformation transform self = as_vec_with_transformation self.stream transform

    module _ {TKey TResult : Type 0} (ops : MapOps TKey TResult) where
      unfoldable pub into_hash_map :
          (T → TKey × TResult) → StreamedResponse Status T → Read Status TransportError ops.Map
      into_hash_map get_key self = as_hash_map ops self.stream get_key

      unfoldable pub into_b_tree_map :
          (T → TKey × TResult) → StreamedResponse Status T → Read Status TransportError ops.Map
      into_b_tree_map get_key self = as_b_tree_map ops self.stream get_key

-- streamed_request_reader.rs
pub record StreamedRequestReader (Status TItem : Type 0) : Type 0 where
  pub stream : Streaming Status TItem
  pub timeout : ℕ

module _ {Status T : Type 0} where
  -- StreamedRequestReader::new, with its timeout in seconds
  unfoldable pub new_request_reader : Streaming Status T → StreamedRequestReader Status T
  new_request_reader stream = record { stream = stream; timeout = 20 }

  unfoldable pub set_reader_timeout :
      StreamedRequestReader Status T → ℕ → StreamedRequestReader Status T
  set_reader_timeout self value = record self { timeout = value }

unfoldable pub timeout_status : {Status : Type 0} → Statuses Status → ℕ → Status
timeout_status statuses time_out = statuses.aborted (codes "Timeout " ++ statuses.debug time_out)

module _ {Status T : Type 0} (statuses : Statuses Status) where
  -- one answer of `get_next_item`, from what the poll gave
  unfoldable pub next_answer : ℕ → Timed (Result T Status) → Result T Status
  next_answer time_out elapsed = err (timeout_status statuses time_out)
  next_answer time_out (finished result) = result

  unfoldable pub get_next_item :
      StreamedResponse Status T → Option (Result T Status) × StreamedResponse Status T
  get_next_item self = elim self.stream [
    | [] ↦ (none, self)
    | poll ∷ rest ↦ (some (next_answer self.time_out poll), record self { stream = rest })
  ]

  module _ {TransportError TResult : Type 0} where
    -- the body of `while let Some(item) = self.get_next_item().await` in get_single_item; `rest`
    -- is the next round
    unfoldable pub keep_single :
        (T → TResult)
        → Option TResult
        → Result T Status
        → (Option TResult → Outcome (Option TResult) (GrpcReadError Status TransportError))
        → Outcome (Option TResult) (GrpcReadError Status TransportError)
    keep_single from result (err e) rest = failed (tonic_status e)
    keep_single from none (ok item) rest = rest (some (from item))
    keep_single from (some kept) (ok item) rest = panicked

    unfoldable pub single_loop :
        (T → TResult)
        → ℕ
        → Streaming Status T
        → Option TResult
        → Outcome (Option TResult) (GrpcReadError Status TransportError)
    single_loop from time_out [] result = returned result
    single_loop from time_out (poll ∷ stream) result =
        keep_single from result (next_answer time_out poll) (single_loop from time_out stream)

    unfoldable pub get_single_item :
        (T → TResult)
        → StreamedResponse Status T
        → Outcome (Option TResult) (GrpcReadError Status TransportError)
    get_single_item from self = single_loop from self.time_out self.stream none

    unfoldable pub into_vec :
        (T → TResult) → StreamedResponse Status T → Read Status TransportError (List TResult)
    into_vec from self = as_vec from self.stream

  module _ {TransportError TKey : Type 0} (sets : SetOps TKey) where
    unfoldable pub insert_item :
        (T → TKey)
        → Result T Status
        → sets.HashSet
        → (sets.HashSet → Read Status TransportError sets.HashSet)
        → Read Status TransportError sets.HashSet
    insert_item convert (err e) result rest = err (tonic_status e)
    insert_item convert (ok item) result rest = rest (sets.insert (convert item) result)

    unfoldable pub set_loop :
        (T → TKey) → ℕ → Streaming Status T → sets.HashSet → Read Status TransportError sets.HashSet
    set_loop convert time_out [] result = ok result
    set_loop convert time_out (poll ∷ stream) result =
        insert_item convert (next_answer time_out poll) result (set_loop convert time_out stream)

    unfoldable pub into_hash_set :
        (T → TKey) → StreamedResponse Status T → Read Status TransportError sets.HashSet
    into_hash_set convert self = set_loop convert self.time_out self.stream sets.empty

  unfoldable pub reader_answer : ℕ → Timed (Result T Status) → Result T Status
  reader_answer time_out elapsed =
      err (statuses.unavailable (codes "Timeout: " ++ statuses.debug time_out))
  reader_answer time_out (finished result) = result

  -- StreamedRequestReader::get_next
  unfoldable pub reader_next :
      StreamedRequestReader Status T → Option (Result T Status) × StreamedRequestReader Status T
  unfolding reader_answer
  reader_next self = elim self.stream [
    | [] ↦ (none, self)
    | poll ∷ rest ↦ (some (reader_answer self.timeout poll), record self { stream = rest })
  ]

  module _ {TResult : Type 0} where
    unfoldable pub push_item :
        (T → TResult)
        → Result T Status
        → List TResult
        → (List TResult → Result (List TResult) Status)
        → Result (List TResult) Status
    push_item from (err e) result rest = err e
    push_item from (ok item) result rest = rest (result ++ from item ∷ [])

    unfoldable pub reader_loop :
        (T → TResult) → ℕ → Streaming Status T → List TResult → Result (List TResult) Status
    reader_loop from time_out [] result = ok result
    reader_loop from time_out (poll ∷ stream) result =
        push_item from (reader_answer time_out poll) result (reader_loop from time_out stream)

    -- StreamedRequestReader::into_vec
    unfoldable pub reader_into_vec :
        (T → TResult) → ℕ → Streaming Status T → Result (List TResult) Status
    reader_into_vec from timeout stream = reader_loop from timeout stream []

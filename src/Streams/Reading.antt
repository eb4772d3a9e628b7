-- ===== src/Streams/Reading.antt =====
-- my-grpc-extensions/src/read_grpc_stream.rs, and the methods of streamed_response.rs and
-- streamed_request_reader.rs that read a stream to its end. Each loop polls the stream until its
-- first failure or its end.
pub mod Received
pub mod Maps
use my_grpc_extensions.Prelude.{
  Bool, List, [], ◌∷◌, ◌++◌, Option, none, some, Result, ok, err, ◌≡◌, if◌then◌else◌, elapsed,
  finished,
}
use my_grpc_extensions.Channel.Env.{GrpcReadError, timeout, tonic_status}
use my_grpc_extensions.Streams.Streaming.{Streaming}

-- std::collections::{HashMap, BTreeMap}: what the readers call, and what the maps promise
pub record MapOps (K V : Type 0) : Type 1 where
  pub Map : Type 0
  pub key_eq : K → K → Bool
  pub empty : Map
  pub insert : K → V → Map → Map
  pub get : K → Map → Option V
  pub get-empty : (k : K) → get k empty ≡ none
  pub get-insert :
      (k j : K) (v : V) (m : Map) → get k (insert j v m) ≡ (if key_eq j k then some v else get k m)

abbrev pub Read : Type 0 → Type 0 → Type 0 → Type 0
Read Status TransportError A = Result A (GrpcReadError Status TransportError)

unfoldable pub push_some : {A : Type 0} → Option A → List A → List A
push_some none result = result
push_some (some item) result = result ++ item ∷ []

module _ {Status TransportError : Type 0} where
  module _ {T TDest : Type 0} where
    unfoldable pub as_vec_loop :
        (T → TDest) → List TDest → Streaming Status T → Read Status TransportError (List TDest)
    as_vec_loop from result [] = ok result
    as_vec_loop from result (elapsed ∷ stream_to_read) = err timeout
    as_vec_loop from result (finished (ok item) ∷ stream_to_read) =
        as_vec_loop from (result ++ from item ∷ []) stream_to_read
    as_vec_loop from result (finished (err e) ∷ stream_to_read) = err (tonic_status e)

    -- `from` is `TDest: From<T>`
    unfoldable pub as_vec :
        (T → TDest) → Streaming Status T → Read Status TransportError (List TDest)
    unfolding as_vec_loop
    as_vec from stream_to_read = as_vec_loop from [] stream_to_read

    unfoldable pub transformation_loop :
        (T → TDest) → List TDest → Streaming Status T → Read Status TransportError (List TDest)
    transformation_loop transform result [] = ok result
    transformation_loop transform result (elapsed ∷ stream_to_read) = err timeout
    transformation_loop transform result (finished (ok item) ∷ stream_to_read) =
        transformation_loop transform (result ++ transform item ∷ []) stream_to_read
    transformation_loop transform result (finished (err e) ∷ stream_to_read) = err (tonic_status e)

    unfoldable pub as_vec_with_transformation :
        Streaming Status T → (T → TDest) → Read Status TransportError (List TDest)
    unfolding transformation_loop
    as_vec_with_transformation stream_to_read transform =
        transformation_loop transform [] stream_to_read

    unfoldable pub filter_loop :
        (T → Option TDest)
        → List TDest
        → Streaming Status T
        → Read Status TransportError (List TDest)
    unfolding push_some
    filter_loop transform result [] = ok result
    filter_loop transform result (elapsed ∷ stream_to_read) = err timeout
    filter_loop transform result (finished (ok item) ∷ stream_to_read) =
        filter_loop transform (push_some (transform item) result) stream_to_read
    filter_loop transform result (finished (err e) ∷ stream_to_read) = err (tonic_status e)

    unfoldable pub as_vec_with_transformation_and_filter :
        Streaming Status T → (T → Option TDest) → Read Status TransportError (List TDest)
    unfolding filter_loop
    as_vec_with_transformation_and_filter stream_to_read transform =
        filter_loop transform [] stream_to_read

  unfoldable pub first_or_none :
      {T : Type 0} → Streaming Status T → Read Status TransportError (Option T)
  first_or_none [] = ok none
  first_or_none (elapsed ∷ streaming) = err timeout
  first_or_none (finished (ok item) ∷ streaming) = ok (some item)
  first_or_none (finished (err e) ∷ streaming) = err (tonic_status e)

  module _ {TSrc TKey TResult : Type 0} (ops : MapOps TKey TResult) where
    open ops use {Map, empty, insert}

    unfoldable pub map_loop :
        (TSrc → TKey × TResult) → Map → Streaming Status TSrc → Read Status TransportError Map
    map_loop get_key result [] = ok result
    map_loop get_key result (elapsed ∷ stream_to_read) = err timeout
    map_loop get_key result (finished (ok item) ∷ stream_to_read) =
        let (key, value) = get_key item in map_loop get_key (insert key value result) stream_to_read
    map_loop get_key result (finished (err e) ∷ stream_to_read) = err (tonic_status e)

    unfoldable pub as_hash_map :
        Streaming Status TSrc → (TSrc → TKey × TResult) → Read Status TransportError Map
    unfolding map_loop
    as_hash_map stream_to_read get_key = map_loop get_key empty stream_to_read

    unfoldable pub b_tree_map_loop :
        (TSrc → TKey × TResult) → Map → Streaming Status TSrc → Read Status TransportError Map
    b_tree_map_loop get_key result [] = ok result
    b_tree_map_loop get_key result (elapsed ∷ stream_to_read) = err timeout
    b_tree_map_loop get_key result (finished (ok item) ∷ stream_to_read) =
        let (key, value) = get_key item in
        b_tree_map_loop get_key (insert key value result) stream_to_read
    b_tree_map_loop get_key result (finished (err e) ∷ stream_to_read) = err (tonic_status e)

    unfoldable pub as_b_tree_map :
        Streaming Status TSrc → (TSrc → TKey × TResult) → Read Status TransportError Map
    unfolding b_tree_map_loop
    as_b_tree_map stream_to_read get_key = b_tree_map_loop get_key empty stream_to_read

-- ===== src/Examples/Streams.antt =====
-- Streams of a few numbers.
use my_grpc_extensions.Prelude.{
  ℕ, ◌+◌, ◌≡◌, refl, List, [], ◌∷◌, ◌++◌, map, Option, none, some, Result, ok, replicate, codes,
  true, false, ltb, if◌then◌else◌,
}
use my_grpc_extensions.Streams.StreamedRequest.{
  as_stream, initialized, StreamedRequest, new_as_vec, new_as_stream, deliver, at_link, send_to,
  send_in, send, set_stream_sender, set_sender, send_all, get_consumer, send_eof, Event, sends,
  consumes, step, run,
}
use my_grpc_extensions.Streams.StreamedRequest.Delivery.{all_received, buffered, run_delivers}
use my_grpc_extensions.Streams.StreamedRequest.Rebinding.{link, run_consumes_vec, send-send_eof}
use my_grpc_extensions.Streams.Reading.{as_hash_map, as_b_tree_map}
use my_grpc_extensions.Streams.Reading.Received.{received, read_failure, failure, unless}
use my_grpc_extensions.Streams.Reading.Maps.{last_value, as_hash_map-received}
use my_grpc_extensions.Streams.Methods.{get_single_item, reader_into_vec}
use my_grpc_extensions.Streams.Methods.Consuming.{
  item_failure, single, get_single_item-received, reader_into_vec-received,
}
use my_grpc_extensions.Streams.ServerStreams.{
  send_from_iterator_with_transformation, send_from_iterator, send_vec_to_stream_by_chunks,
}
use my_grpc_extensions.Streams.ServerStreams.Sending.{
  AcceptsPrefix, send_from_iterator-AcceptsPrefix,
}
use my_grpc_extensions.Streams.ServerStreams.Chunks.{
  AcceptsChunks, send_vec_to_stream_by_chunks-Accepts,
}
use my_grpc_extensions.Streams.Writer.{Write, writes, produces, fails, new_writer, write_all}
use my_grpc_extensions.Streams.Writer.Written.{Written, write_all-Written}
use my_grpc_extensions.Examples.Fixtures.{steady, answers, statuses, functions, reliable}

-- an item, a consumer, an item, a second consumer, an item
abbrev retried : List (Event ℕ)
retried = sends 1 ∷ consumes none ∷ sends 2 ∷ consumes none ∷ sends 3 ∷ []

abbrev after_retry : StreamedRequest ℕ
after_retry = record {
  inner = as_stream (initialized (some 1));
  links = link (3 ∷ []) true ∷ link (1 ∷ 2 ∷ []) false ∷ [];
  channel_size = 1024;
}

run_delivers_example : all_received after_retry.links ++ buffered after_retry.inner ≡ 1 ∷ 2 ∷ 3 ∷ []
unfolding run step send send_in send_to set_sender set_stream_sender get_consumer new_as_stream
    deliver at_link send_all
run_delivers_example = run_delivers retried after_retry tt refl

run_consumes_vec_example :
    run {TItem = ℕ} (replicate 2 (consumes none)) (record (new_as_vec (1 ∷ 2 ∷ [])) { links = [] })
    ≡ some
        (record (new_as_vec (1 ∷ 2 ∷ [])) { links = replicate 2 (link (1 ∷ 2 ∷ []) false) ++ [] })
run_consumes_vec_example = run_consumes_vec 2 (1 ∷ 2 ∷ []) []

send-send_eof_example : send 4 (send_eof after_retry) ≡ none
send-send_eof_example = send-send_eof 4 after_retry tt

abbrev halves : ℕ → Option ℕ
halves n = if ltb 5 n then some (n + 1) else none

as_hash_map-received_example :
    (m : functions.Map) × (as_hash_map {TransportError = ℕ} functions answers (λ n. (n, n + 1))
      ≡ unless (read_failure answers) m)
    × (as_b_tree_map {TransportError = ℕ} functions answers (λ n. (n, n + 1))
        ≡ unless (read_failure answers) m)
    × ((k : ℕ)
        → functions.get k m
          ≡ last_value functions.key_eq k (map (λ n. (n, n + 1)) (received answers)))
as_hash_map-received_example = as_hash_map-received functions (λ n. (n, n + 1)) answers

get_single_item-received_example :
    get_single_item statuses {TransportError = ℕ}
      (λ n. n + 1)
      (record { stream = answers; time_out = 5 })
    ≡ single statuses (item_failure statuses 5 answers) (map (λ n. n + 1) (received answers))
get_single_item-received_example =
    get_single_item-received statuses (λ n. n + 1) (record { stream = answers; time_out = 5 })

reader_into_vec-received_example :
    reader_into_vec statuses (λ n. n + 1) 5 answers
    ≡ unless
        (failure (statuses.unavailable (codes "Timeout: " ++ statuses.debug 5)) (λ e. e) answers)
        (map (λ n. n + 1) (received answers))
reader_into_vec-received_example = reader_into_vec-received statuses (λ n. n + 1) 5 answers

send_from_iterator-AcceptsPrefix_example :
    AcceptsPrefix
      (reliable {M = Result ℕ ℕ})
      (ok 2 ∷ ok 3 ∷ [])
      []
      (send_from_iterator_with_transformation {Status = ℕ} reliable (1 ∷ 2 ∷ []) (λ n. n + 1))
    × AcceptsPrefix
        (reliable {M = Result ℕ ℕ})
        (ok 2 ∷ ok 3 ∷ [])
        []
        (send_from_iterator {Status = ℕ} reliable (λ n. n + 1) (1 ∷ 2 ∷ []))
send_from_iterator-AcceptsPrefix_example =
    send_from_iterator-AcceptsPrefix reliable (λ n. n + 1) (1 ∷ 2 ∷ [])

send_vec_to_stream_by_chunks-Accepts_example :
    AcceptsChunks (reliable {M = Result (List ℕ) ℕ}) ok 2 (2 ∷ 3 ∷ 4 ∷ []) [] (
      send_vec_to_stream_by_chunks {Status = ℕ} reliable 2
        (λ n. n + 1)
        (λ chunk. chunk)
        8
        (1 ∷ 2 ∷ 3 ∷ []))
send_vec_to_stream_by_chunks-Accepts_example =
    send_vec_to_stream_by_chunks-Accepts reliable 2 (λ n. n + 1) (λ chunk. chunk) 8 (1 ∷ 2 ∷ 3 ∷ [])

abbrev two_writes : List (Write steady)
two_writes = writes 1 ∷ produces 2 ∷ fails 3 ∷ []

write_all-Written_example :
    Written steady two_writes
      (new_writer steady 16)
      (write_all steady two_writes (new_writer steady 16))
write_all-Written_example = write_all-Written steady two_writes (new_writer steady 16)

-- ===== src/Streams/Reading/Received.antt =====
-- The readers of read_grpc_stream.rs against what a stream delivers up to its first failure.
use my_grpc_extensions.Prelude.{
  List, [], ◌∷◌, ◌++◌, Option, none, some, Result, ok, err, elapsed, finished,
}
use my_grpc_extensions.Channel.Env.{GrpcReadError, timeout, tonic_status}
use my_grpc_extensions.Streams.Streaming.{Streaming}
use my_grpc_extensions.Streams.Reading.{push_some}

-- the items in front of the first failure or the end
abbrev pub received : {Status T : Type 0} → Streaming Status T → List T
received [] = []
received (finished (ok item) ∷ stream) = item ∷ received stream
received (finished (err e) ∷ stream) = []
received (elapsed ∷ stream) = []

-- the first failure, with the error for a timeout
abbrev pub failure : {Status T E : Type 0} → E → (Status → E) → Streaming Status T → Option E
failure on_timeout on_status [] = none
failure on_timeout on_status (finished (ok item) ∷ stream) = failure on_timeout on_status stream
failure on_timeout on_status (finished (err e) ∷ stream) = some (on_status e)
failure on_timeout on_status (elapsed ∷ stream) = some on_timeout

abbrev pub unless : {A E : Type 0} → Option E → A → Result A E
unless none a = ok a
unless (some e) a = err e

abbrev pub kept : {A B : Type 0} → (A → Option B) → List A → List B
kept f [] = []
kept f (x ∷ xs) = push_some (f x) [] ++ kept f xs

module _ {Status TransportError : Type 0} where
  abbrev pub read_failure :
      {T : Type 0} → Streaming Status T → Option (GrpcReadError Status TransportError)
  read_failure = failure timeout tonic_status

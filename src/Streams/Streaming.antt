-- ===== src/Streams/Streaming.antt =====
-- tonic::Streaming as its reader sees it, and grpc_channel/streamed_response.rs: StreamedResponse.
use my_grpc_extensions.Prelude.{ℕ, List, Result, Timed}

-- What each successive `tokio::time::timeout(..., stream.next())` gives while there is something
-- to come: an item, a status, or the timeout. Behind the list the stream has ended.
abbrev pub Streaming : Type 0 → Type 0 → Type 0
Streaming Status A = List (Timed (Result A Status))

pub record StreamedResponse (Status TItem : Type 0) : Type 0 where
  pub stream : Streaming Status TItem
  pub time_out : ℕ

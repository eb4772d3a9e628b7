-- ===== src/Telemetry.antt =====
-- my-grpc-extensions/src/grpc_client_interceptor.rs, and get_telemetry of
-- grpc_server_telemetry_context.rs: how a client's telemetry context comes to the server.
pub mod RoundTrip
pub mod ServerContext
use my_grpc_extensions.Prelude.{
  ℕ, ◌+◌, ◌≡◌, Bool, true, false, List, [], ◌∷◌, ◌++◌, Option, none, some, Bytes, codes, bytes_eq,
  ltb, ◌==◌, if◌then◌else◌,
}
use my_grpc_extensions.Channel.Ssh.{insert}

-- has_multiple_ids
unfoldable pub has_multiple_ids : Bytes → Bool
has_multiple_ids [] = false
has_multiple_ids (b ∷ src) = if b == b',' then true else has_multiple_ids src

-- i64 with `to_string` and `parse`
pub record Ids : Type 1 where
  pub ProcessId : Type 0
  pub to_text : ProcessId → Bytes
  pub parse_id : Bytes → Option ProcessId
  pub parse_id-to_text : (id : ProcessId) → parse_id (to_text id) ≡ some id
  pub parse_empty : parse_id [] ≡ none
  pub to_text_digits : (id : ProcessId) → has_multiple_ids (to_text id) ≡ false

-- my_telemetry::MyTelemetryContext
pub data MyTelemetryContext (ProcessId : Type 0) : Type 0 where
  single : ProcessId → MyTelemetryContext ProcessId
  multiple : List ProcessId → MyTelemetryContext ProcessId
  empty : MyTelemetryContext ProcessId

-- the values of a MetadataMap, by their keys
unfoldable pub get_metadata : Bytes → List (Bytes × Bytes) → Option Bytes
get_metadata k [] = none
get_metadata k ((j, v) ∷ metadata) = if bytes_eq j k then some v else get_metadata k metadata

-- `split(',')`; `piece` is what has been read of the current piece
unfoldable pub split_commas : Bytes → Bytes → List Bytes
split_commas piece [] = piece ∷ []
split_commas piece (b ∷ src) =
    let apart = split_commas [] src in
    let longer = split_commas (piece ++ b ∷ []) src in if b == b',' then piece ∷ apart else longer

module _ (ids : Ids) where
  open ids use {ProcessId, to_text, parse_id}

  -- the loop of GrpcClientInterceptor::to_string
  unfoldable pub ids_loop : ℕ → Bytes → List ProcessId → Bytes
  ids_loop index result [] = result
  ids_loop index result (id ∷ rest) =
      ids_loop (index + 1) ((if ltb 0 index then result ++ b',' ∷ [] else result) ++ to_text id)
        rest

  -- GrpcClientInterceptor::to_string
  unfoldable pub context_to_string : MyTelemetryContext ProcessId → Option Bytes
  context_to_string (single process_id) = some (to_text process_id)
  context_to_string (multiple all) = some (ids_loop 0 [] all)
  context_to_string empty = none

  insert_text : Option Bytes → List (Bytes × Bytes) → List (Bytes × Bytes)
  insert_text none metadata = metadata
  insert_text (some process_id) metadata = insert (codes "process-id") process_id metadata

  -- GrpcClientInterceptor::call, on the metadata of the request
  unfoldable pub call : MyTelemetryContext ProcessId → List (Bytes × Bytes) → List (Bytes × Bytes)
  unfolding insert_text
  call ctx metadata = insert_text (context_to_string ctx) metadata

  push_id : Option ProcessId → List ProcessId → List ProcessId
  push_id none parsed = parsed
  push_id (some id) parsed = id ∷ parsed

  unfoldable pub parse_ids : List Bytes → List ProcessId
  unfolding push_id
  parse_ids [] = []
  parse_ids (itm ∷ items) = push_id (parse_id itm) (parse_ids items)

  or_empty : Option ProcessId → MyTelemetryContext ProcessId
  or_empty none = empty
  or_empty (some id) = single id

  unfoldable pub context_of : Option Bytes → MyTelemetryContext ProcessId
  unfolding or_empty
  context_of none = empty
  context_of (some process_id) =
      if has_multiple_ids process_id
      then multiple (parse_ids (split_commas [] process_id))
      else or_empty (parse_id process_id)

  -- the context that get_telemetry gives; the peer's address and the method are passed on
  unfoldable pub get_telemetry : List (Bytes × Bytes) → MyTelemetryContext ProcessId
  unfolding context_of
  get_telemetry metadata = context_of (get_metadata (codes "process-id") metadata)

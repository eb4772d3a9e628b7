-- ===== src/Telemetry/RoundTrip.antt =====
-- What a server reads of the context that a client sends.
use my_grpc_extensions.Prelude.{List, [], ◌∷◌, ◌++◌, Bytes}
use my_grpc_extensions.Telemetry.{Ids, MyTelemetryContext, single, multiple, empty}

module _ (ids : Ids) where
  open ids use {ProcessId, to_text, parse_id}

  -- the texts of the ids behind the first, each behind a comma
  abbrev more_text : List ProcessId → Bytes
  more_text [] = []
  more_text (id ∷ rest) = b',' ∷ (to_text id ++ more_text rest)

  -- One id comes as such, also out of a list of one, and no id as the empty context.
  abbrev pub arriving : MyTelemetryContext ProcessId → MyTelemetryContext ProcessId
  arriving (single id) = single id
  arriving (multiple []) = empty
  arriving (multiple (id ∷ [])) = single id
  arriving (multiple (id ∷ next ∷ rest)) = multiple (id ∷ next ∷ rest)
  arriving empty = empty

-- ===== src/Telemetry/ServerContext.antt =====
-- my-grpc-extensions/src/grpc_server_telemetry_context.rs: GrpcServerTelemetryContext, which a
-- handler makes at its start and drops at its end.
pub mod Reporting
use my_grpc_extensions.Prelude.{
  ℕ, Bool, List, [], ◌∷◌, ◌++◌, Option, none, some, Bytes, codes, if◌then◌else◌,
}
use my_grpc_extensions.Telemetry.{Ids, MyTelemetryContext, get_telemetry}

-- what `TELEMETRY_INTERFACE.write_success` is given; a tag is its key and its value
pub record TelemetryEvent (ProcessId : Type 0) : Type 0 where
  pub ctx : MyTelemetryContext ProcessId
  pub started : ℕ
  pub process_data : Bytes
  pub success : Bytes
  pub tags : Option (List (Bytes × Bytes))

pub record GrpcServerTelemetryContext (ProcessId SocketAddr : Type 0) : Type 0 where
  pub ctx : Option (MyTelemetryContext ProcessId)
  pub started : ℕ
  pub addr : Option SocketAddr
  pub method : Option Bytes

-- `ip` is `ip().to_string()` of an address
unfoldable pub ip_tags :
    {SocketAddr : Type 0} → (SocketAddr → Bytes) → Option SocketAddr → Option (List (Bytes × Bytes))
ip_tags ip none = none
ip_tags ip (some addr) = some ((codes "ip", ip addr) ∷ [])

-- the event of the task that `drop` spawns, if it spawns one
unfoldable pub success_event :
    {ProcessId : Type 0}
    → ℕ
    → Option (List (Bytes × Bytes))
    → Option (MyTelemetryContext ProcessId)
    → Option Bytes
    → List (TelemetryEvent ProcessId)
success_event started tags none method = []
success_event started tags (some ctx) none = []
success_event started tags (some ctx) (some method) =
    record {
      ctx = ctx;
      started = started;
      process_data = codes "GRPC: " ++ method;
      success = codes "done";
      tags = tags;
    }
    ∷ []

module _ {ProcessId SocketAddr : Type 0} where
  -- `now` is what the clock gives
  unfoldable pub new_context :
      MyTelemetryContext ProcessId
      → ℕ
      → Option SocketAddr
      → Bytes
      → GrpcServerTelemetryContext ProcessId SocketAddr
  new_context ctx now addr method = record {
    ctx = some ctx;
    started = now;
    addr = addr;
    method = some method;
  }

  -- `none` is its panic
  unfoldable pub get_ctx :
      GrpcServerTelemetryContext ProcessId SocketAddr → Option (MyTelemetryContext ProcessId)
  get_ctx self = self.ctx

  module _ (ip : SocketAddr → Bytes) where
    -- Drop::drop: the events that are written, and what is left of the context
    unfoldable pub drop_context :
        Bool
        → GrpcServerTelemetryContext ProcessId SocketAddr
        → List (TelemetryEvent ProcessId) × GrpcServerTelemetryContext ProcessId SocketAddr
    unfolding success_event ip_tags
    drop_context is_telemetry_set_up self =
        if is_telemetry_set_up
        then (
          success_event self.started (ip_tags ip self.addr) self.ctx self.method,
          record self { ctx = none; method = none },
        )
        else ([], self)

-- get_telemetry with the address and the method that it passes on
module _ (ids : Ids) {SocketAddr : Type 0} where
  unfoldable pub get_telemetry_context :
      List (Bytes × Bytes)
      → ℕ
      → Option SocketAddr
      → Bytes
      → GrpcServerTelemetryContext ids.ProcessId SocketAddr
  unfolding new_context
  get_telemetry_context metadata now addr method =
      new_context (get_telemetry ids metadata) now addr method

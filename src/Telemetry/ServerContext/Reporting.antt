-- ===== src/Telemetry/ServerContext/Reporting.antt =====
-- What a server reports of a request, against the context of the client that made it.
use my_grpc_extensions.Prelude.{ℕ, ◌++◌, Option, Bytes, codes}
use my_grpc_extensions.Telemetry.{Ids, MyTelemetryContext}
use my_grpc_extensions.Telemetry.RoundTrip.{arriving}
use my_grpc_extensions.Telemetry.ServerContext.{TelemetryEvent, ip_tags}

module _ (ids : Ids) {SocketAddr : Type 0} (ip : SocketAddr → Bytes) where
  -- the only event of a request
  abbrev pub report :
      MyTelemetryContext ids.ProcessId
      → ℕ
      → Option SocketAddr
      → Bytes
      → TelemetryEvent ids.ProcessId
  report ctx now addr method = record {
    ctx = arriving ids ctx;
    started = now;
    process_data = codes "GRPC: " ++ method;
    success = codes "done";
    tags = ip_tags ip addr;
  }

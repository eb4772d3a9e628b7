-- ===== src/Macros/Client/Generated/Serving.antt =====
-- A generated client against the server that is generated from the same description.
use my_grpc_extensions.Prelude.{
  ℕ, ◌≡◌, refl, sym, subst, Bool, Bool-cases, inl, inr, List, Option, none, some, Bytes, codes,
  ◌++◌,
}
use mathlib.Core.Option.{some-injective, none-ne-some}
use my_grpc_extensions.Proto.Service.{ProtoServiceDescription}
use my_grpc_extensions.Macros.Client.{
  GrpcMethod, Implementation, generate, new_overrides, all_found, checked_methods, both_made,
  generate_grpc_methods, generate_interfaces_implementations,
}
use my_grpc_extensions.Macros.Client.Generated.{
  ClientParams, GeneratedClient, assemble, generate_client, grpc_service_client,
}
use my_grpc_extensions.Macros.Server.{GeneratedServer, generate_server, telemetry_wanted}
use my_grpc_extensions.Macros.Server.Peers.{AllPeers, server_functions-AllPeers}

-- Both use the modules that tonic generates for one service in one crate, the client its client
-- and the server its trait, and their methods and functions are peers.
pub record Serves (crate_ns : Bytes) (server : GeneratedServer) (client : GeneratedClient)
    : Type 0 where
  pub service_module : Bytes
  pub same_crate : client.use_name_space ≡ codes "use " ++ server.crate_ns
  pub of_server :
      server.server_ns ≡ crate_ns ++ (codes "::" ++ (service_module ++ codes "_server::*"))
  pub of_client :
      client.ns_of_client
      ≡ codes "use "
        ++ (crate_ns
            ++ (codes "::"
                ++ (service_module
                    ++ (codes "_client::" ++ (server.service_name ++ codes "Client")))))
  pub all_peers : AllPeers server.functions client.grpc_methods

module _ (as_snake_case : Bytes → Bytes) (params : ClientParams) (with_telemetry with_ssh : Bool)
    (proto_file : ProtoServiceDescription) where
  abbrev server : Option Bytes → Option Bool → GeneratedServer
  server name telemetry = generate_server as_snake_case proto_file name params.crate_ns telemetry

  -- what `generate` gives are the methods for some overrides
  Methods : Option (List Implementation × List GrpcMethod) → Type 0
  Methods none = Unit {0}
  Methods (some (interfaces, methods)) =
      (overrides : List (Bytes × ℕ)) × (methods
        ≡ generate_grpc_methods as_snake_case proto_file.rpc params.retries overrides)

  both_made-Methods :
      (interfaces : Option (List Implementation)) (o : Option (List (Bytes × ℕ)))
      → Methods (both_made interfaces (checked_methods as_snake_case proto_file params.retries o))
  unfolding Methods both_made checked_methods
  both_made-Methods none o = tt
  both_made-Methods (some is) none = tt
  both_made-Methods (some is) (some overrides) =
      elim (Bool-cases (all_found proto_file overrides)) [
        | inl b ↦ rw b (overrides, refl)
        | inr b ↦ rw b tt
      ]

  assemble-Serves :
      (name : Option Bytes) (telemetry : Option Bool) (client : GeneratedClient)
      (made : Option (List Implementation × List GrpcMethod))
      → Methods made
      → assemble as_snake_case params with_telemetry with_ssh proto_file made ≡ some client
      → Serves params.crate_ns (server name telemetry) client
  unfolding Methods assemble generate_server grpc_service_client
  assemble-Serves name telemetry client none m h = absurd (none-ne-some _ h)
  assemble-Serves name telemetry client (some (interfaces, methods)) (overrides, e) h =
      subst (Serves params.crate_ns (server name telemetry)) (some-injective _ _ h) (record {
        service_module = as_snake_case proto_file.service_name;
        same_crate = refl;
        of_server = refl;
        of_client = refl;
        all_peers = subst (AllPeers (server name telemetry).functions) (sym e) (
            server_functions-AllPeers as_snake_case (telemetry_wanted telemetry) params.retries
              overrides proto_file.rpc);
      })

  -- Whenever a client is generated, it fits the server that is generated from the same description
  -- with the same crate, whatever else the parameters of both are, with telemetry or without: both
  -- use the modules of one service, the client is that service's client and the server implements
  -- its trait, and their methods and functions have the same names and take and give the same
  -- messages and streams.
  pub generate_client-generate_server :
      (name : Option Bytes) (telemetry : Option Bool) (client : GeneratedClient)
      → generate_client as_snake_case params with_telemetry with_ssh proto_file ≡ some client
      → Serves params.crate_ns (server name telemetry) client
  unfolding generate_client generate
  generate_client-generate_server name telemetry client h =
      assemble-Serves name telemetry client _
        (both_made-Methods (generate_interfaces_implementations as_snake_case proto_file.rpc)
          (new_overrides params.overrides))
        h

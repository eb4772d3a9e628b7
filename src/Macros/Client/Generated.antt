-- ===== src/Macros/Client/Generated.antt =====
-- grpc_client/generate.rs: the whole of a generated client, from the description and from the
-- parameters that types_reader has parsed. A piece of quoted Rust is its text.
pub mod Serving
use my_grpc_extensions.Prelude.{
  ℕ, Bool, List, Option, none, some, Bytes, codes, ◌++◌, if◌then◌else◌,
}
use my_grpc_extensions.Proto.Service.{ProtoServiceDescription}
use my_grpc_extensions.Macros.Client.{GrpcMethod, Implementation, generate}

-- the parameters of the macro, and the name of the struct that it stands on
pub record ClientParams : Type 0 where
  pub struct_name : Bytes
  pub request_timeout_sec : ℕ
  pub ping_timeout_sec : ℕ
  pub ping_interval_sec : ℕ
  pub retries : ℕ
  pub crate_ns : Bytes
  pub service_name : Option Bytes
  pub overrides : Option (List (Bytes × ℕ))

-- the pieces of the generated code: `ctx_param` and `channel_call` are the same in all methods
pub record GeneratedClient : Type 0 where
  pub use_name_space : Bytes
  pub ns_of_client : Bytes
  pub t_grpc_service : Bytes
  pub fn_create_service : Bytes
  pub service_factory_name : Bytes
  pub get_service_name : Bytes
  pub timeouts : ℕ × ℕ × ℕ
  pub ctx_param : Bytes
  pub channel_call : Bytes
  pub grpc_methods : List GrpcMethod
  pub interfaces : List Implementation
  pub ssh_trait : Option Bytes

unfoldable pub settings_service_name : Option Bytes → Bytes → Bytes
settings_service_name none struct_name = struct_name
settings_service_name (some service_name) struct_name = service_name

unfoldable pub grpc_service_client : ProtoServiceDescription → Bytes
grpc_service_client proto_file = proto_file.service_name ++ codes "Client"

-- the body of `create_service`
unfoldable pub create_service_body : Bool → Bytes → Bytes
create_service_body with_telemetry client =
    client
    ++ (if with_telemetry
        then codes
            "::with_interceptor(channel, my_grpc_extensions::GrpcClientInterceptor::new(ctx.clone()),)"
        else codes "::new(channel)")

unfoldable pub service_type : Bool → Bytes → Bytes
service_type with_telemetry client =
    client
    ++ (if with_telemetry
        then codes
            "<tonic::codegen::InterceptedService<tonic::transport::Channel, my_grpc_extensions::GrpcClientInterceptor>>"
        else codes "<tonic::transport::Channel>")

-- generate_grpc_methods.rs: the same for each method
unfoldable pub ctx_param_of : Bool → Bytes
ctx_param_of with_telemetry =
    if with_telemetry then codes "ctx: &my_telemetry::MyTelemetryContext," else codes ""

unfoldable pub get_channel_of : Bool → Bytes
get_channel_of with_telemetry =
    if with_telemetry
    then codes "self.channel.get_channel(ctx)"
    else codes "self.channel.get_channel()"

unfoldable pub ssh_trait_of : Bool → Bytes → Option Bytes
ssh_trait_of with_ssh struct_name =
    if with_ssh then some (codes "my_grpc_extensions::GrpcClientSsh for " ++ struct_name) else none

module _ (as_snake_case : Bytes → Bytes) where
  -- the pieces around the methods and the interfaces
  unfoldable pub assemble :
      ClientParams
      → Bool
      → Bool
      → ProtoServiceDescription
      → Option (List Implementation × List GrpcMethod)
      → Option GeneratedClient
  unfolding settings_service_name grpc_service_client create_service_body service_type ctx_param_of
      get_channel_of ssh_trait_of
  assemble params with_telemetry with_ssh proto_file none = none
  assemble params with_telemetry with_ssh proto_file (some (interfaces, grpc_methods)) =
      let client = grpc_service_client proto_file in
      some (record {
        use_name_space = codes "use " ++ (params.crate_ns ++ codes "::*");
        ns_of_client =
            codes "use "
            ++ (params.crate_ns
                ++ (codes "::"
                    ++ (as_snake_case proto_file.service_name ++ (codes "_client::" ++ client))));
        t_grpc_service = service_type with_telemetry client;
        fn_create_service = create_service_body with_telemetry client;
        service_factory_name = params.struct_name ++ codes "GrpcServiceFactory";
        get_service_name = settings_service_name params.service_name params.struct_name;
        timeouts = (params.request_timeout_sec, params.ping_timeout_sec, params.ping_interval_sec);
        ctx_param = ctx_param_of with_telemetry;
        channel_call = get_channel_of with_telemetry;
        grpc_methods = grpc_methods;
        interfaces = interfaces;
        ssh_trait = ssh_trait_of with_ssh params.struct_name;
      })

  -- `generate`: `none` is a panic or an error
  unfoldable pub generate_client :
      ClientParams → Bool → Bool → ProtoServiceDescription → Option GeneratedClient
  unfolding assemble
  generate_client params with_telemetry with_ssh proto_file =
      assemble params with_telemetry with_ssh proto_file
        (generate as_snake_case proto_file params.retries params.overrides)

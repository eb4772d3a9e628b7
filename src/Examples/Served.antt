-- ===== src/Examples/Served.antt =====
-- A small service, its client and its server.
use my_grpc_extensions.Prelude.{◌≡◌, refl, true, false, [], ◌∷◌, none, some, codes, bytes_eq}
use my_grpc_extensions.Channel.Ssh.{insert}
use my_grpc_extensions.Proto.ParamType.{
  parse, find_name, split_ascii_whitespace, get_name, get_output_param_type, get_input_param_invoke,
  is_stream, last_segment,
}
use my_grpc_extensions.Proto.Service.{get_input_param, get_output_param, has_method}
use my_grpc_extensions.Macros.Client.{
  get_interface_name, get_name_fn_param_type_token, get_func_in_data_type, get_func_out_data_type,
  get_request_fn_name, retries_call, get_response_fn_name, retries_of, get_override,
  generate_grpc_methods, generate_interfaces_implementations, generate, implementation_of,
  new_overrides, all_found,
}
use my_grpc_extensions.Macros.Client.Generated.{ClientParams, GeneratedClient, generate_client}
use my_grpc_extensions.Macros.Client.Generated.Serving.{Serves, generate_client-generate_server}
use my_grpc_extensions.Macros.Server.{generate_server}
use my_grpc_extensions.Examples.Generated.{greeter, same, get_all_implementation, get_all_method}

abbrev params : ClientParams
params = record {
  struct_name = codes "GreeterClient";
  request_timeout_sec = 5;
  ping_timeout_sec = 3;
  ping_interval_sec = 3;
  retries = 3;
  crate_ns = codes "crate::greeter";
  service_name = none;
  overrides = some ((codes "GetAll", 7) ∷ []);
}

abbrev greeter_client : GeneratedClient
greeter_client = record {
  use_name_space = codes "use crate::greeter::*";
  ns_of_client = codes "use crate::greeter::Greeter_client::GreeterClient";
  t_grpc_service = codes "GreeterClient<tonic::transport::Channel>";
  fn_create_service = codes "GreeterClient::new(channel)";
  service_factory_name = codes "GreeterClientGrpcServiceFactory";
  get_service_name = codes "GreeterClient";
  timeouts = (5, 3, 3);
  ctx_param = codes "";
  channel_call = codes "self.channel.get_channel()";
  grpc_methods = get_all_method ∷ [];
  interfaces = get_all_implementation ∷ [];
  ssh_trait = none;
}

greeter_client_made : generate_client same params false false greeter ≡ some greeter_client
unfolding generate_client generate generate_grpc_methods generate_interfaces_implementations
    implementation_of get_input_param get_output_param parse bytes_eq find_name
    split_ascii_whitespace new_overrides insert all_found has_method get_interface_name get_name
    get_name_fn_param_type_token get_output_param_type get_input_param_invoke get_func_in_data_type
    get_func_out_data_type get_request_fn_name retries_call get_response_fn_name is_stream
    last_segment retries_of get_override
greeter_client_made = refl

generate_client-generate_server_example :
    Serves
      (codes "crate::greeter")
      (generate_server same greeter none (codes "crate::greeter") (some true))
      greeter_client
generate_client-generate_server_example =
    generate_client-generate_server same params false false greeter none (some true) greeter_client
      greeter_client_made

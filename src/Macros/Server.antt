-- ===== src/Macros/Server.antt =====
-- my-grpc-server-macros/src/generate_server/generate.rs and with_result_stream/generate.rs. A piece
-- of quoted Rust is its text.
pub mod Streams
pub mod Peers
use my_grpc_extensions.Prelude.{
  Bool, true, false, ◌&&◌, not, List, [], ◌∷◌, ◌++◌, Option, none, some, Bytes, codes, bytes_eq,
  ends_with, ◌==◌, if◌then◌else◌,
}
use my_grpc_extensions.Proto.ParamType.{ParamType, single, stream}
use my_grpc_extensions.Proto.Service.{
  ProtoRpc, ProtoServiceDescription, get_input_param, get_output_param,
}
use my_grpc_extensions.Macros.WithTelemetry.{inject_telemetry_line}

-- the pieces of one `async fn` of the server: `app_call` is the call of the handler, behind the
-- lines of the telemetry, if there are some, and `stream_description` the parameters of
-- `generate_server_stream!`, if it stands before the function
pub record ServerFunction : Type 0 where
  pub fn_name : Bytes
  pub input_param : Bytes
  pub out_type : Bytes
  pub result_conversion : Bytes
  pub stream_description : Option (Bytes × Bytes)
  pub telemetry_injection : Option Bytes
  pub app_call : Bytes

abbrev pub request_of : Bytes → Bytes
request_of name = codes "tonic::Request<" ++ (name ++ codes ">")

abbrev pub streamed_request_of : Bytes → Bytes
streamed_request_of name = codes "tonic::Request<tonic::Streaming<" ++ (name ++ codes ">>")

abbrev pub response_of : Bytes → Bytes
response_of name = codes "tonic::Response<" ++ (name ++ codes ">")

unfoldable pub server_input_param : Option ParamType → Bytes
server_input_param none = request_of (codes "()")
server_input_param (some (single tp_name)) = request_of tp_name
server_input_param (some (stream tp_name)) = streamed_request_of tp_name

abbrev pub stream_type : Bytes → Bytes
stream_type fn_name = fn_name ++ codes "Stream"

unfoldable pub telemetry_of : Bool → Bytes → Option Bytes
telemetry_of with_telemetry fn_name_str =
    if with_telemetry then some (inject_telemetry_line fn_name_str) else none

unfoldable pub app_call_of : Bool → Bytes → Bytes
app_call_of with_telemetry fn_name =
    fn_name
    ++ (if with_telemetry
        then codes "(&self.app, request.into(),my_telemetry).await"
        else codes "(&self.app, request.into()).await")

unfoldable pub server_function : Bool → Bytes → Bytes → Bytes → Option ParamType → ServerFunction
unfolding telemetry_of app_call_of
server_function with_telemetry fn_name_str fn_name input_param none = record {
  fn_name = fn_name;
  input_param = input_param;
  out_type = response_of (codes "()");
  result_conversion = codes "Ok(result.into())";
  stream_description = none;
  telemetry_injection = telemetry_of with_telemetry fn_name_str;
  app_call = app_call_of with_telemetry fn_name;
}
server_function with_telemetry fn_name_str fn_name input_param (some (single tp_name)) = record {
  fn_name = fn_name;
  input_param = input_param;
  out_type = response_of tp_name;
  result_conversion = codes "Ok(result.into())";
  stream_description = none;
  telemetry_injection = telemetry_of with_telemetry fn_name_str;
  app_call = app_call_of with_telemetry fn_name;
}
server_function with_telemetry fn_name_str fn_name input_param (some (stream tp_name)) = record {
  fn_name = fn_name;
  input_param = input_param;
  out_type = response_of (codes "Self::" ++ stream_type fn_name_str);
  result_conversion = codes "result.get_result()";
  stream_description = some (stream_type fn_name_str, tp_name);
  telemetry_injection = telemetry_of with_telemetry fn_name_str;
  app_call = app_call_of with_telemetry fn_name;
}

-- what `generate` makes of a description: the two `use` lines without their `use`, and the names and
-- functions of the `impl`; the function `ping` stands behind them in every server
pub record GeneratedServer : Type 0 where
  pub server_ns : Bytes
  pub crate_ns : Bytes
  pub service_name : Bytes
  pub grpc_struct_name : Bytes
  pub functions : List ServerFunction

unfoldable pub struct_name_or_sdk : Option Bytes → Bytes
struct_name_or_sdk none = codes "super::SdkGrpcService"
struct_name_or_sdk (some grpc_struct_name) = grpc_struct_name

unfoldable pub telemetry_wanted : Option Bool → Bool
telemetry_wanted none = false
telemetry_wanted (some with_telemetry) = with_telemetry

module _ (as_snake_case : Bytes → Bytes) where
  -- the loop over the rpcs
  unfoldable pub server_functions : Bool → List ProtoRpc → List ServerFunction
  unfolding server_function server_input_param
  server_functions with_telemetry [] = []
  server_functions with_telemetry (rpc ∷ rpcs) =
      server_function with_telemetry rpc.name (as_snake_case rpc.name)
        (server_input_param (get_input_param rpc)) (get_output_param rpc)
      ∷ server_functions with_telemetry rpcs

  -- `generate`, from the description and the parameters that types_reader has parsed
  unfoldable pub generate_server :
      ProtoServiceDescription → Option Bytes → Bytes → Option Bool → GeneratedServer
  unfolding server_functions struct_name_or_sdk telemetry_wanted
  generate_server service_description grpc_struct_name crate_ns with_telemetry = record {
    server_ns =
        crate_ns
        ++ (codes "::" ++ (as_snake_case service_description.service_name ++ codes "_server::*"));
    crate_ns = crate_ns ++ codes "::*";
    service_name = service_description.service_name;
    grpc_struct_name = struct_name_or_sdk grpc_struct_name;
    functions = server_functions (telemetry_wanted with_telemetry) service_description.rpc;
  }

-- generate_stream.rs and generate_server_stream.rs
unfoldable pub generate_stream : Bytes → Bytes → Bytes
generate_stream stream_name item_name =
    codes "type "
    ++ (stream_name
        ++ (codes " = std::pin::Pin<Box<dyn futures_core::Stream<Item = Result<"
            ++ (item_name ++ codes ", tonic::Status>> + Send + Sync + 'static>>;")))

-- `content.split(' ')`
unfoldable pub split_spaces : Bytes → Bytes → List Bytes
split_spaces piece [] = piece ∷ []
split_spaces piece (b ∷ content) =
    let apart = split_spaces [] content in
    let longer = split_spaces (piece ++ b ∷ []) content in
    if b == b' ' then piece ∷ apart else longer

-- the loop of find_stream_name
unfoldable pub stream_name_in : Bool → Bool → List Bytes → Option Bytes
stream_name_in self_index double_dots_index [] = none
stream_name_in self_index double_dots_index (item ∷ items) =
    let after_self = stream_name_in true double_dots_index items in
    let after_dots = stream_name_in self_index true items in
    let again = stream_name_in false false items in
    if not self_index && bytes_eq item (codes "Self")
    then after_self
    else if not double_dots_index && bytes_eq item (codes "::")
    then after_dots
    else if not double_dots_index && ends_with item (codes "Stream")
    then some item
    else again

-- find_stream_name: `none` is its panic
unfoldable pub find_stream_name : Bytes → Option Bytes
unfolding stream_name_in split_spaces
find_stream_name content = stream_name_in false false (split_spaces [] content)

-- with_result_stream/generate.rs: the type and the item behind it, whose text is `content`
unfoldable pub with_result_as_stream : Bytes → Bytes → Option (Bytes × Bytes)
unfolding generate_stream
with_result_as_stream item_name content = elim (find_stream_name content) [
  | none ↦ none
  | some stream_name ↦ some (generate_stream stream_name item_name, content)
]

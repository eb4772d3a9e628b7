-- ===== src/Macros/Client.antt =====
-- my-grpc-client-macros/src/grpc_client. A piece of quoted Rust is its text; what surrounds the
-- pieces is the same for all methods. Snake case is a parameter here, for which Proto/SnakeCase
-- stands.
pub mod Matching
pub mod Overriding
pub mod Invoking
pub mod Generated
pub mod Factory
pub mod Serving
use my_grpc_extensions.Prelude.{
  ℕ, zero, suc, Bool, true, false, List, [], ◌∷◌, ◌++◌, Option, none, some, Bytes, codes, bytes_eq,
  if◌then◌else◌,
}
use my_grpc_extensions.Channel.Ssh.{insert}
use my_grpc_extensions.Proto.ParamType.{
  ParamType, single, stream, is_stream, get_name, get_input_param_invoke, get_output_param_type,
}
use my_grpc_extensions.Proto.Service.{
  ProtoRpc, ProtoServiceDescription, get_input_param, get_output_param, has_method,
}

-- generate_grpc_methods.rs: the pieces of one `pub async fn`; `with_retries` is the amount in
-- `.with_retries(...)` where the call stands
pub record GrpcMethod : Type 0 where
  pub fn_name : Bytes
  pub input_data_type : Bytes
  pub output_data_type : Bytes
  pub request_fn_name : Bytes
  pub with_retries : Option ℕ
  pub response_fn_name : Bytes

unfoldable pub get_request_fn_name : Option ParamType → Bytes
get_request_fn_name none = codes "start_request"
get_request_fn_name (some input_param) =
    if is_stream input_param
    then codes "start_request_with_input_prams_as_stream"
    else codes "start_request"

unfoldable pub get_response_fn_name : Option ParamType → Bytes
get_response_fn_name none = codes "get_response(self).await?"
get_response_fn_name (some output_param) =
    if is_stream output_param
    then codes "get_streamed_response(self).await?"
    else codes "get_response(self).await?"

abbrev pub streamed_request : Bytes → Bytes
streamed_request name =
    codes "impl Into<my_grpc_extensions::StreamedRequest<" ++ (name ++ codes ">>")

abbrev pub streamed_response : Bytes → Bytes
streamed_response name = codes "my_grpc_extensions::StreamedResponse<" ++ (name ++ codes ">")

unfoldable pub get_func_in_data_type : Option ParamType → Bytes
get_func_in_data_type none = codes "()"
get_func_in_data_type (some (single name)) = name
get_func_in_data_type (some (stream name)) = streamed_request name

unfoldable pub get_func_out_data_type : Option ParamType → Bytes
get_func_out_data_type none = codes "()"
get_func_out_data_type (some (single name)) = name
get_func_out_data_type (some (stream name)) = streamed_response name

-- HashMap::get
unfoldable pub get_override : Bytes → List (Bytes × ℕ) → Option ℕ
get_override k [] = none
get_override k ((j, retries) ∷ overrides) =
    if bytes_eq j k then some retries else get_override k overrides

unfoldable pub retries_of : Option ℕ → ℕ → ℕ
retries_of none retries_amount = retries_amount
retries_of (some retries) retries_amount = retries

unfoldable pub retries_call : ℕ → Option ℕ
retries_call zero = none
retries_call (suc n) = some (suc n)

-- generate_interfaces_implementations.rs: the pieces of one `impl`
pub record Implementation : Type 0 where
  pub interface_name : Bytes
  pub input_param_name : Bytes
  pub output_param_name : Bytes
  pub input_param_type : Bytes
  pub output_param_type : Bytes
  pub input_param_invoke : Bytes
  pub fn_name : Bytes

abbrev pub request_response : Bytes
request_response = codes "my_grpc_extensions::RequestResponseGrpcExecutor"

abbrev pub response_as_stream : Bytes
response_as_stream = codes "my_grpc_extensions::RequestWithResponseAsStreamGrpcExecutor"

abbrev pub input_as_stream : Bytes
input_as_stream = codes "my_grpc_extensions::RequestWithInputAsStreamGrpcExecutor"

abbrev pub both_as_stream : Bytes
both_as_stream =
    codes "my_grpc_extensions::RequestWithInputAsStreamWithResponseAsStreamGrpcExecutor"

unfoldable pub get_interface_name : ParamType → ParamType → Bytes
get_interface_name input_param output_param =
    if is_stream input_param
    then if is_stream output_param then both_as_stream else input_as_stream
    else if is_stream output_param
    then response_as_stream
    else request_response

unfoldable pub get_interface_name_with_input_param_only : ParamType → Bytes
get_interface_name_with_input_param_only input_param =
    if is_stream input_param then input_as_stream else request_response

unfoldable pub get_interface_name_with_output_param_only : ParamType → Bytes
get_interface_name_with_output_param_only output_param =
    if is_stream output_param then response_as_stream else request_response

unfoldable pub get_name_fn_param_type_token : ParamType → Bytes
get_name_fn_param_type_token (single name) = name
get_name_fn_param_type_token (stream name) =
    codes "&my_grpc_extensions::StreamedRequest<" ++ (name ++ codes ">")

-- one round of the loop of generate_interfaces_implementations: `none` is its panic
unfoldable pub implementation_of :
    Bytes → Option ParamType → Option ParamType → Option Implementation
implementation_of fn_name (some input) (some output) = some (record {
  interface_name = get_interface_name input output;
  input_param_name = get_name input;
  output_param_name = get_name output;
  input_param_type = get_name_fn_param_type_token input;
  output_param_type = get_output_param_type output;
  input_param_invoke = get_input_param_invoke input;
  fn_name = fn_name;
})
implementation_of fn_name (some input) none = some (record {
  interface_name = get_interface_name_with_input_param_only input;
  input_param_name = get_name input;
  output_param_name = codes "()";
  input_param_type = get_name_fn_param_type_token input;
  output_param_type = codes "()";
  input_param_invoke = get_input_param_invoke input;
  fn_name = fn_name;
})
implementation_of fn_name none (some output) = some (record {
  interface_name = get_interface_name_with_output_param_only output;
  input_param_name = codes "()";
  output_param_name = get_name output;
  input_param_type = codes "()";
  output_param_type = get_output_param_type output;
  input_param_invoke = codes "()";
  fn_name = fn_name;
})
implementation_of fn_name none none = none

module _ (as_snake_case : Bytes → Bytes) where
  -- one round of the loop of generate_grpc_methods
  unfoldable pub grpc_method : ℕ → List (Bytes × ℕ) → ProtoRpc → GrpcMethod
  grpc_method retries_amount overrides rpc = record {
    fn_name = as_snake_case rpc.name;
    input_data_type = get_func_in_data_type (get_input_param rpc);
    output_data_type = get_func_out_data_type (get_output_param rpc);
    request_fn_name = get_request_fn_name (get_input_param rpc);
    with_retries = retries_call (retries_of (get_override rpc.name overrides) retries_amount);
    response_fn_name = get_response_fn_name (get_output_param rpc);
  }

  unfoldable pub generate_grpc_methods : List ProtoRpc → ℕ → List (Bytes × ℕ) → List GrpcMethod
  unfolding grpc_method
  generate_grpc_methods [] retries_amount overrides = []
  generate_grpc_methods (rpc ∷ rpcs) retries_amount overrides =
      grpc_method retries_amount overrides rpc ∷ generate_grpc_methods rpcs retries_amount overrides

  unfoldable pub generate_interfaces_implementations : List ProtoRpc → Option (List Implementation)
  generate_interfaces_implementations [] = some []
  generate_interfaces_implementations (rpc ∷ rpcs) =
      let rest = generate_interfaces_implementations rpcs in
      elim (implementation_of (as_snake_case rpc.name) (get_input_param rpc)
        (get_output_param rpc)) [
          | none ↦ none
          | some i ↦ elim rest [ none ↦ none | some is ↦ some (i ∷ is) ]
        ]

-- fn_override.rs: FnOverride::new, from the names and amounts that `overrides` lists, if it is
-- given; they are parsed by other crates. `none` is its error on an empty list.
unfoldable pub insert_overrides : List (Bytes × ℕ) → List (Bytes × ℕ) → List (Bytes × ℕ)
insert_overrides [] result = result
insert_overrides ((name, retries) ∷ overrides) result =
    insert_overrides overrides (insert name retries result)

unfoldable pub not_empty : List (Bytes × ℕ) → Option (List (Bytes × ℕ))
not_empty [] = none
not_empty (o ∷ result) = some (o ∷ result)

unfoldable pub new_overrides : Option (List (Bytes × ℕ)) → Option (List (Bytes × ℕ))
unfolding not_empty insert_overrides
new_overrides none = some []
new_overrides (some overrides) = not_empty (insert_overrides overrides [])

-- generate.rs: the loop over the overrides; whether none is an error
unfoldable pub all_found : ProtoServiceDescription → List (Bytes × ℕ) → Bool
all_found proto_file [] = true
all_found proto_file ((override_fn_name, retries) ∷ overrides) =
    let rest = all_found proto_file overrides in
    if has_method proto_file override_fn_name then rest else false

unfoldable pub both_made :
    Option (List Implementation)
    → Option (List GrpcMethod)
    → Option (List Implementation × List GrpcMethod)
both_made none methods = none
both_made (some interfaces) none = none
both_made (some interfaces) (some methods) = some (interfaces, methods)

-- generate.rs: the part of `generate` that makes the implementations and the methods; `none` is a
-- panic or an error.
module _ (as_snake_case : Bytes → Bytes) where
  unfoldable pub checked_methods :
      ProtoServiceDescription → ℕ → Option (List (Bytes × ℕ)) → Option (List GrpcMethod)
  checked_methods proto_file retries none = none
  checked_methods proto_file retries (some overrides) =
      if all_found proto_file overrides
      then some (generate_grpc_methods as_snake_case proto_file.rpc retries overrides)
      else none

  unfoldable pub generate :
      ProtoServiceDescription
      → ℕ
      → Option (List (Bytes × ℕ))
      → Option (List Implementation × List GrpcMethod)
  unfolding checked_methods both_made
  generate proto_file retries overrides =
      both_made (generate_interfaces_implementations as_snake_case proto_file.rpc)
        (checked_methods proto_file retries (new_overrides overrides))

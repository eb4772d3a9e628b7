-- ===== src/Macros/Server/Peers.antt =====
-- The server's functions against the client's methods for the same service.
use my_grpc_extensions.Prelude.{
  Bool, ℕ, ◌≡◌, refl, List, [], ◌∷◌, ◌++◌, Option, none, some, Bytes, codes, bytes_eq,
  if◌then◌else◌,
}
use my_grpc_extensions.Proto.ParamType.{ParamType, single, stream, is_stream}
use my_grpc_extensions.Proto.Service.{ProtoRpc, get_input_param, get_output_param}
use my_grpc_extensions.Macros.Client.{
  GrpcMethod, get_request_fn_name, get_response_fn_name, get_func_in_data_type,
  get_func_out_data_type, streamed_request, streamed_response, grpc_method, generate_grpc_methods,
}
use my_grpc_extensions.Macros.Server.{
  ServerFunction, request_of, streamed_request_of, response_of, server_input_param, server_function,
  server_functions,
}

-- The items of a function's stream, or its response.
abbrev pub Responds : ServerFunction → GrpcMethod → Option (Bytes × Bytes) → Type 0
Responds f m none =
    (f.out_type ≡ response_of m.output_data_type)
    × (m.response_fn_name ≡ codes "get_response(self).await?")
Responds f m (some (name, item)) =
    (f.out_type ≡ response_of (codes "Self::" ++ name))
    × (m.output_data_type ≡ streamed_response item)
    × (m.response_fn_name ≡ codes "get_streamed_response(self).await?")

-- The same name, the same item or message in the request, and the same in the response.
pub record Peers (f : ServerFunction) (m : GrpcMethod) : Type 0 where
  pub same_fn : f.fn_name ≡ m.fn_name
  pub requests :
      (name : Bytes) × (f.input_param ≡ (
        if bytes_eq m.request_fn_name (codes "start_request")
        then request_of name
        else streamed_request_of name))
      × (m.input_data_type ≡ (
          if bytes_eq m.request_fn_name (codes "start_request")
          then name
          else streamed_request name))
  pub responds : Responds f m f.stream_description

abbrev pub AllPeers : List ServerFunction → List GrpcMethod → Type 0
AllPeers [] [] = Unit {0}
AllPeers [] (m ∷ ms) = ⊥
AllPeers (f ∷ fs) [] = ⊥
AllPeers (f ∷ fs) (m ∷ ms) = Peers f m × AllPeers fs ms

module _ (with_telemetry : Bool) (rpc_name fn_name : Bytes) (with_retries : Option ℕ) where
  abbrev method : Option ParamType → Option ParamType → GrpcMethod
  method input output = record {
    fn_name = fn_name;
    input_data_type = get_func_in_data_type input;
    output_data_type = get_func_out_data_type output;
    request_fn_name = get_request_fn_name input;
    with_retries = with_retries;
    response_fn_name = get_response_fn_name output;
  }

  abbrev function : Option ParamType → Option ParamType → ServerFunction
  function input output =
      server_function with_telemetry rpc_name fn_name (server_input_param input) output

  requests_of :
      (input : Option ParamType)
      → (name : Bytes) × (server_input_param input ≡ (
          if bytes_eq (get_request_fn_name input) (codes "start_request")
          then request_of name
          else streamed_request_of name))
        × (get_func_in_data_type input ≡ (
            if bytes_eq (get_request_fn_name input) (codes "start_request")
            then name
            else streamed_request name))
  unfolding server_input_param get_func_in_data_type get_request_fn_name is_stream bytes_eq
  requests_of none = (codes "()", refl, refl)
  requests_of (some (single name)) = (name, refl, refl)
  requests_of (some (stream name)) = (name, refl, refl)

  function-Peers :
      (input output : Option ParamType) → Peers (function input output) (method input output)
  unfolding server_function get_func_out_data_type get_response_fn_name is_stream
  function-Peers input none = record {
    same_fn = refl;
    requests = requests_of input;
    responds = (refl, refl);
  }
  function-Peers input (some (single name)) = record {
    same_fn = refl;
    requests = requests_of input;
    responds = (refl, refl);
  }
  function-Peers input (some (stream name)) = record {
    same_fn = refl;
    requests = requests_of input;
    responds = (refl, refl, refl);
  }

-- The server's function and the client's method that are generated from the same rpc have the same
-- name, and take and give the same messages: a stream on one side exactly where the other side has
-- one, of the same items.
pub server_functions-AllPeers :
    (as_snake_case : Bytes → Bytes) (with_telemetry : Bool) (retries_amount : ℕ)
    (overrides : List (Bytes × ℕ)) (rpcs : List ProtoRpc)
    → AllPeers
        (server_functions as_snake_case with_telemetry rpcs)
        (generate_grpc_methods as_snake_case rpcs retries_amount overrides)
unfolding server_functions generate_grpc_methods grpc_method
server_functions-AllPeers as_snake_case with_telemetry retries_amount overrides [] = tt
server_functions-AllPeers as_snake_case with_telemetry retries_amount overrides (rpc ∷ rpcs) = (
  function-Peers with_telemetry rpc.name (as_snake_case rpc.name)
      (grpc_method as_snake_case retries_amount overrides rpc).with_retries (get_input_param rpc)
      (get_output_param rpc),
  server_functions-AllPeers as_snake_case with_telemetry retries_amount overrides rpcs,
)

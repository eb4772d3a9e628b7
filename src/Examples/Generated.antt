-- ===== src/Examples/Generated.antt =====
-- Texts and generated pieces of a small service.
use my_grpc_extensions.Prelude.{
  ◌+◌, ◌-◌, ◌≡◌, refl, Bool, true, false, ◌&&◌, [], ◌∷◌, Option, none, some, Bytes, codes, bytes_eq,
  ends_with, leb, ◌==◌,
}
use my_grpc_extensions.Proto.SnakeCase.{Letters, snake_chars, raise, raise-snake_chars}
use my_grpc_extensions.Proto.ParamType.{
  parse, find_name, split_ascii_whitespace, get_name, get_output_param_type, get_input_param_invoke,
  is_stream, last_segment,
}
use my_grpc_extensions.Proto.ParamType.Declared.{param_type, parse-declared}
use my_grpc_extensions.Proto.Service.{
  ProtoRpc, ProtoServiceDescription, get_input_param, get_output_param,
}
use my_grpc_extensions.Macros.Client.{
  get_interface_name, get_name_fn_param_type_token, GrpcMethod, Implementation,
  generate_grpc_methods, generate_interfaces_implementations, implementation_of, request_response,
}
use my_grpc_extensions.Macros.Client.Matching.{AllMatch, generate_grpc_methods-AllMatch}
use my_grpc_extensions.Macros.Server.{split_spaces, find_stream_name}
use my_grpc_extensions.Macros.Server.Streams.{plain, in_path, of_self, find_stream_name-pieces}
use my_grpc_extensions.Telemetry.{has_multiple_ids, Ids}

abbrev ascii : Letters
ascii = record {
  chars = λ src. src;
  encode = λ src. src;
  is_uppercase = λ c. leb 65 c && leb c 90;
  to_lowercase = λ c. c + 32;
}

raise-snake_chars_example :
    raise (λ c. c - 32) (b'_' ∷ snake_chars ascii (codes "GetAll")) ≡ codes "GetAll"
raise-snake_chars_example =
    raise-snake_chars ascii (λ c. c - 32) b'G' (codes "etAll") refl
      (
        refl,
        λ e. refl,
        (refl, λ e. cc, (refl, λ e. cc, (refl, λ e. refl, (refl, λ e. cc, (refl, λ e. cc, tt))))),
      )

parse-declared_example : parse (codes "stream bank.Model") ≡ some (param_type true (codes "Model"))
unfolding bytes_eq
parse-declared_example =
    parse-declared true (some (codes "bank")) (codes "Model") (refl, refl, refl, refl) refl

abbrev pub get_all : ProtoRpc
get_all = record { name = codes "GetAll"; input_param = codes "Key"; output_param = codes "Model" }

abbrev pub greeter : ProtoServiceDescription
greeter = record { service_name = codes "Greeter"; rpc = get_all ∷ [] }

abbrev pub same : Bytes → Bytes
same name = name

abbrev pub get_all_implementation : Implementation
get_all_implementation = record {
  interface_name = request_response;
  input_param_name = codes "Key";
  output_param_name = codes "Model";
  input_param_type = codes "Key";
  output_param_type = codes "Model";
  input_param_invoke = codes "input_data";
  fn_name = codes "GetAll";
}

abbrev pub get_all_method : GrpcMethod
get_all_method = record {
  fn_name = codes "GetAll";
  input_data_type = codes "Key";
  output_data_type = codes "Model";
  request_fn_name = codes "start_request";
  with_retries = some 7;
  response_fn_name = codes "get_response(self).await?";
}

generate_grpc_methods-AllMatch_example :
    AllMatch (generate_grpc_methods same (get_all ∷ []) 3 []) (get_all_implementation ∷ [])
unfolding generate_interfaces_implementations implementation_of get_input_param get_output_param
    parse bytes_eq find_name split_ascii_whitespace get_interface_name get_name
    get_name_fn_param_type_token get_output_param_type get_input_param_invoke is_stream last_segment
generate_grpc_methods-AllMatch_example =
    generate_grpc_methods-AllMatch same 3 [] (get_all ∷ []) (get_all_implementation ∷ []) refl

find_stream_name-pieces_example :
    find_stream_name (codes "tonic :: Response < Self :: GetStream >") ≡ none
unfolding split_spaces bytes_eq ends_with
find_stream_name-pieces_example =
    find_stream_name-pieces (codes "tonic :: Response < Self :: GetStream >")
      (plain (codes "tonic")
        ∷ in_path (codes "Response")
        ∷ plain (codes "<")
        ∷ of_self (codes "GetStream")
        ∷ plain (codes ">")
        ∷ [])
      refl ((refl, refl, refl, (refl, (refl, refl, refl, (refl, refl, refl, tt)))))

-- ids of one digit
abbrev digit_text : Bool → Bytes
digit_text true = codes "1"
digit_text false = codes "0"

abbrev digit_of : Bytes → Option Bool
digit_of [] = none
digit_of (b ∷ rest) = some (b == 49)

digit_of-digit_text : (id : Bool) → digit_of (digit_text id) ≡ some id
digit_of-digit_text true = refl
digit_of-digit_text false = refl

has_multiple_ids-digit_text : (id : Bool) → has_multiple_ids (digit_text id) ≡ false
unfolding has_multiple_ids
has_multiple_ids-digit_text true = refl
has_multiple_ids-digit_text false = refl

abbrev digits : Ids
digits = record {
  ProcessId = Bool;
  to_text = digit_text;
  parse_id = digit_of;
  parse_id-to_text = digit_of-digit_text;
  parse_empty = refl;
  to_text_digits = has_multiple_ids-digit_text;
}

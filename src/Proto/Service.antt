-- ===== src/Proto/Service.antt =====
-- proto_file_reader.rs: ProtoServiceDescription::read_proto_file. A panic is `none`.
pub mod Statements
pub mod Lines
pub mod Braces
use my_grpc_extensions.Prelude.{
  Bool, false, ◌||◌, List, [], ◌∷◌, ◌++◌, Option, none, some, Bytes, codes, bytes_eq, ltb, length,
  if◌then◌else◌,
}
use my_grpc_extensions.Proto.ParamType.{ParamType, parse}
use my_grpc_extensions.Proto.Tokens.{tokens_of}

pub record ProtoRpc : Type 0 where
  pub name : Bytes
  pub input_param : Bytes
  pub output_param : Bytes

pub record ProtoServiceDescription : Type 0 where
  pub service_name : Bytes
  pub rpc : List ProtoRpc

pub data CurrentToken : Type 0 where
  nothing service rpc rpc_expecting_input_parameter rpc_expecting_output_parameter : CurrentToken

unfoldable pub get_input_param : ProtoRpc → Option ParamType
get_input_param self = parse self.input_param

unfoldable pub get_output_param : ProtoRpc → Option ParamType
get_output_param self = parse self.output_param

has_name : List ProtoRpc → Bytes → Bool
has_name [] method_name = false
has_name (r ∷ rpcs) method_name = bytes_eq r.name method_name || has_name rpcs method_name

unfoldable pub has_method : ProtoServiceDescription → Bytes → Bool
unfolding has_name
has_method self method_name = has_name self.rpc method_name

-- the variables of the loop
pub record Progress : Type 0 where
  pub current_token : CurrentToken
  pub service_name : Option Bytes
  pub rpc_name : Option Bytes
  pub input_param_name : Bytes
  pub out_param_name : Bytes
  pub rpcs : List ProtoRpc

abbrev pub start : Progress
start = record {
  current_token = nothing;
  service_name = none;
  rpc_name = none;
  input_param_name = [];
  out_param_name = [];
  rpcs = [];
}

-- a word more, behind a space if it is not the first
abbrev pub push_word : Bytes → Bytes → Bytes
push_word param token = if ltb 0 (length param) then param ++ (b' ' ∷ token) else token

abbrev pub push_out : Bytes → Progress → Progress
push_out token s = record s { out_param_name = push_word s.out_param_name token }

-- at `;`: the method is recorded, unless it is `Ping`
record_rpc : Option Bytes → Progress → Option Progress
record_rpc none s = none
record_rpc (some name) s = some (record s {
  current_token = nothing;
  rpcs =
      if bytes_eq name (codes "Ping")
      then s.rpcs
      else s.rpcs
        ++ record { name = name; input_param = s.input_param_name; output_param = s.out_param_name }
          ∷ [];
})

-- `;` itself is pushed behind the output parameter too.
end_rpc : Bytes → Option Progress → Option Progress
end_rpc token none = none
end_rpc token (some s) = some (push_out token s)

unfoldable pub step : CurrentToken → Bytes → Progress → Option Progress
unfolding record_rpc end_rpc
step nothing token s = some (
    if bytes_eq token (codes "rpc")
    then record s { current_token = rpc }
    else if bytes_eq token (codes "service")
    then record s { current_token = service }
    else s)
step rpc token s = some (record s {
  rpc_name = some token;
  input_param_name = [];
  out_param_name = [];
  current_token = rpc_expecting_input_parameter;
})
step rpc_expecting_input_parameter token s = some (
    if bytes_eq token (codes "(")
    then s
    else if bytes_eq token (codes ")")
    then record s { current_token = rpc_expecting_output_parameter }
    else record s { input_param_name = push_word s.input_param_name token })
step rpc_expecting_output_parameter token s =
    if bytes_eq token (codes "returns")
    then some s
    else if bytes_eq token (codes "(")
    then some s
    else if bytes_eq token (codes ")")
    then some s
    else if bytes_eq token (codes ";")
    then end_rpc token (record_rpc s.rpc_name s)
    else some (push_out token s)
step service token s = some (record s { service_name = some token; current_token = nothing })

unfoldable pub read_tokens : List Bytes → Progress → Option Progress
read_tokens [] s = some s
read_tokens (token ∷ tokens) s = elim (step s.current_token token s) [
  | none ↦ none
  | some s' ↦ read_tokens tokens s'
]

-- The lines as `BufRead::lines` gives them; `none` is an error, at which `unwrap` panics.
unfoldable pub read_lines : List (Option Bytes) → Progress → Option Progress
read_lines [] s = some s
read_lines (none ∷ lines) s = none
read_lines (some line ∷ lines) s = elim (tokens_of line) [
  | none ↦ none
  | some tokens ↦ elim (read_tokens tokens s) [ none ↦ none | some s' ↦ read_lines lines s' ]
]

describe : Option Bytes → List ProtoRpc → Option ProtoServiceDescription
describe none rpcs = none
describe (some service_name) rpcs = some (record { service_name = service_name; rpc = rpcs })

unfoldable pub finish : Option Progress → Option ProtoServiceDescription
unfolding describe
finish none = none
finish (some s) = describe s.service_name s.rpcs

-- `none` is a file that cannot be opened.
unfoldable pub read_proto_file : Option (List (Option Bytes)) → Option ProtoServiceDescription
read_proto_file none = none
read_proto_file (some lines) = finish (read_lines lines start)

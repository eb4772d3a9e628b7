-- ===== src/Proto/ParamType.antt =====
-- param_type.rs: ParamType.
pub mod Declared
use my_grpc_extensions.Prelude.{
  ℕ, Bool, true, false, ◌||◌, List, [], ◌∷◌, ◌++◌, Option, none, some, Bytes, codes, bytes_eq, ◌==◌,
  if◌then◌else◌,
}

pub data ParamType : Type 0 where
  single : Bytes → ParamType
  stream : Bytes → ParamType

abbrev pub is_ascii_whitespace : ℕ → Bool
is_ascii_whitespace b = b == 32 || b == 9 || b == 10 || b == 12 || b == 13

-- a piece of `split_ascii_whitespace`: empty ones are skipped
unfoldable pub push_piece : Bytes → List Bytes → List Bytes
push_piece [] pieces = pieces
push_piece (b ∷ piece) pieces = (b ∷ piece) ∷ pieces

unfoldable pub split_ascii_whitespace : Bytes → Bytes → List Bytes
unfolding push_piece
split_ascii_whitespace piece [] = push_piece piece []
split_ascii_whitespace piece (b ∷ src) =
    let apart = split_ascii_whitespace [] src in
    let longer = split_ascii_whitespace (piece ++ b ∷ []) src in
    if is_ascii_whitespace b then push_piece piece apart else longer

-- the loop over the words: the name, and whether the word `stream` stands in front of it
unfoldable pub find_name : List Bytes → Bool → Option Bytes × Bool
find_name [] is_vec = (none, is_vec)
find_name (param ∷ params) is_vec =
    let after_stream = find_name params true in
    if bytes_eq param (codes "stream") then after_stream else (some param, is_vec)

-- `name.split('.').last().unwrap()`
unfoldable pub last_segment : Bytes → Bytes → Bytes
last_segment piece [] = piece
last_segment piece (b ∷ name) =
    let next = last_segment [] name in
    let longer = last_segment (piece ++ b ∷ []) name in if b == b'.' then next else longer

of_name : Option Bytes → Bool → Option ParamType
of_name none is_vec = none
of_name (some name) is_vec =
    if bytes_eq name (codes "google.protobuf.Empty")
    then some (single (codes "()"))
    else if is_vec
    then some (stream (last_segment [] name))
    else some (single (last_segment [] name))

unfoldable pub parse : Bytes → Option ParamType
unfolding of_name
parse src =
    let (name, is_vec) = find_name (split_ascii_whitespace [] src) false in of_name name is_vec

unfoldable pub is_stream : ParamType → Bool
is_stream (single name) = false
is_stream (stream name) = true

unfoldable pub get_name : ParamType → Bytes
get_name (single name) = name
get_name (stream name) = name

unfoldable pub get_input_param_invoke : ParamType → Bytes
get_input_param_invoke (single name) = codes "input_data"
get_input_param_invoke (stream name) = codes "input_data.get_consumer()"

unfoldable pub get_output_param_type : ParamType → Bytes
get_output_param_type (single name) = name
get_output_param_type (stream name) = codes "tonic::Streaming<" ++ (name ++ codes ">")

-- ===== src/Proto/Service/Lines.antt =====
-- `read_proto_file` over the lines of a file.
use my_grpc_extensions.Prelude.{List, [], ◌∷◌, ◌++◌, Option, none, some, Bytes}
use my_grpc_extensions.Proto.Tokens.{clean_up_comments}
use my_grpc_extensions.Proto.Tokens.Collecting.{line_words}
use my_grpc_extensions.Proto.Service.{Progress, read_tokens}

-- the tokens of all lines
abbrev pub file_tokens : List Bytes → List Bytes
file_tokens [] = []
file_tokens (line ∷ lines) = line_words (clean_up_comments line) ++ file_tokens lines

abbrev then_read : Option Progress → List Bytes → Option Progress
then_read none tokens = none
then_read (some s) tokens = read_tokens tokens s

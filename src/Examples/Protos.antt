-- ===== src/Examples/Protos.antt =====
-- A small service in the notation of protobuf.
use my_grpc_extensions.Prelude.{◌≡◌, List, [], ◌∷◌, some, Bytes, codes}
use my_grpc_extensions.Proto.Tokens.{clean_up_comments, tokens_of}
use my_grpc_extensions.Proto.Tokens.Collecting.{line_words, tokens_of-words}
use my_grpc_extensions.Proto.Service.Statements.{Method}

abbrev ping : Method
ping = record { name = codes "Ping"; ins = codes "Empty" ∷ []; outs = codes "Empty" ∷ [] }

abbrev get_all : Method
get_all = record {
  name = codes "GetAll";
  ins = codes "Request" ∷ [];
  outs = codes "stream" ∷ codes "Model" ∷ [];
}

abbrev get_one : Method
get_one = record { name = codes "GetOne"; ins = codes "Key" ∷ []; outs = codes "Model" ∷ [] }

abbrev heading : Bytes
heading = codes "service Greeter {"

abbrev file : List Bytes
file =
    heading
    ∷ codes "  rpc GetAll(Request) returns (stream Model);"
    ∷ codes "  // a comment"
    ∷ codes "  rpc Ping(Empty) returns (Empty); }"
    ∷ []

tokens_of-words_example : tokens_of heading ≡ some (line_words (clean_up_comments heading))
tokens_of-words_example = tokens_of-words heading

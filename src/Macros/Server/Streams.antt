-- ===== src/Macros/Server/Streams.antt =====
-- What find_stream_name finds.
use my_grpc_extensions.Prelude.{
  ◌≡◌, refl, false, List, [], ◌∷◌, none, Bytes, codes, bytes_eq, ends_with,
}
use my_grpc_extensions.Macros.Server.{split_spaces, stream_name_in, find_stream_name}

-- The words of a signature: a word that is no mark and no stream's name, or a word in a path
-- behind `::`, such as a type's name behind `Self ::`.
pub data Piece : Type 0 where
  plain : Bytes → Piece
  in_path : Bytes → Piece
  of_self : Bytes → Piece

abbrev pub words_of : List Piece → List Bytes
words_of [] = []
words_of (plain word ∷ pieces) = word ∷ words_of pieces
words_of (in_path word ∷ pieces) = codes "::" ∷ word ∷ words_of pieces
words_of (of_self word ∷ pieces) = codes "Self" ∷ codes "::" ∷ word ∷ words_of pieces

abbrev pub ArePieces : List Piece → Type 0
ArePieces [] = Unit {0}
ArePieces (plain word ∷ pieces) =
    (bytes_eq word (codes "Self") ≡ false)
    × (bytes_eq word (codes "::") ≡ false)
    × (ends_with word (codes "Stream") ≡ false)
    × ArePieces pieces
ArePieces (in_path word ∷ pieces) = (bytes_eq word (codes "Self") ≡ false) × ArePieces pieces
ArePieces (of_self word ∷ pieces) = ArePieces pieces

stream_name_in-pieces :
    (pieces : List Piece) → ArePieces pieces → stream_name_in false false (words_of pieces) ≡ none
unfolding stream_name_in bytes_eq ends_with
stream_name_in-pieces [] h = refl
stream_name_in-pieces (plain word ∷ pieces) (s, d, e, h) =
    rw (s, d, e) (stream_name_in-pieces pieces h)
stream_name_in-pieces (in_path word ∷ pieces) (s, h) = rw s (stream_name_in-pieces pieces h)
stream_name_in-pieces (of_self word ∷ pieces) h = stream_name_in-pieces pieces h

-- The name of a stream is missed wherever it stands as `Self :: NameStream` with single spaces:
-- if all names that end in `Stream` stand in paths behind `::`, no name is found and the macro
-- panics.
pub find_stream_name-pieces :
    (content : Bytes) (pieces : List Piece)
    → split_spaces [] content ≡ words_of pieces
    → ArePieces pieces
    → find_stream_name content ≡ none
unfolding find_stream_name
find_stream_name-pieces content pieces e h = rw e (stream_name_in-pieces pieces h)

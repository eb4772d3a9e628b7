-- ===== src/Proto/ParamType/Declared.antt =====
-- What `parse` makes of a parameter as a proto file declares it.
use my_grpc_extensions.Prelude.{
  ℕ, ◌≡◌, refl, sym, ap, ◌∙◌, Bool, true, false, not, ◌&&◌, [], ◌∷◌, ◌++◌, append_assoc, append-nil,
  Option, none, some, Bytes, codes, bytes_eq, ◌==◌, arith,
}
use my_grpc_extensions.Proto.ParamType.{
  ParamType, single, stream, is_ascii_whitespace, push_piece, split_ascii_whitespace, find_name,
  last_segment, of_name, parse,
}

abbrev pub none_is : (ℕ → Bool) → Bytes → Bool
none_is test [] = true
none_is test (b ∷ word) = not (test b) && none_is test word

-- `stream` in front of a type's name, or the name alone
abbrev pub declared : Bool → Bytes → Bytes
declared true word = codes "stream " ++ word
declared false word = word

-- a name within a package, or by itself
abbrev pub qualified : Option Bytes → Bytes → Bytes
qualified none name = name
qualified (some scope) name = scope ++ b'.' ∷ name

abbrev pub param_type : Bool → Bytes → ParamType
param_type true name = stream name
param_type false name = single name

none_parts : (a b : Bool) → (not a && b) ≡ true → (a ≡ false) × (b ≡ true)
none_parts true b h = cc
none_parts false b h = (refl, h)

split-word :
    (piece word : Bytes)
    → none_is is_ascii_whitespace word ≡ true
    → split_ascii_whitespace piece word ≡ push_piece (piece ++ word) []
unfolding split_ascii_whitespace
split-word piece [] h = ap (λ p. push_piece p []) (sym (append-nil piece))
split-word piece (b ∷ word) h =
    let (seen, plain) = none_parts (is_ascii_whitespace b) (none_is is_ascii_whitespace word) h in
    rw seen (
      split-word (piece ++ b ∷ []) word plain
      ∙ ap (λ p. push_piece p []) (append_assoc piece (b ∷ []) word))

last_segment-name :
    (piece name : Bytes)
    → none_is (λ b. b == b'.') name ≡ true
    → last_segment piece name ≡ piece ++ name
unfolding last_segment
last_segment-name piece [] h = sym (append-nil piece)
last_segment-name piece (b ∷ name) h =
    ground (arith, last_segment-name (piece ++ b ∷ []) name, append_assoc piece (b ∷ []) name)

last_segment-qualified :
    (piece scope name : Bytes)
    → none_is (λ b. b == b'.') name ≡ true
    → last_segment piece (scope ++ b'.' ∷ name) ≡ name
unfolding last_segment
last_segment-qualified piece [] name h = last_segment-name [] name h
last_segment-qualified piece (b ∷ scope) name h = ground (
  arith,
  last_segment-qualified [] scope name,
  last_segment-qualified (piece ++ b ∷ []) scope name,
)

last_segment-qualify :
    (scope : Option Bytes) (name : Bytes)
    → none_is (λ b. b == b'.') name ≡ true
    → last_segment [] (qualified scope name) ≡ name
last_segment-qualify none name h = last_segment-name [] name h
last_segment-qualify (some scope) name h = last_segment-qualified [] scope name h

-- one word that names a type
abbrev pub IsTypeName : Bytes → Type 0
IsTypeName word =
    (none_is is_ascii_whitespace word ≡ true)
    × (bytes_eq word [] ≡ false)
    × (bytes_eq word (codes "stream") ≡ false)
    × (bytes_eq word (codes "google.protobuf.Empty") ≡ false)

push_word-piece : (word : Bytes) → bytes_eq word [] ≡ false → push_piece word [] ≡ word ∷ []
unfolding push_piece bytes_eq
push_word-piece [] h = cc
push_word-piece (b ∷ word) h = refl

split-declared :
    (is_vec : Bool) (word : Bytes)
    → IsTypeName word
    → find_name (split_ascii_whitespace [] (declared is_vec word)) false ≡ (some word, is_vec)
unfolding split_ascii_whitespace find_name push_piece bytes_eq
split-declared false word (plain, ne, s, g) =
    rw (split-word [] word plain, push_word-piece word ne) (unfold find_name in rw s refl)
split-declared true word (plain, ne, s, g) =
    rw (split-word [] word plain, push_word-piece word ne) (unfold find_name in rw s refl)

of_name-word :
    (is_vec : Bool) (scope : Option Bytes) (name : Bytes)
    → bytes_eq (qualified scope name) (codes "google.protobuf.Empty") ≡ false
    → none_is (λ b. b == b'.') name ≡ true
    → of_name (some (qualified scope name)) is_vec ≡ some (param_type is_vec name)
unfolding of_name
of_name-word true scope name g h =
    rw g (ap (λ n. some (stream n)) (last_segment-qualify scope name h))
of_name-word false scope name g h =
    rw g (ap (λ n. some (single n)) (last_segment-qualify scope name h))

-- A parameter that is declared by the name of a type, within a package or not, with `stream` in
-- front of it or not, is read as a stream or a single value of the type of that name, without its
-- package. The name has no dot, and the word is no white space, not `stream` and not
-- google.protobuf.Empty.
pub parse-declared :
    (is_vec : Bool) (scope : Option Bytes) (name : Bytes)
    → IsTypeName (qualified scope name)
    → none_is (λ b. b == b'.') name ≡ true
    → parse (declared is_vec (qualified scope name)) ≡ some (param_type is_vec name)
unfolding parse
parse-declared is_vec scope name word h =
    rw (split-declared is_vec (qualified scope name) word) (of_name-word is_vec scope name word.3 h)

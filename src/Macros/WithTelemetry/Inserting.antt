-- ===== src/Macros/WithTelemetry/Inserting.antt =====
-- Where `inject_body` puts the telemetry's lines.
use my_grpc_extensions.Prelude.{
  ◌⊎◌, inl, inr, List, [], ◌∷◌, ◌++◌, Option, none, some, Bytes, codes,
}
use mathlib.Core.Option
use my_grpc_extensions.Macros.WithTelemetry.{
  Absent, Inserts, TokenUtils, inject_telemetry_line, or_else, inject_body,
}

-- the three ways in which a handler may open its request
abbrev opening_by : List Bytes → List Bytes
opening_by pattern =
    codes "let" ∷ (pattern ++ (codes "=" ∷ codes "request" ∷ codes "." ∷ codes "into_inner" ∷ []))

abbrev let_request : List Bytes
let_request = opening_by (codes "request" ∷ [])

abbrev let_underscored : List Bytes
let_underscored = opening_by (codes "_request" ∷ [])

abbrev let_mut_request : List Bytes
let_mut_request = opening_by (codes "mut" ∷ codes "request" ∷ [])

abbrev pub openings : List (List Bytes)
openings = let_request ∷ let_underscored ∷ let_mut_request ∷ []

-- The tokens with others in front of the first of the sequences that stands among them; none if all
-- are absent.
abbrev pub InsertsFirst : List Bytes → List (List Bytes) → List Bytes → Option (List Bytes) → Type 0
InsertsFirst tokens [] inserted none = Unit {0}
InsertsFirst tokens [] inserted (some result) = ⊥
InsertsFirst tokens (sequence ∷ sequences) inserted none =
    Absent sequence tokens × InsertsFirst tokens sequences inserted none
InsertsFirst tokens (sequence ∷ sequences) inserted (some result) =
    Inserts tokens sequence inserted (some result)
    ⊎ (Absent sequence tokens × InsertsFirst tokens sequences inserted (some result))

-- the text that is quoted for a function
abbrev pub lines_for : Bytes → Bytes
lines_for fn_name =
    codes
      "let my_telemetry = my_grpc_extensions::get_telemetry(&request.metadata(), request.remote_addr(), \""
    ++ (fn_name ++ codes "\"); let my_telemetry = my_telemetry.get_ctx();")

module _ (utils : TokenUtils) where
  open utils use {TokenStream, words}

  -- One search, and the searches behind it when it finds nothing.
  or_else-InsertsFirst :
      (tokens inserted sequence : List Bytes) (sequences : List (List Bytes))
      (found rest : Option TokenStream)
      → Inserts tokens sequence inserted (Option.map words found)
      → InsertsFirst tokens sequences inserted (Option.map words rest)
      → InsertsFirst tokens (sequence ∷ sequences) inserted (Option.map words (or_else found rest))
  or_else-InsertsFirst tokens inserted sequence sequences none none h k = (h, k)
  or_else-InsertsFirst tokens inserted sequence sequences none (some s) h k = inr (h, k)
  or_else-InsertsFirst tokens inserted sequence sequences (some s) rest h k = inl h

  last-InsertsFirst :
      (tokens inserted sequence : List Bytes) (found : Option TokenStream)
      → Inserts tokens sequence inserted (Option.map words found)
      → InsertsFirst tokens (sequence ∷ []) inserted (Option.map words found)
  last-InsertsFirst tokens inserted sequence none h = (h, tt)
  last-InsertsFirst tokens inserted sequence (some s) h = inl h

  pub inject_body-InsertsFirst :
      (fn_name : Bytes) (body : TokenStream)
      → InsertsFirst
          (words body)
          openings
          (words (utils.quote (lines_for fn_name)))
          (Option.map words (inject_body utils fn_name body))
  unfolding inject_body inject_telemetry_line
  inject_body-InsertsFirst fn_name body =
      let lines = utils.quote (lines_for fn_name) in
      let tokens = words body in
      let law =
        λ (sequence : List Bytes). utils.insert_token_before_sequence-Inserts body sequence lines in
      let third = utils.insert_token_before_sequence body let_mut_request lines in
      let second = utils.insert_token_before_sequence body let_underscored lines in
      or_else-InsertsFirst tokens (words lines) let_request (let_underscored ∷ let_mut_request ∷ [])
        (utils.insert_token_before_sequence body let_request lines) (or_else second third)
        (law let_request)
        (or_else-InsertsFirst tokens (words lines) let_underscored (let_mut_request ∷ []) second
          third (law let_underscored)
          (last-InsertsFirst tokens (words lines) let_mut_request third (law let_mut_request)))

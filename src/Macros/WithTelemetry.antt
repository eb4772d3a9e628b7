-- ===== src/Macros/WithTelemetry.antt =====
-- my-grpc-server-macros/src/with_telemetry/generate.rs and consts.rs: the attribute that puts the
-- telemetry's lines into a handler. A group's tokens are a stream that only types_reader looks into.
pub mod Inserting
pub mod Injecting
use my_grpc_extensions.Prelude.{
  Bool, true, false, List, [], ◌∷◌, ◌++◌, Option, none, some, Bytes, codes, bytes_eq, ◌≡◌, ◌≢◌,
  if◌then◌else◌,
}
use mathlib.Core.Option

-- proc_macro::Delimiter and proc_macro::TokenTree
pub data Delimiter : Type 0 where
  parenthesis brace bracket invisible : Delimiter

pub data TokenTree (TokenStream : Type 0) : Type 0 where
  group : Delimiter → TokenStream → TokenTree TokenStream
  ident : Bytes → TokenTree TokenStream
  punct : Bytes → TokenTree TokenStream
  literal : Bytes → TokenTree TokenStream

-- the sequence stands nowhere among the tokens
abbrev pub Absent : List Bytes → List Bytes → Type 0
Absent sequence tokens = (before after : List Bytes) → tokens ≢ before ++ (sequence ++ after)

-- The first tokens with others in front of a place where the sequence stands, and nothing else
-- changed; none if it stands nowhere.
abbrev pub Inserts : List Bytes → List Bytes → List Bytes → Option (List Bytes) → Type 0
Inserts tokens sequence inserted none = Absent sequence tokens
Inserts tokens sequence inserted (some result) =
    (before after : List Bytes) × (tokens ≡ before ++ (sequence ++ after))
    × (result ≡ before ++ (inserted ++ (sequence ++ after)))

-- proc_macro2 and types_reader::token_stream_utils; `words` are the texts of a stream's tokens
pub record TokenUtils : Type 1 where
  pub TokenStream : Type 0
  pub words : TokenStream → List Bytes
  pub quote : Bytes → TokenStream
  pub insert_token_before_sequence : TokenStream → List Bytes → TokenStream → Option TokenStream
  pub insert_token_before_sequence-Inserts :
      (stream : TokenStream) (sequence : List Bytes) (tokens : TokenStream)
      → Inserts
          (words stream)
          sequence
          (words tokens)
          (Option.map words (insert_token_before_sequence stream sequence tokens))

-- consts.rs, as the text of what is quoted
unfoldable pub inject_telemetry_line : Bytes → Bytes
inject_telemetry_line fn_name =
    codes
      "let my_telemetry = my_grpc_extensions::get_telemetry(&request.metadata(), request.remote_addr(), \""
    ++ (fn_name ++ codes "\"); let my_telemetry = my_telemetry.get_ctx();")

-- the variables of the loop in `generate`
pub record Injection : Type 0 where
  pub fn_is_engaged : Bool
  pub fn_name : Option Bytes
  pub injection_is_done : Bool

abbrev pub into_inner_sequence : List Bytes
into_inner_sequence =
    codes "request" ∷ codes "=" ∷ codes "request" ∷ codes "." ∷ codes "into_inner" ∷ []

abbrev pub or_else : {A : Type 0} → Option A → Option A → Option A
or_else (some a) o = some a
or_else none o = o

module _ (utils : TokenUtils) where
  open utils use {TokenStream}

  -- `none` is the panic
  unfoldable pub inject_body : Bytes → TokenStream → Option TokenStream
  unfolding inject_telemetry_line
  inject_body fn_name body =
      let tokens_to_insert = utils.quote (inject_telemetry_line fn_name) in
      or_else
        (utils.insert_token_before_sequence body (codes "let" ∷ into_inner_sequence)
          tokens_to_insert)
        (or_else
          (utils.insert_token_before_sequence body
            (codes "let"
              ∷ codes "_request"
              ∷ codes "="
              ∷ codes "request"
              ∷ codes "."
              ∷ codes "into_inner"
              ∷ [])
            tokens_to_insert)
          (utils.insert_token_before_sequence body (codes "let" ∷ codes "mut" ∷ into_inner_sequence)
            tokens_to_insert))

  unfoldable pub see_ident : Bytes → Injection → Injection
  see_ident ident_string s =
      if s.injection_is_done
      then s
      else if s.fn_is_engaged
      then record s { fn_name = some ident_string; fn_is_engaged = false }
      else if bytes_eq ident_string (codes "fn")
      then record s { fn_is_engaged = true }
      else s

  unfoldable pub replace_body :
      Option TokenStream → Injection → Option (TokenTree TokenStream × Injection)
  replace_body none s = none
  replace_body (some body) s = some (group brace body, record s { injection_is_done = true })

  unfoldable pub see_group :
      Option Bytes
      → Delimiter
      → TokenStream
      → Injection
      → Option (TokenTree TokenStream × Injection)
  unfolding replace_body
  see_group none delimiter body s = some (group delimiter body, s)
  see_group (some fn_name) brace body s = replace_body (inject_body fn_name body) s
  see_group (some fn_name) parenthesis body s = some (group parenthesis body, s)
  see_group (some fn_name) bracket body s = some (group bracket body, s)
  see_group (some fn_name) invisible body s = some (group invisible body, s)

  -- one round of the loop: what it pushes, and the variables behind it
  unfoldable pub see_token :
      TokenTree TokenStream → Injection → Option (TokenTree TokenStream × Injection)
  unfolding see_ident see_group
  see_token (ident ident_string) s = some (ident ident_string, see_ident ident_string s)
  see_token (group delimiter body) s =
      if s.injection_is_done
      then some (group delimiter body, s)
      else see_group s.fn_name delimiter body s
  see_token (punct mark) s = some (punct mark, s)
  see_token (literal text) s = some (literal text, s)

  unfoldable pub push :
      Option (TokenTree TokenStream × Injection)
      → (Injection → Option (List (TokenTree TokenStream)))
      → Option (List (TokenTree TokenStream))
  push none rest = none
  push (some (token, s)) rest = Option.map (λ result. token ∷ result) (rest s)

  unfoldable pub see_tokens :
      List (TokenTree TokenStream) → Injection → Option (List (TokenTree TokenStream))
  unfolding push
  see_tokens [] s = some []
  see_tokens (token ∷ input) s = push (see_token token s) (see_tokens input)

  -- `generate`, whose attribute is ignored
  unfoldable pub inject_telemetry :
      List (TokenTree TokenStream) → Option (List (TokenTree TokenStream))
  inject_telemetry input =
      see_tokens input (record { fn_is_engaged = false; fn_name = none; injection_is_done = false })

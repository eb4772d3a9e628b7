-- ===== src/Examples/Injected.antt =====
-- The attribute with_telemetry on a small handler; a stream of tokens is their texts.
use my_grpc_extensions.Prelude.{
  ◌≡◌, refl, Bool, true, false, ◌&&◌, List, [], ◌∷◌, ◌++◌, Option, none, some, Bytes, codes,
  bytes_eq, bytes_eq_iff, bytes_eq_refl, ap, ap₂, sym, subst, ◌≢◌, Bool-cases, inl, inr, arith,
  if◌then◌else◌,
}
use mathlib.Core.Option
use mathlib.Core.Option.{none-ne-some}
use my_grpc_extensions.Macros.WithTelemetry.{
  parenthesis, TokenTree, group, ident, punct, TokenUtils, Inserts, inject_telemetry,
}
use my_grpc_extensions.Macros.WithTelemetry.Inserting.{openings, InsertsFirst, lines_for}
use my_grpc_extensions.Macros.WithTelemetry.Injecting.{handler, inject_telemetry-inject_body}

abbrev begins_with : List Bytes → List Bytes → Bool
begins_with [] stream = true
begins_with (word ∷ words) [] = false
begins_with (word ∷ words) (token ∷ stream) = bytes_eq word token && begins_with words stream

begins_with-append : (words after : List Bytes) → begins_with words (words ++ after) ≡ true
begins_with-append [] after = refl
begins_with-append (word ∷ words) after =
    rw (bytes_eq_refl word, begins_with-append words after) refl

begins_with-rest :
    (words stream : List Bytes)
    → begins_with words stream ≡ true
    → (after : List Bytes) × (stream ≡ words ++ after)
begins_with-rest [] stream h = (stream, refl)
begins_with-rest (word ∷ words) [] h = absurd (ground arith)
begins_with-rest (word ∷ words) (token ∷ stream) h =
    let both : (bytes_eq word token ≡ true) × (begins_with words stream ≡ true) = ground arith in
    let (after, e) = begins_with-rest words stream both.1 in
    (after, ap₂ ◌∷◌ (sym ((bytes_eq_iff word token).0 both.0)) e)

abbrev insert_before : List Bytes → List Bytes → List Bytes → Option (List Bytes)
insert_before [] sequence tokens = if begins_with sequence [] then some (tokens ++ []) else none
insert_before (token ∷ stream) sequence tokens =
    let further = Option.map (λ rest. token ∷ rest) (insert_before stream sequence tokens) in
    if begins_with sequence (token ∷ stream) then some (tokens ++ token ∷ stream) else further

-- a result of `insert_before`, if there is one
abbrev Placed : List Bytes → List Bytes → List Bytes → Option (List Bytes) → Type 0
Placed stream sequence tokens none = Unit {0}
Placed stream sequence tokens (some result) = Inserts stream sequence tokens (some result)

Placed-later :
    (token : Bytes) (stream sequence tokens : List Bytes) (o : Option (List Bytes))
    → Placed stream sequence tokens o
    → Placed (token ∷ stream) sequence tokens (Option.map (λ rest. token ∷ rest) o)
Placed-later token stream sequence tokens none h = tt
Placed-later token stream sequence tokens (some result) (before, after, e, f) =
    (token ∷ before, after, ap (◌∷◌ token) e, ap (◌∷◌ token) f)

insert_before-Placed :
    (stream sequence tokens : List Bytes)
    → Placed stream sequence tokens (insert_before stream sequence tokens)
insert_before-Placed [] sequence tokens = elim (Bool-cases (begins_with sequence [])) [
  | inl b ↦
      let (after, e) = begins_with-rest sequence [] b in
      rw b ([], after, e, ap (λ xs. tokens ++ xs) e)
  | inr b ↦ rw b tt
]
insert_before-Placed (token ∷ stream) sequence tokens =
    elim (Bool-cases (begins_with sequence (token ∷ stream))) [
      | inl b ↦
          let (after, e) = begins_with-rest sequence (token ∷ stream) b in
          rw b ([], after, e, ap (λ xs. tokens ++ xs) e)
      | inr b ↦ rw b (
          Placed-later token stream sequence tokens (insert_before stream sequence tokens)
            (insert_before-Placed stream sequence tokens))
    ]

found_at_front :
    (stream sequence tokens : List Bytes)
    → begins_with sequence stream ≡ true
    → insert_before stream sequence tokens ≢ none
found_at_front [] sequence tokens h = rw h (λ e. none-ne-some _ (sym e))
found_at_front (token ∷ stream) sequence tokens h = rw h (λ e. none-ne-some _ (sym e))

map_not_none :
    (token : Bytes) (o : Option (List Bytes))
    → o ≢ none
    → Option.map (λ rest. token ∷ rest) o ≢ none
map_not_none token none h e = h refl
map_not_none token (some result) h e = none-ne-some _ (sym e)

found_behind :
    (before sequence after tokens : List Bytes)
    → insert_before (before ++ (sequence ++ after)) sequence tokens ≢ none
found_behind [] sequence after tokens =
    found_at_front (sequence ++ after) sequence tokens (begins_with-append sequence after)
found_behind (token ∷ before) sequence after tokens =
    elim (Bool-cases (begins_with sequence (token ∷ (before ++ (sequence ++ after))))) [
      | inl b ↦ found_at_front (token ∷ (before ++ (sequence ++ after))) sequence tokens b
      | inr b ↦ rw b (map_not_none token _ (found_behind before sequence after tokens))
    ]

Placed-Inserts :
    (stream sequence tokens : List Bytes) (o : Option (List Bytes))
    → insert_before stream sequence tokens ≡ o
    → Placed stream sequence tokens o
    → Inserts stream sequence tokens o
Placed-Inserts stream sequence tokens none e h = λ before after f.
    found_behind before sequence after tokens
      (subst (λ s. insert_before s sequence tokens ≡ none) f e)
Placed-Inserts stream sequence tokens (some result) e h = h

map_same : (o : Option (List Bytes)) → Option.map (λ s. s) o ≡ o
map_same none = refl
map_same (some s) = refl

abbrev words : TokenUtils
words = record {
  TokenStream = List Bytes;
  words = λ stream. stream;
  quote = λ text. text ∷ [];
  insert_token_before_sequence = insert_before;
  insert_token_before_sequence-Inserts = λ stream sequence tokens.
      subst (Inserts stream sequence tokens) (sym (map_same (insert_before stream sequence tokens)))
        (Placed-Inserts stream sequence tokens _ refl
          (insert_before-Placed stream sequence tokens));
}

abbrev front : List (TokenTree (List Bytes))
front = ident (codes "pub") ∷ ident (codes "async") ∷ []

abbrev signature : List (TokenTree (List Bytes))
signature =
    group parenthesis (codes "request" ∷ codes ":" ∷ codes "Get" ∷ [])
    ∷ punct (codes "->")
    ∷ ident (codes "Got")
    ∷ []

abbrev body : List Bytes
body =
    codes "let"
    ∷ codes "request"
    ∷ codes "="
    ∷ codes "request"
    ∷ codes "."
    ∷ codes "into_inner"
    ∷ []

inject_telemetry-inject_body_example :
    ((injected : Option (List Bytes)) × (inject_telemetry words
          (handler words front (codes "get") signature [] body)
        ≡ Option.map (handler words front (codes "get") signature []) injected)
      × InsertsFirst body openings
          (lines_for (codes "get") ∷ [])
          (Option.map (λ stream. stream) injected))
    × (inject_telemetry words (front ++ ident (codes "fn") ∷ ident (codes "get") ∷ signature)
        ≡ some (front ++ ident (codes "fn") ∷ ident (codes "get") ∷ signature))
unfolding bytes_eq
inject_telemetry-inject_body_example =
    inject_telemetry-inject_body words front (codes "get") signature [] body (refl, (refl, tt))
      (tt, (tt, (refl, tt))) (tt, (tt, (tt, tt)))

-- ===== src/Macros/WithTelemetry/Injecting.antt =====
-- What the attribute makes of a handler: the lines stand in its body, and the rest is as it was.
use my_grpc_extensions.Prelude.{
  ◌≡◌, refl, sym, ap, ◌∙◌, Option-cases, inl, inr, true, false, List, [], ◌∷◌, ◌++◌, append-nil,
  append_assoc, subst, Option, none, some, Bytes, codes, bytes_eq,
}
use mathlib.Core.Option
use my_grpc_extensions.Macros.WithTelemetry.{
  parenthesis, brace, bracket, invisible, TokenTree, group, ident, punct, literal, TokenUtils,
  Injection, inject_body, see_ident, replace_body, see_group, see_token, push, see_tokens,
  inject_telemetry,
}
use my_grpc_extensions.Macros.WithTelemetry.Inserting.{
  openings, InsertsFirst, lines_for, inject_body-InsertsFirst,
}

module _ (utils : TokenUtils) where
  open utils use {TokenStream}

  -- no identifier `fn` among the tokens
  abbrev pub NotFn : TokenTree TokenStream → Type 0
  NotFn (ident text) = bytes_eq text (codes "fn") ≡ false
  NotFn (group delimiter body) = Unit {0}
  NotFn (punct mark) = Unit {0}
  NotFn (literal text) = Unit {0}

  abbrev pub NoFn : List (TokenTree TokenStream) → Type 0
  NoFn [] = Unit {0}
  NoFn (token ∷ tokens) = NotFn token × NoFn tokens

  -- no group in braces among them
  abbrev pub NotBraced : TokenTree TokenStream → Type 0
  NotBraced (ident text) = Unit {0}
  NotBraced (group parenthesis body) = Unit {0}
  NotBraced (group brace body) = ⊥
  NotBraced (group bracket body) = Unit {0}
  NotBraced (group invisible body) = Unit {0}
  NotBraced (punct mark) = Unit {0}
  NotBraced (literal text) = Unit {0}

  abbrev pub NoBraces : List (TokenTree TokenStream) → Type 0
  NoBraces [] = Unit {0}
  NoBraces (token ∷ tokens) = NotBraced token × NoBraces tokens

  -- a function with its attributes and its visibility in front, and what stands behind its body
  abbrev pub handler :
      List (TokenTree TokenStream)
      → Bytes
      → List (TokenTree TokenStream)
      → List (TokenTree TokenStream)
      → TokenStream
      → List (TokenTree TokenStream)
  handler front fn_name signature behind body =
      front ++ ident (codes "fn") ∷ ident fn_name ∷ (signature ++ group brace body ∷ behind)

  abbrev looking : Option Bytes → Injection
  looking fn_name = record { fn_is_engaged = false; fn_name = fn_name; injection_is_done = false }

  abbrev put :
      List (TokenTree TokenStream)
      → Option (List (TokenTree TokenStream))
      → Option (List (TokenTree TokenStream))
  put tokens = Option.map (λ rest. tokens ++ rest)

  -- tokens that the loop passes on and does not note
  abbrev Unnoted : Injection → List (TokenTree TokenStream) → Type 0
  Unnoted s [] = Unit {0}
  Unnoted s (token ∷ tokens) = (see_token utils token s ≡ some (token, s)) × Unnoted s tokens

  see_tokens_after :
      (token : TokenTree TokenStream) (rest : List (TokenTree TokenStream)) (s t : Injection)
      → see_token utils token s ≡ some (token, t)
      → see_tokens utils (token ∷ rest) s ≡ put (token ∷ []) (see_tokens utils rest t)
  unfolding see_tokens push
  see_tokens_after token rest s t h = rw h refl

  put_nothing : (o : Option (List (TokenTree TokenStream))) → put [] o ≡ o
  put_nothing none = refl
  put_nothing (some result) = refl

  put-put :
      (front back : List (TokenTree TokenStream)) (o : Option (List (TokenTree TokenStream)))
      → put front (put back o) ≡ put (front ++ back) o
  put-put front back none = refl
  put-put front back (some result) = ap some (sym (append_assoc front back result))

  see_tokens-Unnoted :
      (tokens rest : List (TokenTree TokenStream)) (s : Injection)
      → Unnoted s tokens
      → see_tokens utils (tokens ++ rest) s ≡ put tokens (see_tokens utils rest s)
  see_tokens-Unnoted [] rest s h = sym (put_nothing (see_tokens utils rest s))
  see_tokens-Unnoted (token ∷ tokens) rest s h =
      see_tokens_after token (tokens ++ rest) s s h.0
      ∙ ap (put (token ∷ [])) (see_tokens-Unnoted tokens rest s h.1)
      ∙ put-put (token ∷ []) tokens (see_tokens utils rest s)

  NoFn-Unnoted :
      (tokens : List (TokenTree TokenStream)) → NoFn tokens → Unnoted (looking none) tokens
  unfolding see_token see_ident see_group
  NoFn-Unnoted [] h = tt
  NoFn-Unnoted (ident text ∷ tokens) h = (rw h.0 refl, NoFn-Unnoted tokens h.1)
  NoFn-Unnoted (group delimiter body ∷ tokens) h = (refl, NoFn-Unnoted tokens h.1)
  NoFn-Unnoted (punct mark ∷ tokens) h = (refl, NoFn-Unnoted tokens h.1)
  NoFn-Unnoted (literal text ∷ tokens) h = (refl, NoFn-Unnoted tokens h.1)

  NoBraces-Unnoted :
      (tokens : List (TokenTree TokenStream)) (fn_name : Bytes)
      → NoFn tokens
      → NoBraces tokens
      → Unnoted (looking (some fn_name)) tokens
  unfolding see_token see_ident see_group
  NoBraces-Unnoted [] fn_name h k = tt
  NoBraces-Unnoted (ident text ∷ tokens) fn_name h k =
      (rw h.0 refl, NoBraces-Unnoted tokens fn_name h.1 k.1)
  NoBraces-Unnoted (group parenthesis body ∷ tokens) fn_name h k =
      (refl, NoBraces-Unnoted tokens fn_name h.1 k.1)
  NoBraces-Unnoted (group brace body ∷ tokens) fn_name h k = absurd k.0
  NoBraces-Unnoted (group bracket body ∷ tokens) fn_name h k =
      (refl, NoBraces-Unnoted tokens fn_name h.1 k.1)
  NoBraces-Unnoted (group invisible body ∷ tokens) fn_name h k =
      (refl, NoBraces-Unnoted tokens fn_name h.1 k.1)
  NoBraces-Unnoted (punct mark ∷ tokens) fn_name h k =
      (refl, NoBraces-Unnoted tokens fn_name h.1 k.1)
  NoBraces-Unnoted (literal text ∷ tokens) fn_name h k =
      (refl, NoBraces-Unnoted tokens fn_name h.1 k.1)

  abbrev done_with : Bytes → Injection
  done_with fn_name = record (looking (some fn_name)) { injection_is_done = true }

  done-Unnoted :
      (tokens : List (TokenTree TokenStream)) (fn_name : Bytes) → Unnoted (done_with fn_name) tokens
  unfolding see_token see_ident
  done-Unnoted [] fn_name = tt
  done-Unnoted (ident text ∷ tokens) fn_name = (refl, done-Unnoted tokens fn_name)
  done-Unnoted (group delimiter body ∷ tokens) fn_name = (refl, done-Unnoted tokens fn_name)
  done-Unnoted (punct mark ∷ tokens) fn_name = (refl, done-Unnoted tokens fn_name)
  done-Unnoted (literal text ∷ tokens) fn_name = (refl, done-Unnoted tokens fn_name)

  see_tokens_behind :
      (behind : List (TokenTree TokenStream)) (fn_name : Bytes)
      → see_tokens utils behind (done_with fn_name) ≡ some behind
  unfolding see_tokens
  see_tokens_behind [] fn_name = refl
  see_tokens_behind (token ∷ behind) fn_name =
      see_tokens_after token behind (done_with fn_name) (done_with fn_name)
        (done-Unnoted (token ∷ behind) fn_name).0
      ∙ ap (put (token ∷ [])) (see_tokens_behind behind fn_name)

  -- the body, when the name is known
  see_tokens_body :
      (body : TokenStream) (behind : List (TokenTree TokenStream)) (fn_name : Bytes)
      → see_tokens utils (group brace body ∷ behind) (looking (some fn_name))
        ≡ Option.map (λ injected. group brace injected ∷ behind) (inject_body utils fn_name body)
  unfolding see_tokens see_token see_group replace_body push
  see_tokens_body body behind fn_name = elim (Option-cases (inject_body utils fn_name body)) [
    | inl e ↦ rw e refl
    | inr (injected, e) ↦
        rw e (ap (put (group brace injected ∷ [])) (see_tokens_behind behind fn_name))
  ]

  -- the name, behind `fn`
  see_tokens_named :
      (fn_name : Bytes) (rest : List (TokenTree TokenStream))
      → see_tokens utils (ident (codes "fn") ∷ ident fn_name ∷ rest) (looking none)
        ≡ put
            (ident (codes "fn") ∷ ident fn_name ∷ [])
            (see_tokens utils rest (looking (some fn_name)))
  unfolding see_tokens see_token see_ident push bytes_eq
  see_tokens_named fn_name rest =
      put-put (ident (codes "fn") ∷ []) (ident fn_name ∷ [])
        (see_tokens utils rest (looking (some fn_name)))

  -- from the start to behind the signature
  see_tokens_signature :
      (front : List (TokenTree TokenStream)) (fn_name : Bytes)
      (signature rest : List (TokenTree TokenStream))
      → NoFn front
      → NoFn signature
      → NoBraces signature
      → inject_telemetry utils (front ++ ident (codes "fn") ∷ ident fn_name ∷ (signature ++ rest))
        ≡ put front (
            put
              (ident (codes "fn") ∷ ident fn_name ∷ [])
              (put signature (see_tokens utils rest (looking (some fn_name)))))
  unfolding inject_telemetry
  see_tokens_signature front fn_name signature rest h k l =
      see_tokens-Unnoted front _ (looking none) (NoFn-Unnoted front h)
      ∙ ap (put front) (
          see_tokens_named fn_name (signature ++ rest)
          ∙ ap (put (ident (codes "fn") ∷ ident fn_name ∷ [])) (
              see_tokens-Unnoted signature rest (looking (some fn_name))
                (NoBraces-Unnoted signature fn_name k l)))

  with_body :
      (front : List (TokenTree TokenStream)) (fn_name : Bytes)
      (signature behind : List (TokenTree TokenStream)) (o : Option TokenStream)
      → put front (
          put
            (ident (codes "fn") ∷ ident fn_name ∷ [])
            (put signature (Option.map (λ injected. group brace injected ∷ behind) o)))
        ≡ Option.map (handler front fn_name signature behind) o
  with_body front fn_name signature behind none = refl
  with_body front fn_name signature behind (some injected) = refl

  without_body :
      (front : List (TokenTree TokenStream)) (fn_name : Bytes)
      (signature : List (TokenTree TokenStream))
      → NoFn front
      → NoFn signature
      → NoBraces signature
      → inject_telemetry utils (front ++ ident (codes "fn") ∷ ident fn_name ∷ signature)
        ≡ some (front ++ ident (codes "fn") ∷ ident fn_name ∷ signature)
  unfolding see_tokens
  without_body front fn_name signature h k l =
      subst
        (λ all.
          inject_telemetry utils (front ++ ident (codes "fn") ∷ ident fn_name ∷ all)
          ≡ some (front ++ ident (codes "fn") ∷ ident fn_name ∷ all))
        (append-nil signature) (see_tokens_signature front fn_name signature [] h k l)

  -- The attribute on a function whose signature has no braces and no further `fn`, with no function
  -- in front of it: the telemetry's lines, with its name, are put into its body in front of
  -- `let request = request.into_inner`, or else of the same with `_request`, or else with
  -- `mut request`, and nothing else is changed, whatever stands behind the body; it panics exactly
  -- if the body has none of the three. A function without a body is left as it is.
  pub inject_telemetry-inject_body :
      (front : List (TokenTree TokenStream)) (fn_name : Bytes)
      (signature behind : List (TokenTree TokenStream)) (body : TokenStream)
      → NoFn front
      → NoFn signature
      → NoBraces signature
      → ((injected : Option TokenStream) × (inject_telemetry utils
              (handler front fn_name signature behind body)
            ≡ Option.map (handler front fn_name signature behind) injected)
          × InsertsFirst
              (utils.words body)
              openings
              (utils.words (utils.quote (lines_for fn_name)))
              (Option.map utils.words injected))
        × (inject_telemetry utils (front ++ ident (codes "fn") ∷ ident fn_name ∷ signature)
            ≡ some (front ++ ident (codes "fn") ∷ ident fn_name ∷ signature))
  inject_telemetry-inject_body front fn_name signature behind body h k l = (
    (
      inject_body utils fn_name body,
      see_tokens_signature front fn_name signature (group brace body ∷ behind) h k l
          ∙ ap (λ o. put front (put (ident (codes "fn") ∷ ident fn_name ∷ []) (put signature o)))
              (see_tokens_body body behind fn_name)
          ∙ with_body front fn_name signature behind (inject_body utils fn_name body),
      inject_body-InsertsFirst utils fn_name body,
    ),
    without_body front fn_name signature h k l,
  )

-- ===== src/Proto/Service/Statements.antt =====
-- What `read_proto_file` makes of a service whose methods end in `;`.
use my_grpc_extensions.Prelude.{
  ◌≡◌, refl, sym, ap, ◌∙◌, Bool, true, false, not, ◌&&◌, List, [], ◌∷◌, ◌++◌, append-nil,
  append_assoc, some, Bytes, codes, bytes_eq, arith, if◌then◌else◌,
}
use my_grpc_extensions.Proto.Service.{
  ProtoRpc, nothing, rpc_expecting_input_parameter, rpc_expecting_output_parameter, Progress, start,
  push_word, step, read_tokens, finish,
}

-- A method as it is declared: the words of its parameters are such as `stream` and a type's name.
pub record Method : Type 0 where
  pub name : Bytes
  pub ins : List Bytes
  pub outs : List Bytes

abbrev pub is_in_word : Bytes → Bool
is_in_word w = not (bytes_eq w (codes "(")) && not (bytes_eq w (codes ")"))

-- no mark and not the keyword `returns`
abbrev pub is_out_word : Bytes → Bool
is_out_word w = is_in_word w && not (bytes_eq w (codes "returns")) && not (bytes_eq w (codes ";"))

abbrev pub all_words : (Bytes → Bool) → List Bytes → Bool
all_words test [] = true
all_words test (w ∷ ws) = test w && all_words test ws

abbrev pub IsMethod : Method → Type 0
IsMethod m = (all_words is_in_word m.ins ≡ true) × (all_words is_out_word m.outs ≡ true)

abbrev pub AreMethods : List Method → Type 0
AreMethods [] = Unit {0}
AreMethods (m ∷ ms) = IsMethod m × AreMethods ms

-- `rpc Name ( ins ) returns ( outs ) ;`
abbrev pub method_tokens : Method → List Bytes → List Bytes
method_tokens m rest =
    codes "rpc"
    ∷ m.name
    ∷ codes "("
    ∷ (m.ins
        ++ (codes ")" ∷ codes "returns" ∷ codes "(" ∷ (m.outs ++ (codes ")" ∷ codes ";" ∷ rest))))

abbrev pub methods_tokens : List Method → List Bytes → List Bytes
methods_tokens [] rest = rest
methods_tokens (m ∷ ms) rest = method_tokens m (methods_tokens ms rest)

-- `service Name { ... }`
abbrev pub service_tokens : Bytes → List Method → List Bytes
service_tokens name ms = codes "service" ∷ name ∷ codes "{" ∷ methods_tokens ms (codes "}" ∷ [])

-- the words with a space between each two
abbrev pub push_words : Bytes → List Bytes → Bytes
push_words param [] = param
push_words param (w ∷ ws) = push_words (push_word param w) ws

abbrev pub join : List Bytes → Bytes
join = push_words []

abbrev pub recorded : List Method → List ProtoRpc
recorded [] = []
recorded (m ∷ ms) =
    if bytes_eq m.name (codes "Ping")
    then recorded ms
    else record { name = m.name; input_param = join m.ins; output_param = join m.outs }
      ∷ recorded ms

and_parts : (a b : Bool) → (a && b) ≡ true → (a ≡ true) × (b ≡ true)
and_parts true b h = (refl, h)
and_parts false b h = cc

-- within the parentheses of the input parameter
read_ins :
    (ws rest : List Bytes) (s : Progress)
    → s.current_token ≡ rpc_expecting_input_parameter
    → all_words is_in_word ws ≡ true
    → read_tokens (ws ++ rest) s
      ≡ read_tokens rest (record s { input_param_name = push_words s.input_param_name ws })
unfolding read_tokens step
read_ins [] rest s e h = refl
read_ins (w ∷ ws) rest s e h =
    ground
      (arith, read_ins ws rest (record s { input_param_name = push_word s.input_param_name w }) e)

pub read_outs :
    (ws rest : List Bytes) (s : Progress)
    → s.current_token ≡ rpc_expecting_output_parameter
    → all_words is_out_word ws ≡ true
    → read_tokens (ws ++ rest) s
      ≡ read_tokens rest (record s { out_param_name = push_words s.out_param_name ws })
unfolding read_tokens step
read_outs [] rest s e h = refl
read_outs (w ∷ ws) rest s e h =
    ground (arith, read_outs ws rest (record s { out_param_name = push_word s.out_param_name w }) e)

abbrev pub at_out : Method → Progress → Progress
at_out m s = record s {
  current_token = rpc_expecting_output_parameter;
  rpc_name = some m.name;
  input_param_name = join m.ins;
  out_param_name = join m.outs;
}

-- after the method, and the `;` that was pushed behind its output parameter
abbrev after_method : Method → Progress → Progress
after_method m s = record (at_out m s) {
  current_token = nothing;
  out_param_name = push_word (join m.outs) (codes ";");
  rpcs =
      if bytes_eq m.name (codes "Ping")
      then s.rpcs
      else s.rpcs
        ++ record { name = m.name; input_param = join m.ins; output_param = join m.outs } ∷ [];
}

read_rpc :
    (name : Bytes) (rest : List Bytes) (s : Progress)
    → s.current_token ≡ nothing
    → read_tokens (codes "rpc" ∷ name ∷ codes "(" ∷ rest) s
      ≡ read_tokens rest (record s {
        current_token = rpc_expecting_input_parameter;
        rpc_name = some name;
        input_param_name = [];
        out_param_name = [];
      })
unfolding read_tokens step bytes_eq
read_rpc name rest s e = rw (e, step) refl

-- up to the closing parenthesis of the output parameter
pub read_heading :
    (m : Method) (rest : List Bytes) (s : Progress)
    → s.current_token ≡ nothing
    → IsMethod m
    → read_tokens
        (codes "rpc"
          ∷ m.name
          ∷ codes "("
          ∷ (m.ins ++ (codes ")" ∷ codes "returns" ∷ codes "(" ∷ (m.outs ++ (codes ")" ∷ rest)))))
        s
      ≡ read_tokens rest (at_out m s)
unfolding read_tokens step bytes_eq
read_heading m rest s e h =
    read_rpc m.name _ s e
    ∙ read_ins m.ins _
        (record s {
          current_token = rpc_expecting_input_parameter;
          rpc_name = some m.name;
          input_param_name = [];
          out_param_name = [];
        })
        refl h.0
    ∙ read_outs m.outs _
        (record s {
          current_token = rpc_expecting_output_parameter;
          rpc_name = some m.name;
          input_param_name = join m.ins;
          out_param_name = [];
        })
        refl h.1

read_method :
    (m : Method) (rest : List Bytes) (s : Progress)
    → s.current_token ≡ nothing
    → IsMethod m
    → read_tokens (method_tokens m rest) s ≡ read_tokens rest (after_method m s)
unfolding read_tokens step bytes_eq
read_method m rest s e h = read_heading m (codes ";" ∷ rest) s e h

after_methods : List Method → Progress → Progress
after_methods [] s = s
after_methods (m ∷ ms) s = after_methods ms (after_method m s)

read_methods :
    (ms : List Method) (rest : List Bytes) (s : Progress)
    → s.current_token ≡ nothing
    → AreMethods ms
    → read_tokens (methods_tokens ms rest) s ≡ read_tokens rest (after_methods ms s)
unfolding after_methods
read_methods [] rest s e h = refl
read_methods (m ∷ ms) rest s e h =
    read_method m (methods_tokens ms rest) s e h.0
    ∙ read_methods ms rest (after_method m s) refl h.1

if-append :
    (b : Bool) (xs : List ProtoRpc) (r : ProtoRpc) (ys : List ProtoRpc)
    → (if b then xs else xs ++ r ∷ []) ++ ys ≡ xs ++ (if b then ys else r ∷ ys)
if-append true xs r ys = refl
if-append false xs r ys = append_assoc xs (r ∷ []) ys

-- what the methods add to the state
record Adds (ms : List Method) (s t : Progress) : Type 0 where
  idle : t.current_token ≡ nothing
  same_service : t.service_name ≡ s.service_name
  rpcs_are : t.rpcs ≡ s.rpcs ++ recorded ms

after_methods-Adds :
    (ms : List Method) (s : Progress) → s.current_token ≡ nothing → Adds ms s (after_methods ms s)
unfolding after_methods
after_methods-Adds [] s e = record {
  idle = e;
  same_service = refl;
  rpcs_are = sym (append-nil s.rpcs);
}
after_methods-Adds (m ∷ ms) s e =
    let later = after_methods-Adds ms (after_method m s) refl in
    record {
      idle = later.idle;
      same_service = later.same_service;
      rpcs_are = later.rpcs_are ∙ if-append (bytes_eq m.name (codes "Ping")) s.rpcs _ (recorded ms);
    }

finish-Adds :
    (name : Bytes) (ms : List Method) (s t : Progress)
    → s.service_name ≡ some name
    → s.rpcs ≡ []
    → Adds ms s t
    → finish (some t) ≡ some (record { service_name = name; rpc = recorded ms })
unfolding finish
finish-Adds name ms s t e n a = ground (arith, a.same_service, a.rpcs_are)

-- From the tokens of a service whose methods end in `;` the reader makes its description: the
-- service's name, and the methods in order, without those named `Ping`, each with its parameters
-- put together with spaces.
pub read_service :
    (name : Bytes) (ms : List Method)
    → AreMethods ms
    → finish (read_tokens (service_tokens name ms) start)
      ≡ some (record { service_name = name; rpc = recorded ms })
unfolding read_tokens step bytes_eq
read_service name ms h =
    ap finish (
      read_methods ms (codes "}" ∷ []) named refl h
      ∙ closed (after_methods ms named) (after_methods-Adds ms named refl).idle)
    ∙ finish-Adds name ms named (after_methods ms named) refl refl
        (after_methods-Adds ms named refl)
  where
    named : Progress
    named = record start { service_name = some name }

    closed : (t : Progress) → t.current_token ≡ nothing → read_tokens (codes "}" ∷ []) t ≡ some t
    closed t e = rw (e, step) refl

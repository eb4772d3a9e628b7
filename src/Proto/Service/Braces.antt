-- ===== src/Proto/Service/Braces.antt =====
-- Methods that are declared with an empty body in braces, `{ }`, instead of a `;`.
use my_grpc_extensions.Prelude.{List, [], ◌∷◌, ◌++◌, Bytes, codes}
use my_grpc_extensions.Proto.Service.{Progress}
use my_grpc_extensions.Proto.Service.Statements.{Method, push_words, join, at_out}

-- `rpc Name ( ins ) returns ( outs ) { }`
abbrev pub braced_tokens : Method → List Bytes → List Bytes
braced_tokens m rest =
    codes "rpc"
    ∷ m.name
    ∷ codes "("
    ∷ (m.ins
        ++ (codes ")"
            ∷ codes "returns"
            ∷ codes "("
            ∷ (m.outs ++ (codes ")" ∷ codes "{" ∷ codes "}" ∷ rest))))

-- what becomes of the output parameter of a method with a body, in front of another method
abbrev pub swallowed : Method → Method → Bytes
swallowed m next =
    push_words
      (push_words (push_words (join m.outs) (codes "{" ∷ codes "}" ∷ codes "rpc" ∷ next.name ∷ []))
        next.ins)
      next.outs

abbrev after_body : Method → Method → Progress → Progress
after_body m next s = record (at_out m s) { out_param_name = swallowed m next }

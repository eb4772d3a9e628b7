-- ===== src/Macros/Client/Overriding.antt =====
-- The retries of the generated methods.
use my_grpc_extensions.Prelude.{
  ℕ, ◌≡◌, true, List, [], ◌∷◌, map, Option, none, some, Bytes, bytes_eq,
}
use my_grpc_extensions.Streams.Reading.Maps.{last_value}
use my_grpc_extensions.Proto.Service.{ProtoRpc, ProtoServiceDescription, has_method}
use my_grpc_extensions.Macros.Client.{GrpcMethod, get_override, retries_of, retries_call, all_found}

abbrev pub given : Option (List (Bytes × ℕ)) → List (Bytes × ℕ)
given none = []
given (some items) = items

-- the amount that was given last for a method, or the macro's own
abbrev pub expected_retries : Option (List (Bytes × ℕ)) → ℕ → ProtoRpc → Option ℕ
expected_retries items retries rpc =
    retries_call (retries_of (last_value bytes_eq rpc.name (given items)) retries)

-- Each listed name is a method of the service.
abbrev pub AllNamed : ProtoServiceDescription → List (Bytes × ℕ) → Type 0
AllNamed proto_file [] = Unit {0}
AllNamed proto_file ((name, retries) ∷ items) =
    (has_method proto_file name ≡ true) × AllNamed proto_file items

-- what `new_overrides` makes of the given items
record Stands (items : Option (List (Bytes × ℕ))) (overrides : List (Bytes × ℕ)) : Type 0 where
  looks_up : (k : Bytes) → get_override k overrides ≡ last_value bytes_eq k (given items)
  names :
      (proto_file : ProtoServiceDescription)
      → all_found proto_file overrides ≡ true
      → AllNamed proto_file (given items)

StandsFor : Option (List (Bytes × ℕ)) → Option (List (Bytes × ℕ)) → Type 0
StandsFor items none = Unit {0}
StandsFor items (some overrides) = Stands items overrides

module _ (as_snake_case : Bytes → Bytes) where
  -- The methods have the retries expected, and all overridden names are methods.
  abbrev Overridden :
      ProtoServiceDescription → ℕ → Option (List (Bytes × ℕ)) → Option (List GrpcMethod) → Type 0
  Overridden proto_file retries items none = Unit {0}
  Overridden proto_file retries items (some ms) =
      (map (λ (m : GrpcMethod). m.with_retries) ms
        ≡ map (expected_retries items retries) proto_file.rpc)
      × AllNamed proto_file (given items)

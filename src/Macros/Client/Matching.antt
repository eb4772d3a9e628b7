-- ===== src/Macros/Client/Matching.antt =====
-- Each method that the macro generates against the `impl` that it generates for the same rpc.
use my_grpc_extensions.Prelude.{
  ℕ, ◌≡◌, refl, subst, List, [], ◌∷◌, Option, none, some, Bytes, codes, bytes_eq, if◌then◌else◌,
}
use my_grpc_extensions.Proto.ParamType.{ParamType, single, stream, is_stream, get_name}
use my_grpc_extensions.Proto.Service.{ProtoRpc, get_input_param, get_output_param}
use my_grpc_extensions.Macros.Client.{
  GrpcMethod, Implementation, get_request_fn_name, get_response_fn_name, get_func_in_data_type,
  get_func_out_data_type, streamed_request, streamed_response, request_response, response_as_stream,
  input_as_stream, both_as_stream, get_interface_name, get_interface_name_with_input_param_only,
  get_interface_name_with_output_param_only, implementation_of, grpc_method, generate_grpc_methods,
  generate_interfaces_implementations,
}

-- The executor trait by which the request builders' methods are bounded.
abbrev pub required : (request_fn_name response_fn_name : Bytes) → Bytes
required request_fn_name response_fn_name =
    if bytes_eq request_fn_name (codes "start_request")
    then if bytes_eq response_fn_name (codes "get_response(self).await?")
      then request_response
      else response_as_stream
    else if bytes_eq response_fn_name (codes "get_response(self).await?")
    then input_as_stream
    else both_as_stream

-- The calls of the method resolve to the implementation: its name, its trait, and the types of
-- the trait's request and response.
pub record Matches (m : GrpcMethod) (i : Implementation) : Type 0 where
  pub same_fn : m.fn_name ≡ i.fn_name
  pub same_trait : i.interface_name ≡ required m.request_fn_name m.response_fn_name
  pub same_input : m.input_data_type ≡ (
      if bytes_eq m.request_fn_name (codes "start_request")
      then i.input_param_name
      else streamed_request i.input_param_name)
  pub same_output : m.output_data_type ≡ (
      if bytes_eq m.response_fn_name (codes "get_response(self).await?")
      then i.output_param_name
      else streamed_response i.output_param_name)

abbrev pub AllMatch : List GrpcMethod → List Implementation → Type 0
AllMatch [] [] = Unit {0}
AllMatch [] (i ∷ is) = ⊥
AllMatch (m ∷ ms) [] = ⊥
AllMatch (m ∷ ms) (i ∷ is) = Matches m i × AllMatch ms is

abbrev MatchesOf : GrpcMethod → Option Implementation → Type 0
MatchesOf m none = Unit {0}
MatchesOf m (some i) = Matches m i

abbrev MatchAll : List GrpcMethod → Option (List Implementation) → Type 0
MatchAll ms none = Unit {0}
MatchAll ms (some is) = AllMatch ms is

both_match :
    (m : GrpcMethod) (ms : List GrpcMethod) (o : Option Implementation)
    (rest : Option (List Implementation))
    → MatchesOf m o
    → MatchAll ms rest
    → MatchAll
        (m ∷ ms)
        (elim o [ none ↦ none | some i ↦ elim rest [ none ↦ none | some is ↦ some (i ∷ is) ] ])
both_match m ms none rest h k = tt
both_match m ms (some i) none h k = tt
both_match m ms (some i) (some is) h k = (h, k)

module _ (fn_name : Bytes) (with_retries : Option ℕ) where
  abbrev method : Option ParamType → Option ParamType → GrpcMethod
  method input output = record {
    fn_name = fn_name;
    input_data_type = get_func_in_data_type input;
    output_data_type = get_func_out_data_type output;
    request_fn_name = get_request_fn_name input;
    with_retries = with_retries;
    response_fn_name = get_response_fn_name output;
  }

  implementation_of-Matches :
      (input output : Option ParamType)
      → MatchesOf (method input output) (implementation_of fn_name input output)
  unfolding implementation_of get_func_in_data_type get_func_out_data_type get_request_fn_name
      get_response_fn_name get_interface_name get_interface_name_with_input_param_only
      get_interface_name_with_output_param_only is_stream get_name bytes_eq
  implementation_of-Matches none none = tt
  implementation_of-Matches none (some (single b)) = record {
    same_fn = refl;
    same_trait = refl;
    same_input = refl;
    same_output = refl;
  }
  implementation_of-Matches none (some (stream b)) = record {
    same_fn = refl;
    same_trait = refl;
    same_input = refl;
    same_output = refl;
  }
  implementation_of-Matches (some (single a)) none = record {
    same_fn = refl;
    same_trait = refl;
    same_input = refl;
    same_output = refl;
  }
  implementation_of-Matches (some (stream a)) none = record {
    same_fn = refl;
    same_trait = refl;
    same_input = refl;
    same_output = refl;
  }
  implementation_of-Matches (some (single a)) (some (single b)) = record {
    same_fn = refl;
    same_trait = refl;
    same_input = refl;
    same_output = refl;
  }
  implementation_of-Matches (some (single a)) (some (stream b)) = record {
    same_fn = refl;
    same_trait = refl;
    same_input = refl;
    same_output = refl;
  }
  implementation_of-Matches (some (stream a)) (some (single b)) = record {
    same_fn = refl;
    same_trait = refl;
    same_input = refl;
    same_output = refl;
  }
  implementation_of-Matches (some (stream a)) (some (stream b)) = record {
    same_fn = refl;
    same_trait = refl;
    same_input = refl;
    same_output = refl;
  }

module _ (as_snake_case : Bytes → Bytes) (retries_amount : ℕ) (overrides : List (Bytes × ℕ)) where
  generated-MatchAll :
      (rpcs : List ProtoRpc)
      → MatchAll
          (generate_grpc_methods as_snake_case rpcs retries_amount overrides)
          (generate_interfaces_implementations as_snake_case rpcs)
  unfolding generate_grpc_methods grpc_method generate_interfaces_implementations
  generated-MatchAll [] = tt
  generated-MatchAll (rpc ∷ rpcs) =
      both_match (grpc_method as_snake_case retries_amount overrides rpc)
        (generate_grpc_methods as_snake_case rpcs retries_amount overrides)
        (implementation_of (as_snake_case rpc.name) (get_input_param rpc) (get_output_param rpc))
        (generate_interfaces_implementations as_snake_case rpcs)
        (implementation_of-Matches (as_snake_case rpc.name)
          (grpc_method as_snake_case retries_amount overrides rpc).with_retries
          (get_input_param rpc) (get_output_param rpc))
        (generated-MatchAll rpcs)

  -- Whenever the macro generates implementations for all methods of a service, the method that it
  -- generates for each rpc, in order, has the implementation's name, calls request builders that
  -- are bounded by the trait that is implemented, and takes and gives the types that the trait is
  -- implemented for.
  pub generate_grpc_methods-AllMatch :
      (rpcs : List ProtoRpc) (is : List Implementation)
      → generate_interfaces_implementations as_snake_case rpcs ≡ some is
      → AllMatch (generate_grpc_methods as_snake_case rpcs retries_amount overrides) is
  generate_grpc_methods-AllMatch rpcs is e =
      subst (MatchAll (generate_grpc_methods as_snake_case rpcs retries_amount overrides)) e
        (generated-MatchAll rpcs)

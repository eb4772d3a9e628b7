-- ===== src/Channel/Requests/Kinds.antt =====
-- A request of any builder is one of request_builder_with_retries.rs, up to the StreamedResponse
-- that is made of its stream: the same channels, calls and retries.
use my_grpc_extensions.Prelude.{
  ℕ, zero, suc, ◌+◌, ◌≡◌, refl, ap, sym, Outcome, returned, failed, panicked, out_of_fuel, and_then,
  leb, Bool-cases, inl, inr,
}
use my_grpc_extensions.Channel.Env.{Env}
use my_grpc_extensions.Channel.State.{State, Returns}
use my_grpc_extensions.Channel.GrpcChannel.{
  GrpcChannel, Executor, execute, execute_with_response_as_stream, execute_input_as_stream,
  execute_input_as_stream_response_as_stream,
}
use my_grpc_extensions.Channel.Requests.Retrying.{after_call, retry_loop, with_fuel}
use my_grpc_extensions.Channel.Requests.Builder
use my_grpc_extensions.Channel.Requests.Builder.{RequestBuilder}
use my_grpc_extensions.Channel.Requests.BuilderWithRetries
use my_grpc_extensions.Channel.Requests.BuilderWithRetries.{RequestBuilderWithRetries}
use my_grpc_extensions.Channel.Requests.BuilderWithInputStream
use my_grpc_extensions.Channel.Requests.BuilderWithInputStream.{RequestBuilderWithInputStream}
use my_grpc_extensions.Channel.Requests.BuilderWithInputStreamWithRetries
use my_grpc_extensions.Channel.Requests.BuilderWithInputStreamWithRetries.{
  RequestBuilderWithInputStreamWithRetries,
}
use my_grpc_extensions.Streams.Streaming.{Streaming, StreamedResponse}

-- a result with its response replaced
abbrev replaced : {A B E S : Type 0} → (A → B) → Outcome A E × S → Outcome B E × S
replaced f r = and_then r (λ a t. (returned (f a), t))

module _ {A B E S : Type 0} (f : A → B) (max : ℕ) where
  after_call-replaced :
      (n : ℕ) (r : Outcome A E × S) (again : S → Outcome A E × S) (again' : S → Outcome B E × S)
      → ((s : S) → again' s ≡ replaced f (again s))
      → after_call max n (replaced f r) again' ≡ replaced f (after_call max n r again)
  unfolding after_call
  after_call-replaced n (returned a, s) again again' h = refl
  after_call-replaced n (failed e, s) again again' h = elim (Bool-cases (leb max (n + 1))) [
    | inl b ↦ rw b refl
    | inr b ↦ rw b (h s)
  ]
  after_call-replaced n (panicked, s) again again' h = refl
  after_call-replaced n (out_of_fuel, s) again again' h = refl

  retry_loop-replaced :
      (call : S → Outcome A E × S) (fuel n : ℕ) (s : S)
      → retry_loop max (λ t. replaced f (call t)) fuel n s
        ≡ replaced f (retry_loop max call fuel n s)
  unfolding retry_loop
  retry_loop-replaced call zero n s = refl
  retry_loop-replaced call (suc fuel) n s =
      after_call-replaced n (call s) (retry_loop max call fuel (n + 1))
        (retry_loop max (λ t. replaced f (call t)) fuel (n + 1))
        (retry_loop-replaced call fuel (n + 1))

  with_fuel-replaced :
      (call : S → Outcome A E × S) (s : S)
      → with_fuel max (λ t. replaced f (call t)) s ≡ replaced f (with_fuel max call s)
  unfolding with_fuel
  with_fuel-replaced call s = retry_loop-replaced call (max + 1) 0 s

-- one attempt
with_fuel_one : {A E S : Type 0} (call : S → Outcome A E × S) (s : S) → with_fuel 1 call s ≡ call s
unfolding with_fuel retry_loop after_call
with_fuel_one {A} {E} {S} call s = once (call s)
  where
    once : (r : Outcome A E × S) → after_call 1 0 r (retry_loop 1 call 1 1) ≡ r
    once (returned a, t) = refl
    once (failed e, t) = refl
    once (panicked, t) = refl
    once (out_of_fuel, t) = refl

module _ (env : Env) {TService TRequest : Type 0} (input : TRequest)
    (channel : GrpcChannel env TService) (max : ℕ) where
  -- the four builders, and a builder with one attempt
  abbrev pub single : RequestBuilder env TService TRequest
  single = record { input_contract = input; channel = channel }

  abbrev pub retried : RequestBuilderWithRetries env TService TRequest
  retried = record { input_contract = input; channel = channel; max_attempts_amount = max }

  abbrev pub once : RequestBuilderWithRetries env TService TRequest
  once = record { input_contract = input; channel = channel; max_attempts_amount = 1 }

  abbrev pub from_stream : RequestBuilderWithInputStream env TService TRequest
  from_stream = record { input_contract = input; channel = channel }

  abbrev pub from_stream_retried : RequestBuilderWithInputStreamWithRetries env TService TRequest
  from_stream_retried = record {
    input_contract = input;
    channel = channel;
    max_attempts_amount = max;
  }

-- `StreamedResponse::new` on success
abbrev pub as_streamed :
    (env : Env) {TService TResponse : Type 0} (channel : GrpcChannel env TService)
    → Returns env (Streaming env.Status TResponse)
    → Returns env (StreamedResponse env.Status TResponse)
as_streamed env channel r =
    and_then r
      (λ stream t. (returned (record { stream = stream; time_out = channel.request_timeout }), t))

module _ (env : Env) {TService TRequest TResponse : Type 0} (input : TRequest)
    (channel : GrpcChannel env TService) (max : ℕ)
    (executor : Executor env TService TRequest TResponse)
    (streaming : Executor env TService TRequest (Streaming env.Status TResponse))
    (s : State env) where
  -- A request without retries does what one with a single attempt does, and a request whose input is
  -- a stream what one with a plain input does, with the same calls, retries and state. A streamed
  -- response is made of the stream that the same request gives as its plain response, with the
  -- channel's timeout.
  pub get_response-Kinds :
      (Builder.get_response env (single env input channel max) executor s
        ≡ BuilderWithRetries.get_response env (once env input channel max) executor s)
      × (Builder.get_streamed_response env (single env input channel max) streaming s
          ≡ as_streamed env channel
              (BuilderWithRetries.get_response env (once env input channel max) streaming s))
      × (BuilderWithRetries.get_streamed_response env (retried env input channel max) streaming s
          ≡ as_streamed env channel
              (BuilderWithRetries.get_response env (retried env input channel max) streaming s))
      × (BuilderWithInputStream.get_response env (from_stream env input channel max) executor s
          ≡ BuilderWithRetries.get_response env (once env input channel max) executor s)
      × (BuilderWithInputStream.get_streamed_response env
            (from_stream env input channel max)
            streaming
            s
          ≡ as_streamed env channel
              (BuilderWithRetries.get_response env (once env input channel max) streaming s))
      × (BuilderWithInputStreamWithRetries.get_response env
            (from_stream_retried env input channel max)
            executor
            s
          ≡ BuilderWithRetries.get_response env (retried env input channel max) executor s)
      × (BuilderWithInputStreamWithRetries.get_streamed_response env
            (from_stream_retried env input channel max)
            streaming
            s
          ≡ as_streamed env channel
              (BuilderWithRetries.get_response env (retried env input channel max) streaming s))
  unfolding Builder.get_response Builder.get_streamed_response Builder.call_streamed
      BuilderWithRetries.get_response BuilderWithRetries.get_streamed_response
      BuilderWithRetries.call_streamed BuilderWithInputStream.get_response
      BuilderWithInputStream.get_streamed_response BuilderWithInputStream.call_streamed
      BuilderWithInputStreamWithRetries.get_response
      BuilderWithInputStreamWithRetries.get_streamed_response
      BuilderWithInputStreamWithRetries.call_streamed execute execute_with_response_as_stream
      execute_input_as_stream execute_input_as_stream_response_as_stream
  get_response-Kinds =
      let one = with_fuel_one (execute env channel input executor) s in
      let one_stream =
        ap (as_streamed env channel) (with_fuel_one (execute env channel input streaming) s) in
      let all =
        with_fuel-replaced
          (λ stream. record { stream = stream; time_out = channel.request_timeout }) max
          (execute env channel input streaming) s in
      (sym one, sym one_stream, all, sym one, sym one_stream, refl, all)

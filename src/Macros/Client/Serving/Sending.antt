-- ===== src/Macros/Client/Serving/Sending.antt =====
-- What the generated methods send, and that a bad host is a panic.
use my_grpc_extensions.Prelude.{
  ℕ, suc, ◌+◌, ◌≡◌, refl, ap, Option, none, some, Bytes, Outcome, panicked, arith,
}
use my_grpc_extensions.Channel.Env.{Env}
use my_grpc_extensions.Channel.State.{State, Returns}
use my_grpc_extensions.Channel.Holder.{get_held}
use my_grpc_extensions.Channel.GrpcChannel.{
  GrpcChannel, Executor, execute, execute_with_response_as_stream, execute_input_as_stream,
  execute_input_as_stream_response_as_stream,
}
use my_grpc_extensions.Channel.Pool.{GrpcChannelPool}
use my_grpc_extensions.Channel.Requests.Retrying.{after_call, retry_loop, with_fuel}
use my_grpc_extensions.Channel.Requests.Kinds.{as_streamed}
use my_grpc_extensions.Channel.Requests.Builder
use my_grpc_extensions.Channel.Requests.Builder.{start_request}
use my_grpc_extensions.Channel.Requests.BuilderWithRetries
use my_grpc_extensions.Channel.Requests.BuilderWithInputStream
use my_grpc_extensions.Channel.Requests.BuilderWithInputStream.{
  start_request_with_input_prams_as_stream,
}
use my_grpc_extensions.Channel.Requests.BuilderWithInputStreamWithRetries
use my_grpc_extensions.Streams.Streaming.{Streaming, StreamedResponse}
use my_grpc_extensions.Macros.Client.Invoking.{
  get_response, get_streamed_response, get_response_to_stream, get_streamed_response_to_stream,
  invoke, invoke_streamed, invoke_with_stream, invoke_with_both_streams,
}
use my_grpc_extensions.Macros.Client.Serving.{ServiceCall}
use my_grpc_extensions.Macros.Client.Serving.Heading.{
  Metadata, host_header, settings, asked, executor, self, sending, executor_sends, outcome_with,
  execute-held,
}

-- a call that panics is not repeated
with_fuel-panicked :
    {A E S : Type 0} (max : ℕ) (call : S → Outcome A E × S) (s t : S)
    → call s ≡ (panicked, t)
    → with_fuel max call s ≡ (panicked, t)
unfolding with_fuel retry_loop after_call
with_fuel-panicked max call s t h = let e : max + 1 ≡ suc max = omega arith in rw (e, h) refl

-- The four kinds of generated methods, over a call whose response is plain and one whose response is
-- a stream.
module _ (env : Env) {TService TRequest TResponse : Type 0} (pool : GrpcChannelPool env TService)
    (from_str : Bytes → Option Bytes) (call : ServiceCall env TService TRequest TResponse)
    (stream_call : ServiceCall env TService TRequest (Streaming env.Status TResponse))
    (input_data : TRequest) where
  abbrev Plain : Type 0
  Plain = Executor env TService TRequest TResponse

  abbrev Streamed : Type 0
  Streamed = Executor env TService TRequest (Streaming env.Status TResponse)

  abbrev plain : Plain
  plain = executor env pool from_str call input_data

  abbrev streamed : Streamed
  streamed = executor env pool from_str stream_call input_data

  -- what the four methods come to
  abbrev AllFour :
      Option ℕ
      → Plain
      → Streamed
      → State env
      → Returns env TResponse
      → Returns env (StreamedResponse env.Status TResponse)
      → Type 0
  AllFour with_retries x y s r t =
      (invoke env pool with_retries input_data x s ≡ r)
      × (invoke_with_stream env pool with_retries input_data x s ≡ r)
      × (invoke_streamed env pool with_retries input_data y s ≡ t)
      × (invoke_with_both_streams env pool with_retries input_data y s ≡ t)

  -- The generated methods do what they would do with calls that send the header.
  abbrev pub AllSend : Option ℕ → State env → Type 0
  AllSend with_retries s =
      let x = sending env pool from_str call input_data in
      let y = sending env pool from_str stream_call input_data in
      (invoke env pool with_retries input_data plain s
        ≡ invoke env pool with_retries input_data x s)
      × (invoke_with_stream env pool with_retries input_data plain s
          ≡ invoke_with_stream env pool with_retries input_data x s)
      × (invoke_streamed env pool with_retries input_data streamed s
          ≡ invoke_streamed env pool with_retries input_data y s)
      × (invoke_with_both_streams env pool with_retries input_data streamed s
          ≡ invoke_with_both_streams env pool with_retries input_data y s)

  all_send : (with_retries : Option ℕ) (s : State env) → AllSend with_retries s
  all_send with_retries s =
      let x = executor_sends env pool from_str call input_data in
      let y = executor_sends env pool from_str stream_call input_data in
      (
        ap (λ f. invoke env pool with_retries input_data f s) x,
        ap (λ f. invoke_with_stream env pool with_retries input_data f s) x,
        ap (λ f. invoke_streamed env pool with_retries input_data f s) y,
        ap (λ f. invoke_with_both_streams env pool with_retries input_data f s) y,
      )

  -- Without retries there is one call; a response that is a stream is wrapped.
  abbrev pub Once : env.Channel → State env → Option Metadata → Type 0
  Once channel s metadata =
      AllFour none plain streamed s
        (outcome_with env pool from_str call input_data channel s metadata)
        (as_streamed env (self env pool from_str call input_data)
          (outcome_with env pool from_str stream_call input_data channel s metadata))

  -- Without the metadata all methods panic, also those with retries.
  abbrev pub PanicsWithout : Option ℕ → State env → Option Metadata → Type 0
  PanicsWithout with_retries s (some metadata) = Unit {0}
  PanicsWithout with_retries s none =
      AllFour with_retries plain streamed s (panicked, asked env pool s)
        (panicked, asked env pool s)

  module _ (s : State env) where
    abbrev channel_self : GrpcChannel env TService
    channel_self = self env pool from_str call input_data

    invoked_once :
        (r : Returns env TResponse) (t : Returns env (Streaming env.Status TResponse))
        → execute env channel_self input_data plain s ≡ r
        → execute env channel_self input_data streamed s ≡ t
        → AllFour none plain streamed s r (as_streamed env channel_self t)
    unfolding invoke invoke_with_stream invoke_streamed invoke_with_both_streams get_response
        get_streamed_response get_response_to_stream get_streamed_response_to_stream start_request
        start_request_with_input_prams_as_stream Builder.get_response Builder.get_streamed_response
        Builder.call_streamed BuilderWithInputStream.get_response
        BuilderWithInputStream.get_streamed_response BuilderWithInputStream.call_streamed execute
        execute_with_response_as_stream execute_input_as_stream
        execute_input_as_stream_response_as_stream
    invoked_once r t e f =
        let wrapped = ap (as_streamed env channel_self) f in (e, e, wrapped, wrapped)

    invoked_panics :
        (with_retries : Option ℕ)
        → execute env channel_self input_data plain s ≡ (panicked, asked env pool s)
        → execute env channel_self input_data streamed s ≡ (panicked, asked env pool s)
        → PanicsWithout with_retries s none
    unfolding invoke invoke_with_stream invoke_streamed invoke_with_both_streams get_response
        get_streamed_response get_response_to_stream get_streamed_response_to_stream start_request
        start_request_with_input_prams_as_stream Builder.with_retries
        BuilderWithInputStream.with_retries BuilderWithRetries.get_response
        BuilderWithRetries.get_streamed_response BuilderWithRetries.call_streamed
        BuilderWithInputStreamWithRetries.get_response
        BuilderWithInputStreamWithRetries.get_streamed_response
        BuilderWithInputStreamWithRetries.call_streamed execute execute_with_response_as_stream
        execute_input_as_stream execute_input_as_stream_response_as_stream
    invoked_panics none e f = invoked_once _ _ e f
    invoked_panics (some amount) e f =
        let wrapped = ap (as_streamed env channel_self) f in
        (
          with_fuel-panicked amount _ s _ e,
          with_fuel-panicked amount _ s _ e,
          with_fuel-panicked amount _ s _ wrapped,
          with_fuel-panicked amount _ s _ wrapped,
        )

    headed-PanicsWithout :
        (with_retries : Option ℕ) (channel : env.Channel) (o : Option Metadata)
        → execute env channel_self input_data plain s
          ≡ outcome_with env pool from_str call input_data channel s o
        → execute env channel_self input_data streamed s
          ≡ outcome_with env pool from_str stream_call input_data channel s o
        → PanicsWithout with_retries s o
    headed-PanicsWithout with_retries channel (some metadata) e f = tt
    headed-PanicsWithout with_retries channel none e f = invoked_panics with_retries e f

    -- The four kinds of generated methods, with retries or without, do what they would do with calls
    -- that each send the input without metadata if the settings name no host then, with the host as
    -- the header `host` if they name one, and that panic if that is no header value or if
    -- `get_grpc_url` panics. With a channel in the holder, a method without retries makes that one
    -- call on it, from the settings that it asks for, and settles its result; and with a host that is
    -- no header value, or a `get_grpc_url` that panics, all methods panic, also those with retries,
    -- and leave the channel where it is.
    pub invoke-host_header :
        (with_retries : Option ℕ) (channel : env.Channel)
        → get_held env s ≡ some channel
        → AllSend with_retries s
          × Once channel s (host_header from_str (settings env pool s))
          × PanicsWithout with_retries s (host_header from_str (settings env pool s))
    invoke-host_header with_retries channel held =
        let one = execute-held env pool from_str call input_data channel s held in
        let other = execute-held env pool from_str stream_call input_data channel s held in
        (
          all_send with_retries s,
          invoked_once _ _ one other,
          headed-PanicsWithout with_retries channel (host_header from_str (settings env pool s)) one
              other,
        )

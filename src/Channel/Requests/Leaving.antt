-- ===== src/Channel/Requests/Leaving.antt =====
-- What the builders' requests promise: a bounded number of calls, and a holder that agrees with
-- the result.
use my_grpc_extensions.Prelude.{ℕ, suc, ◌-◌, sym, subst, returned}
use my_grpc_extensions.Channel.Env.{Env}
use my_grpc_extensions.Channel.State.{State, Returns}
use my_grpc_extensions.Channel.Attempts.{Tries}
use my_grpc_extensions.Channel.GrpcChannel.{
  Executor, execute, execute_with_response_as_stream, execute_input_as_stream,
  execute_input_as_stream_response_as_stream,
}
use my_grpc_extensions.Channel.Executing.{
  Leaves, execute-Leaves, and_then-Leaves, execute_with_response_as_stream-Leaves,
  execute_input_as_stream-Leaves, execute_input_as_stream_response_as_stream-Leaves,
}
use my_grpc_extensions.Channel.Requests.Bounded.{with_fuel-Tries}
use my_grpc_extensions.Channel.Requests.Retrying.{with_fuel}
use my_grpc_extensions.Channel.Requests.BuilderWithRetries.{
  RequestBuilderWithRetries, get_response, call_streamed, get_streamed_response,
}
use my_grpc_extensions.Channel.Requests.BuilderWithInputStreamWithRetries
use my_grpc_extensions.Channel.Requests.BuilderWithInputStreamWithRetries.{
  RequestBuilderWithInputStreamWithRetries,
}
use my_grpc_extensions.Streams.Streaming.{Streaming, StreamedResponse}

-- Calls of which each leaves a holder that agrees with its result, do so when they are repeated.
with_fuel-Leaves :
    (env : Env) {A : Type 0} (max : ℕ) (call : State env → Returns env A)
    → ((s : State env) → Leaves env (call s))
    → (s : State env) → Leaves env (with_fuel max call s)
with_fuel-Leaves env max call h s =
    let t = with_fuel-Tries max call s in subst (Leaves env) (sym t.result_is) (h t.last)

module _ (env : Env) {TService TRequest TResponse : Type 0} where
  -- A request with retries executes at most `max_attempts_amount` times, but once at least; it is
  -- executed again only when it failed, and fails only when all executions failed. Its response
  -- leaves a channel in the holder, a timeout or a transport error an empty holder, and a status
  -- an empty holder exactly if its code is Unknown.
  pub get_response-Tries :
      (self : RequestBuilderWithRetries env TService TRequest)
      (executor : Executor env TService TRequest TResponse) (s : State env)
      → Tries
          (execute env self.channel self.input_contract executor)
          (suc (self.max_attempts_amount - 1))
          s
          (get_response env self executor s)
        × Leaves env (get_response env self executor s)
  unfolding get_response
  get_response-Tries self executor s = (
    with_fuel-Tries self.max_attempts_amount _ s,
    with_fuel-Leaves env self.max_attempts_amount _
        (execute-Leaves env self.channel self.input_contract executor) s,
  )

  -- A request with retries whose response is a stream is called at most `max_attempts_amount`
  -- times, but once at least, again only when it failed, and fails only when all calls failed. A
  -- stream leaves a channel in the holder, a timeout or a transport error an empty holder, and a
  -- status an empty holder exactly if its code is Unknown.
  pub get_streamed_response-Tries :
      (self : RequestBuilderWithRetries env TService TRequest)
      (executor : Executor env TService TRequest (Streaming env.Status TResponse)) (s : State env)
      → Tries
          (call_streamed env self executor)
          (suc (self.max_attempts_amount - 1))
          s
          (get_streamed_response env self executor s)
        × Leaves env (get_streamed_response env self executor s)
  unfolding get_streamed_response call_streamed
  get_streamed_response-Tries self executor s = (
    with_fuel-Tries self.max_attempts_amount _ s,
    with_fuel-Leaves env self.max_attempts_amount _
        (λ t.
          and_then-Leaves env self.channel {A = Streaming env.Status TResponse}
            {B = StreamedResponse env.Status TResponse}
            (execute_with_response_as_stream env self.channel self.input_contract executor t)
            (λ stream u.
              (returned (record { stream = stream; time_out = self.channel.request_timeout }), u))
            (execute_with_response_as_stream-Leaves env self.channel self.input_contract executor t)
            (λ a u h. h))
        s,
  )

  -- A request with retries whose input is a stream executes at most `max_attempts_amount` times,
  -- but once at least, again only when it failed, and fails only when all executions failed. Its
  -- response leaves a channel in the holder, a timeout or a transport error an empty holder, and a
  -- status an empty holder exactly if its code is Unknown.
  pub input_stream-Tries :
      (self : RequestBuilderWithInputStreamWithRetries env TService TRequest)
      (executor : Executor env TService TRequest TResponse) (s : State env)
      → Tries
          (execute_input_as_stream env self.channel self.input_contract executor)
          (suc (self.max_attempts_amount - 1))
          s
          (BuilderWithInputStreamWithRetries.get_response env self executor s)
        × Leaves env (BuilderWithInputStreamWithRetries.get_response env self executor s)
  unfolding BuilderWithInputStreamWithRetries.get_response
  input_stream-Tries self executor s = (
    with_fuel-Tries self.max_attempts_amount _ s,
    with_fuel-Leaves env self.max_attempts_amount _
        (execute_input_as_stream-Leaves env self.channel self.input_contract executor) s,
  )

  -- A request with retries whose input and response are streams is called at most
  -- `max_attempts_amount` times, but once at least, again only when it failed, and fails only when
  -- all calls failed. A stream leaves a channel in the holder, a timeout or a transport error an
  -- empty holder, and a status an empty holder exactly if its code is Unknown.
  pub both_streams-Tries :
      (self : RequestBuilderWithInputStreamWithRetries env TService TRequest)
      (executor : Executor env TService TRequest (Streaming env.Status TResponse)) (s : State env)
      → Tries
          (BuilderWithInputStreamWithRetries.call_streamed env self executor)
          (suc (self.max_attempts_amount - 1))
          s
          (BuilderWithInputStreamWithRetries.get_streamed_response env self executor s)
        × Leaves env (BuilderWithInputStreamWithRetries.get_streamed_response env self executor s)
  unfolding BuilderWithInputStreamWithRetries.get_streamed_response
      BuilderWithInputStreamWithRetries.call_streamed
  both_streams-Tries self executor s = (
    with_fuel-Tries self.max_attempts_amount _ s,
    with_fuel-Leaves env self.max_attempts_amount _
        (λ t.
          and_then-Leaves env self.channel {A = Streaming env.Status TResponse}
            {B = StreamedResponse env.Status TResponse}
            (execute_input_as_stream_response_as_stream env self.channel self.input_contract
              executor t)
            (λ stream u.
              (returned (record { stream = stream; time_out = self.channel.request_timeout }), u))
            (execute_input_as_stream_response_as_stream-Leaves env self.channel self.input_contract
              executor t)
            (λ a u h. h))
        s,
  )

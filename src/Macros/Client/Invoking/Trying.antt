-- ===== src/Macros/Client/Invoking/Trying.antt =====
-- How often a generated method makes its call.
use my_grpc_extensions.Prelude.{ℕ, suc, ◌-◌}
use my_grpc_extensions.Channel.Env.{Env}
use my_grpc_extensions.Channel.State.{State, Returns}
use my_grpc_extensions.Channel.Attempts.{Tries}
use my_grpc_extensions.Channel.GrpcChannel.{GrpcChannel, Executor}
use my_grpc_extensions.Channel.Executing.{Leaves}
use my_grpc_extensions.Channel.Pool.{GrpcChannelPool, get_pooled}
use my_grpc_extensions.Channel.Requests.Builder
use my_grpc_extensions.Channel.Requests.Builder.{start_request}
use my_grpc_extensions.Channel.Requests.BuilderWithInputStream
use my_grpc_extensions.Channel.Requests.BuilderWithInputStream.{
  start_request_with_input_prams_as_stream,
}
use my_grpc_extensions.Channel.Requests.BuilderWithRetries
use my_grpc_extensions.Channel.Requests.BuilderWithRetries.{call_streamed}
use my_grpc_extensions.Channel.Requests.BuilderWithInputStreamWithRetries
use my_grpc_extensions.Streams.Streaming.{Streaming, StreamedResponse}

-- At most `amount` calls, but one at least, and a holder that agrees with the result.
abbrev pub Bounded :
    (env : Env) {A : Type 0} → State env → (State env → Returns env A) → ℕ → Returns env A → Type 0
Bounded env s call amount result = Tries call (suc (amount - 1)) s result × Leaves env result

module _ (env : Env) {TService TRequest TResponse : Type 0} (pool : GrpcChannelPool env TService)
    (input_data : TRequest) (executor : Executor env TService TRequest TResponse)
    (s : State env) where
  abbrev pub channel : GrpcChannel env TService
  channel = (get_pooled env pool).0

  module _ (streams : Executor env TService TRequest (Streaming env.Status TResponse)) where
    abbrev pub streamed_call : State env → Returns env (StreamedResponse env.Status TResponse)
    streamed_call =
        call_streamed env (Builder.with_retries env (start_request env channel input_data) 1)
          streams

    abbrev pub call_both : State env → Returns env (StreamedResponse env.Status TResponse)
    call_both =
        BuilderWithInputStreamWithRetries.call_streamed env
          (BuilderWithInputStream.with_retries env
            (start_request_with_input_prams_as_stream env channel input_data) 1)
          streams

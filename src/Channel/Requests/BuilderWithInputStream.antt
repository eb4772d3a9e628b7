-- ===== src/Channel/Requests/BuilderWithInputStream.antt =====
-- grpc_channel/request_builder_with_input_stream.rs.
-- `TRequest` is a `StreamedRequest`: the executor reads it by reference.
use my_grpc_extensions.Prelude.{ℕ, returned, and_then}
use my_grpc_extensions.Channel.Env.{Env}
use my_grpc_extensions.Channel.State.{State, Returns}
use my_grpc_extensions.Channel.GrpcChannel.{
  GrpcChannel, Executor, execute_input_as_stream, execute_input_as_stream_response_as_stream,
}
use my_grpc_extensions.Channel.Requests.BuilderWithInputStreamWithRetries.{
  RequestBuilderWithInputStreamWithRetries,
}
use my_grpc_extensions.Streams.Streaming.{Streaming, StreamedResponse}

pub record RequestBuilderWithInputStream (env : Env) (TService TRequest : Type 0) : Type 0 where
  pub input_contract : TRequest
  pub channel : GrpcChannel env TService

module _ (env : Env) {TService TRequest : Type 0} where
  open env use {Status}

  -- GrpcChannel::start_request_with_input_prams_as_stream
  unfoldable pub start_request_with_input_prams_as_stream :
      GrpcChannel env TService → TRequest → RequestBuilderWithInputStream env TService TRequest
  start_request_with_input_prams_as_stream channel input_contract = record {
    input_contract = input_contract;
    channel = channel;
  }

  module _ (self : RequestBuilderWithInputStream env TService TRequest) where
    unfoldable pub with_retries : ℕ → RequestBuilderWithInputStreamWithRetries env TService TRequest
    with_retries attempts_amount = record {
      input_contract = self.input_contract;
      channel = self.channel;
      max_attempts_amount = attempts_amount;
    }

    module _ {TResponse : Type 0} where
      unfoldable pub get_response :
          Executor env TService TRequest TResponse → State env → Returns env TResponse
      get_response grpc_executor =
          execute_input_as_stream env self.channel self.input_contract grpc_executor

      -- `StreamedResponse::new(stream, self.channel.request_timeout)` on success
      unfoldable pub call_streamed :
          Executor env TService TRequest (Streaming Status TResponse)
          → State env
          → Returns env (StreamedResponse Status TResponse)
      call_streamed grpc_executor s =
          and_then
            (execute_input_as_stream_response_as_stream env self.channel self.input_contract
              grpc_executor s)
            (λ stream t.
              (returned (record { stream = stream; time_out = self.channel.request_timeout }), t))

      unfoldable pub get_streamed_response :
          Executor env TService TRequest (Streaming Status TResponse)
          → State env
          → Returns env (StreamedResponse Status TResponse)
      unfolding call_streamed
      get_streamed_response grpc_executor = call_streamed grpc_executor

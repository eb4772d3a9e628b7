-- ===== src/Channel/Requests/BuilderWithRetries.antt =====
-- grpc_channel/request_builder_with_retries.rs.
use my_grpc_extensions.Prelude.{ℕ, returned, and_then}
use my_grpc_extensions.Channel.Env.{Env}
use my_grpc_extensions.Channel.State.{State, Returns}
use my_grpc_extensions.Channel.GrpcChannel.{
  GrpcChannel, Executor, execute, execute_with_response_as_stream,
}
use my_grpc_extensions.Channel.Requests.Retrying.{with_fuel}
use my_grpc_extensions.Streams.Streaming.{Streaming, StreamedResponse}

pub record RequestBuilderWithRetries (env : Env) (TService TRequest : Type 0) : Type 0 where
  pub input_contract : TRequest
  pub channel : GrpcChannel env TService
  pub max_attempts_amount : ℕ

module _ (env : Env) {TService TRequest : Type 0} where
  open env use {Status}

  module _ (self : RequestBuilderWithRetries env TService TRequest) where
    module _ {TResponse : Type 0} where
      unfoldable pub get_response :
          Executor env TService TRequest TResponse → State env → Returns env TResponse
      get_response grpc_executor =
          with_fuel self.max_attempts_amount
            (execute env self.channel self.input_contract grpc_executor)

      -- `StreamedResponse::new(stream, self.channel.request_timeout)` on success
      unfoldable pub call_streamed :
          Executor env TService TRequest (Streaming Status TResponse)
          → State env
          → Returns env (StreamedResponse Status TResponse)
      call_streamed grpc_executor s =
          and_then
            (execute_with_response_as_stream env self.channel self.input_contract grpc_executor s)
            (λ stream t.
              (returned (record { stream = stream; time_out = self.channel.request_timeout }), t))

      unfoldable pub get_streamed_response :
          Executor env TService TRequest (Streaming Status TResponse)
          → State env
          → Returns env (StreamedResponse Status TResponse)
      get_streamed_response grpc_executor =
          with_fuel self.max_attempts_amount (call_streamed grpc_executor)

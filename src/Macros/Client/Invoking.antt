-- ===== src/Macros/Client/Invoking.antt =====
-- generate_grpc_methods.rs: what the body of a generated method does. `with_retries` is the piece
-- of its text that the macro chose, and the executor is the client itself.
pub mod Trying
use my_grpc_extensions.Prelude.{ℕ, Option, none, some}
use my_grpc_extensions.Channel.Env.{Env}
use my_grpc_extensions.Channel.State.{State, Returns}
use my_grpc_extensions.Channel.GrpcChannel.{Executor}
use my_grpc_extensions.Channel.Pool.{GrpcChannelPool, get_pooled}
use my_grpc_extensions.Channel.Requests.Builder
use my_grpc_extensions.Channel.Requests.Builder.{RequestBuilder, start_request}
use my_grpc_extensions.Channel.Requests.BuilderWithRetries
use my_grpc_extensions.Channel.Requests.BuilderWithInputStream
use my_grpc_extensions.Channel.Requests.BuilderWithInputStream.{
  RequestBuilderWithInputStream, start_request_with_input_prams_as_stream,
}
use my_grpc_extensions.Channel.Requests.BuilderWithInputStreamWithRetries
use my_grpc_extensions.Streams.Streaming.{Streaming, StreamedResponse}

module _ (env : Env) {TService TRequest TResponse : Type 0} where
  open env use {Status}

  -- behind `.start_request(input_data)`
  unfoldable pub get_response :
      Option ℕ
      → RequestBuilder env TService TRequest
      → Executor env TService TRequest TResponse
      → State env
      → Returns env TResponse
  get_response none builder executor = Builder.get_response env builder executor
  get_response (some amount) builder executor =
      BuilderWithRetries.get_response env (Builder.with_retries env builder amount) executor

  unfoldable pub get_streamed_response :
      Option ℕ
      → RequestBuilder env TService TRequest
      → Executor env TService TRequest (Streaming Status TResponse)
      → State env
      → Returns env (StreamedResponse Status TResponse)
  get_streamed_response none builder executor = Builder.get_streamed_response env builder executor
  get_streamed_response (some amount) builder executor =
      BuilderWithRetries.get_streamed_response env (Builder.with_retries env builder amount)
        executor

  -- behind `.start_request_with_input_prams_as_stream(input_data)`
  unfoldable pub get_response_to_stream :
      Option ℕ
      → RequestBuilderWithInputStream env TService TRequest
      → Executor env TService TRequest TResponse
      → State env
      → Returns env TResponse
  get_response_to_stream none builder executor =
      BuilderWithInputStream.get_response env builder executor
  get_response_to_stream (some amount) builder executor =
      BuilderWithInputStreamWithRetries.get_response env
        (BuilderWithInputStream.with_retries env builder amount) executor

  unfoldable pub get_streamed_response_to_stream :
      Option ℕ
      → RequestBuilderWithInputStream env TService TRequest
      → Executor env TService TRequest (Streaming Status TResponse)
      → State env
      → Returns env (StreamedResponse Status TResponse)
  get_streamed_response_to_stream none builder executor =
      BuilderWithInputStream.get_streamed_response env builder executor
  get_streamed_response_to_stream (some amount) builder executor =
      BuilderWithInputStreamWithRetries.get_streamed_response env
        (BuilderWithInputStream.with_retries env builder amount) executor

  module _ (pool : GrpcChannelPool env TService) (with_retries : Option ℕ)
      (input_data : TRequest) where
    unfoldable pub invoke :
        Executor env TService TRequest TResponse → State env → Returns env TResponse
    unfolding get_response
    invoke executor =
        let (channel, _) = get_pooled env pool in
        get_response with_retries (start_request env channel input_data) executor

    unfoldable pub invoke_streamed :
        Executor env TService TRequest (Streaming Status TResponse)
        → State env
        → Returns env (StreamedResponse Status TResponse)
    unfolding get_streamed_response
    invoke_streamed executor =
        let (channel, _) = get_pooled env pool in
        get_streamed_response with_retries (start_request env channel input_data) executor

    unfoldable pub invoke_with_stream :
        Executor env TService TRequest TResponse → State env → Returns env TResponse
    unfolding get_response_to_stream
    invoke_with_stream executor =
        let (channel, _) = get_pooled env pool in
        get_response_to_stream with_retries
          (start_request_with_input_prams_as_stream env channel input_data) executor

    unfoldable pub invoke_with_both_streams :
        Executor env TService TRequest (Streaming Status TResponse)
        → State env
        → Returns env (StreamedResponse Status TResponse)
    unfolding get_streamed_response_to_stream
    invoke_with_both_streams executor =
        let (channel, _) = get_pooled env pool in
        get_streamed_response_to_stream with_retries
          (start_request_with_input_prams_as_stream env channel input_data) executor

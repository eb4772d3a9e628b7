-- ===== src/Examples/Kinds.antt =====
-- The request builders in the small world.
use my_grpc_extensions.Prelude.{◌≡◌}
use my_grpc_extensions.Channel.Requests.Builder
use my_grpc_extensions.Channel.Requests.BuilderWithRetries
use my_grpc_extensions.Channel.Requests.BuilderWithInputStream
use my_grpc_extensions.Channel.Requests.BuilderWithInputStreamWithRetries
use my_grpc_extensions.Channel.Requests.Kinds.{
  single, retried, once, from_stream, from_stream_retried, as_streamed, get_response-Kinds,
}
use my_grpc_extensions.Examples.Fixtures.{network, fresh, client, greet, greet_stream}

get_response-Kinds_example :
    (Builder.get_response network (single network 7 client 4) greet fresh
      ≡ BuilderWithRetries.get_response network (once network 7 client 4) greet fresh)
    × (Builder.get_streamed_response network (single network 7 client 4) greet_stream fresh
        ≡ as_streamed network client
            (BuilderWithRetries.get_response network (once network 7 client 4) greet_stream fresh))
    × (BuilderWithRetries.get_streamed_response network
          (retried network 7 client 4)
          greet_stream
          fresh
        ≡ as_streamed network client (
            BuilderWithRetries.get_response network
              (retried network 7 client 4)
              greet_stream
              fresh))
    × (BuilderWithInputStream.get_response network (from_stream network 7 client 4) greet fresh
        ≡ BuilderWithRetries.get_response network (once network 7 client 4) greet fresh)
    × (BuilderWithInputStream.get_streamed_response network
          (from_stream network 7 client 4)
          greet_stream
          fresh
        ≡ as_streamed network client
            (BuilderWithRetries.get_response network (once network 7 client 4) greet_stream fresh))
    × (BuilderWithInputStreamWithRetries.get_response network
          (from_stream_retried network 7 client 4)
          greet
          fresh
        ≡ BuilderWithRetries.get_response network (retried network 7 client 4) greet fresh)
    × (BuilderWithInputStreamWithRetries.get_streamed_response network
          (from_stream_retried network 7 client 4)
          greet_stream
          fresh
        ≡ as_streamed network client (
            BuilderWithRetries.get_response network
              (retried network 7 client 4)
              greet_stream
              fresh))
get_response-Kinds_example = get_response-Kinds network 7 client 4 greet greet_stream fresh

-- ===== src/Lib.antt =====
-- my-grpc-extensions: verification of the client channels, the streams, the reader of proto
-- files and the code that is generated from them.
--
-- The parts and their files:
-- Prelude: what the modules share. Results holds Rust's `Result`, the outcomes of calls that may
--   panic, and what a timeout gives; Text holds texts as their UTF-8 bytes; Lists and Tests hold
--   lists and Boolean tests over the native numbers.
-- Channel: my-grpc-extensions/src/grpc_channel and my-grpc-extensions/src/ssh.rs. Env is what
--   they take from tonic, my_ssh and the program's settings; State is what calls share: the
--   holder's channel, the key resolver, PORT_FORWARDS_POOL and the world outside. ConnectUrl is
--   grpc_connect_url.rs, Ssh is ssh.rs with port_forwards_pool.rs, Holder is
--   grpc_channel_holder.rs, GrpcChannel is grpc_channel.rs, Pool is grpc_channel_pool.rs, and each
--   module of Requests is the request builder of its name; Requests/Retrying is the loop that the
--   two with retries share, and Requests/Kinds compares the four.
--   Attempts states what a bounded retry is, Connecting, Creating, Executing, Requests/Bounded and
--   Requests/Leaving prove it and what each call leaves in the holder, PortForwards is about the
--   pool of tunnels.
--   A request builder's call is GrpcChannel::execute, which takes the channel from the holder or
--   lets the holder connect, and drops it from the holder after a timeout or an unknown status.
--   Sharing cuts GrpcChannel::execute, the loop of request_builder_with_retries.rs around it and
--   those of grpc_channel_holder.rs below it into the steps between two accesses to the holder, and
--   Sharing/Pinger the ping_loop of grpc_channel_pool.rs, so that the requests and the ping tasks of
--   a process (Sharing/Tasks) interleave on what they share. Each request has types of its own, so
--   that requests for a single response and for a stream stand side by side; by Requests/Kinds, a
--   request of any builder is such a task. A call of another crate is one step, and so is a port
--   forward, which holds the lock of PORT_FORWARDS_POOL to its end, and get_ssh_session, which
--   changes only what is outside. Fetching, Meaning, Bounds, Alone, Rest, Round and Whole relate the
--   steps to the code in one piece, Turns, Steps, Ending, Ranking, Progress, Coming and Resting are
--   about schedules, and Registry, Opening, Books, Booking, Booked, Stepping, Accounts,
--   Failing and Retired about where a channel can be.
-- Streams: StreamedRequest is streamed_request.rs with grpc_channel/streamed_request: a request's
--   state and the channels that were made for it, and runs as lists of events. Reading is
--   read_grpc_stream.rs, Methods is grpc_channel/streamed_response.rs and
--   streamed_request_reader.rs, ServerStreams is grpc_server_streams.rs, Writer is
--   streamed_response_writer.rs with server_stream_result.rs; their children prove.
--   Writer/Unread is about a writer before get_result, while nothing reads its channel.
-- Proto: proto-file-reader/src. Tokens is proto_tokens_reader.rs, ParamType is param_type.rs,
--   Service is proto_file_reader.rs; their children prove.
--   SnakeCase is into_snake_case, with Unicode's letters as a parameter.
-- Macros: what my-grpc-client-macros/src/grpc_client (Client) and
--   my-grpc-server-macros/src/generate_server and with_result_stream (Server) choose for each rpc of
--   the description that Proto reads, with quoted Rust as its text. Client/Generated holds the
--   pieces of a whole client, Client/Invoking what its methods do with the pool and the request
--   builders of Channel, Client/Factory its `new` and `ping`, Client/Serving its
--   `execute`, which is the executor of those calls; the other children prove.
--   WithTelemetry is with_telemetry/generate.rs and consts.rs, over the tokens of a function.
-- Telemetry: my-grpc-extensions/src/grpc_client_interceptor.rs and get_telemetry of
--   grpc_server_telemetry_context.rs; ServerContext is the rest of that file, from the context's
--   `new` to its `drop`.
-- Examples: the theorems at concrete inputs.
--
-- Calls are functions from a state to an outcome and a state; an outcome is a value, an error, a
-- panic, or the model's own `out_of_fuel`. A connection loop has fuel for five rounds, which it
-- never exceeds since it gives up behind attempt_no 4; a retry loop has one round more than its
-- attempts, since 0 attempts make one; a token reader has one call more than it has bytes, since
-- each token takes one. That this fuel is enough is part of the theorems about them.
--
-- Not modelled: log lines and sleeps; the fixed text that the macros put around what they choose, and
-- the parse of the macros' parameters by types_reader; the builds for other features, where TLS
-- panics in the source too, and unix sockets are taken to be there. In a schedule of Sharing pings
-- are on or off from its start: get_channel, which turns them on, comes before a request. The
-- panics of tokio's mpsc::channel for a capacity of 0 or above its greatest are left out, and so is
-- memory that runs out. What a server puts into the channel of a response is what its receiver takes from
-- the front of, up to where it hangs up: the theorems about sending say what is put there. Each
-- operation of a streamed request holds its lock to its end, so that its runs are all
-- interleavings, with a consumer's task at the place where it takes the lock.
pub mod Prelude
pub mod Channel
pub mod Streams
pub mod Proto
pub mod Macros
pub mod Telemetry
pub mod Examples

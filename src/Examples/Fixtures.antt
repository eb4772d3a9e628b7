-- ===== src/Examples/Fixtures.antt =====
-- A small world in which the theorems are run: its state is the number of calls made so far.
use my_grpc_extensions.Prelude.{
  Result, true, ℕ, ◌+◌, refl, List, [], ◌++◌, ◌∷◌, Bytes, Option, none, some, ok, err, elapsed,
  finished, codes, starts_with, ltb, ◌==◌, if◌then◌else◌, false,
}
use my_grpc_extensions.Channel.Env.{Env}
use my_grpc_extensions.Channel.State.{State, new_state}
use my_grpc_extensions.Channel.GrpcChannel.{GrpcChannel, Executor}
use my_grpc_extensions.Channel.Pool.{GrpcChannelPool}
use my_grpc_extensions.Streams.Streaming.{Streaming}
use my_grpc_extensions.Streams.Reading.{MapOps}
use my_grpc_extensions.Streams.Methods.{Statuses}
use my_grpc_extensions.Streams.Writer.{Sender}
use my_grpc_extensions.Streams.ServerStreams.{Mpsc}

-- The first two connections time out; a channel is the number of the call that made it.
abbrev pub network : Env
network = record {
  World = ℕ;
  Channel = ℕ;
  TransportError = ℕ;
  from_shared_is_err = λ host. false;
  connect = λ host timeout w. (if ltb w 2 then elapsed else finished (ok w), w + 1);
  uri_is_err = λ path. false;
  connect_unix = λ path timeout w. (if ltb w 2 then finished (err w) else finished (ok w), w + 1);
  Status = ℕ;
  Code = ℕ;
  code = λ status. status;
  unknown = 2;
  code_eq = λ a b. a == b;
  get_grpc_url =
      λ service_name w. (some (record { url = codes "http://host"; host_metadata = none }), w);
  starts_with_case_insensitive = starts_with;
  Credentials = Bytes;
  credentials_to_string = λ credentials. credentials;
  get_host_port = λ credentials. (credentials, 22);
  get_user_name = λ credentials. codes "user";
  over_ssh = λ raw. (raw, none);
  private_key = λ host port user content pass_phrase. host;
  Resolver = ℕ;
  resolve_ssh_private_key = λ resolver name w. (none, w);
  Endpoint = Bytes;
  try_parse = λ remote. some remote;
  endpoint_as_str = λ endpoint. endpoint;
  get_host = λ endpoint. endpoint;
  get_port = λ endpoint. some 80;
  port_to_string = λ port. codes "80";
  home = none;
  Session = Bytes;
  session_credentials = λ session. session;
  get_or_create_session = λ credentials w. (credentials, w);
  Tunnel = ℕ;
  start_tunnel = λ session path host port w. (some w, w + 1);
}

abbrev pub fresh : State network
fresh = new_state network 0

abbrev pub client : GrpcChannel network ℕ
client = record {
  request_timeout = 5;
  service_name = codes "Greeter";
  create_service = λ channel. channel;
  with_tls = false;
}

-- The server answers from the fifth call on, and before that with Unknown.
abbrev pub greet : Executor network ℕ ℕ ℕ
greet service request timeout w =
    (some (if ltb w 5 then finished (err 2) else finished (ok (request + 1))), w + 1)

abbrev pub greet_stream : Executor network ℕ ℕ (Streaming ℕ ℕ)
greet_stream service request timeout w =
    (some (if ltb w 5 then finished (err 2) else finished (ok (finished (ok request) ∷ []))), w + 1)

abbrev pub answers : Streaming ℕ ℕ
answers = finished (ok 4) ∷ finished (ok 6) ∷ elapsed ∷ finished (ok 9) ∷ []

abbrev pub statuses : Statuses ℕ
statuses = record { aborted = λ text. 10; unavailable = λ text. 14; debug = λ time. codes "5s" }

-- a map by its look-up
abbrev pub functions : MapOps ℕ ℕ
functions = record {
  Map = ℕ → Option ℕ;
  key_eq = λ a b. a == b;
  empty = λ k. none;
  insert = λ j v m k. if j == k then some v else m k;
  get = λ k m. m k;
  get-empty = λ k. refl;
  get-insert = λ k j v m. refl;
}

-- a channel whose receiver never leaves
abbrev pub reliable : {M : Type 0} → Mpsc M
reliable {M} = record {
  Chan = List M;
  channel = λ size. [];
  accepted = λ c. c;
  send_timeout = λ m c. (none, c ++ m ∷ []);
  accepted-channel = λ size. refl;
  accepted-send_timeout = λ m c. refl;
}

abbrev pub pool : GrpcChannelPool network ℕ
pool = record {
  request_timeout = 5;
  ping_timeout = 3;
  service_name = codes "Greeter";
  create_service = λ channel. channel;
  ping = λ service timeout w. (if ltb w 4 then some elapsed else some (finished tt), w + 1);
  with_tls = false;
  enable_ping = true;
}

-- the same with a timeout for each send
abbrev pub steady : Sender (Result ℕ ℕ)
steady = record {
  Chan = List (Result ℕ ℕ);
  channel = λ size. [];
  accepted = λ c. c;
  send_timeout = λ m time c. (none, c ++ m ∷ []);
  send_within = λ m time c. (finished (ok tt), c ++ m ∷ []);
  debug_error = λ e. codes "Timeout";
  debug_duration = λ time. codes "3s";
  debug_closed = codes "SendError";
  accepted-channel = λ size. refl;
  accepted-send_timeout = λ m time c. refl;
}

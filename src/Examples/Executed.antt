-- ===== src/Examples/Executed.antt =====
-- What a generated `execute` does with a host in the settings.
use my_grpc_extensions.Prelude.{
  false, true, ℕ, ◌≡◌, refl, Bytes, List, [], ◌∷◌, some, none, ok, err, finished, ◌+◌, codes,
}
use my_grpc_extensions.Channel.Env.{Env}
use my_grpc_extensions.Macros.Client.Serving.{
  ServiceCall, insert_host, request_for, send_request, generated_execute,
}
use my_grpc_extensions.Channel.Ssh.{insert}
use my_grpc_extensions.Channel.State.{State, new_state}
use my_grpc_extensions.Channel.Holder.{get_held}
use my_grpc_extensions.Channel.Pool.{GrpcChannelPool}
use my_grpc_extensions.Macros.Client.Serving.Heading.{host_header}
use my_grpc_extensions.Macros.Client.Serving.Sending.{
  AllSend, Once, PanicsWithout, invoke-host_header,
}
use my_grpc_extensions.Streams.Streaming.{Streaming}
use my_grpc_extensions.Examples.Fixtures.{network}

abbrev virtual_host : Env
virtual_host = record network {
  get_grpc_url = λ service_name w.
      (some (record { url = codes "http://host"; host_metadata = some service_name }), w);
}

abbrev metadata_of : ServiceCall virtual_host ℕ Bytes (List (Bytes × Bytes))
metadata_of = λ service request time w. (finished (ok request.metadata), w)

execute_with_host :
    (generated_execute virtual_host
      (λ value. some value)
      (codes "api")
      metadata_of
      1
      (codes "hi")
      5
      0).0
    ≡ some (finished (ok ((codes "host", codes "api") ∷ [])))
unfolding generated_execute request_for insert_host send_request insert
execute_with_host = refl

execute_with_bad_host :
    (generated_execute virtual_host (λ value. none) (codes "api") metadata_of 1 (codes "hi") 5 0).0
    ≡ none
unfolding generated_execute request_for insert_host send_request insert
execute_with_bad_host = refl

abbrev host_pool : GrpcChannelPool virtual_host ℕ
host_pool = record {
  request_timeout = 5;
  ping_timeout = 3;
  service_name = codes "api";
  create_service = λ channel. channel;
  ping = λ service timeout w. (none, w);
  with_tls = false;
  enable_ping = true;
}

abbrev connected : State virtual_host
connected = record (new_state virtual_host 9) {
  holder = some (record { channel = 4; host = codes "http://host"; service_name = codes "api" });
}

connected-held : get_held virtual_host connected ≡ some 4
unfolding get_held
connected-held = refl

abbrev no_items : ServiceCall virtual_host ℕ Bytes (Streaming ℕ (List (Bytes × Bytes)))
no_items = λ service request time w. (finished (err 7), w + 1)

invoke-host_header_example :
    AllSend virtual_host host_pool
      (λ value. some value)
      metadata_of
      no_items
      (codes "hi")
      (some 3)
      connected
    × Once virtual_host host_pool
        (λ value. some value)
        metadata_of
        no_items
        (codes "hi")
        4
        connected
        (host_header
          (λ value. some value)
          (some (record { url = codes "http://host"; host_metadata = some (codes "api") })))
    × PanicsWithout virtual_host host_pool
        (λ value. some value)
        metadata_of
        no_items
        (codes "hi")
        (some 3)
        connected
        (host_header
          (λ value. some value)
          (some (record { url = codes "http://host"; host_metadata = some (codes "api") })))
invoke-host_header_example =
    invoke-host_header virtual_host host_pool (λ value. some value) metadata_of no_items
      (codes "hi") connected (some 3) 4 connected-held

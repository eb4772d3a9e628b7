-- ===== src/Examples/Channels.antt =====
-- Connections and requests in the small world.
use my_grpc_extensions.Prelude.{ℕ, ◌≡◌, refl, none, false, codes, starts_with}
use my_grpc_extensions.Channel.ConnectUrl.{tcp, unix_socket, extract_domain_name}
use my_grpc_extensions.Channel.Ssh.{contains_key, forward_id, open_tunnel, start_port_forward}
use my_grpc_extensions.Channel.PortForwards.{start_port_forward_reopens}
use my_grpc_extensions.Channel.Attempts.{Tries}
use my_grpc_extensions.Channel.Holder.{try_tcp, try_unix_socket, create_channel}
use my_grpc_extensions.Channel.Connecting.{Connects, connect_once}
use my_grpc_extensions.Channel.Creating.{create_channel-Connects, create_channel-Tries}
use my_grpc_extensions.Channel.GrpcChannel.{execute}
use my_grpc_extensions.Channel.Executing.{Leaves, execute-Leaves}
use my_grpc_extensions.Channel.Requests.BuilderWithRetries.{
  RequestBuilderWithRetries, get_response, call_streamed, get_streamed_response,
}
use my_grpc_extensions.Channel.Requests.Leaving.{get_response-Tries, get_streamed_response-Tries}
use my_grpc_extensions.Channel.Pool.{ping_round}
use my_grpc_extensions.Channel.Pool.Pinging.{Pings, ping_round-Pings}
use my_grpc_extensions.Examples.Fixtures.{pool, network, fresh, client, greet, greet_stream}

abbrev with_three_attempts : RequestBuilderWithRetries network ℕ ℕ
with_three_attempts = record { input_contract = 7; channel = client; max_attempts_amount = 3 }

get_response-Tries_example :
    Tries
      (execute network client 7 greet)
      3
      fresh
      (get_response network with_three_attempts greet fresh)
    × Leaves network (get_response network with_three_attempts greet fresh)
get_response-Tries_example = get_response-Tries network with_three_attempts greet fresh

get_streamed_response-Tries_example :
    Tries
      (call_streamed network with_three_attempts greet_stream)
      3
      fresh
      (get_streamed_response network with_three_attempts greet_stream fresh)
    × Leaves network (get_streamed_response network with_three_attempts greet_stream fresh)
get_streamed_response-Tries_example =
    get_streamed_response-Tries network with_three_attempts greet_stream fresh

execute-Leaves_example : Leaves network (execute network client 7 greet fresh)
execute-Leaves_example = execute-Leaves network client 7 greet fresh

create_channel-Connects_example :
    Connects network none
      (create_channel network false (unix_socket (codes "/run/grpc")) (codes "Greeter") 5 fresh)
create_channel-Connects_example =
    create_channel-Connects network false (unix_socket (codes "/run/grpc")) (codes "Greeter") 5
      fresh

create_channel-Tries_example :
    Tries
      (connect_once network
        (codes "Greeter")
        (codes "/host")
        (try_tcp network false (tcp (codes "/host") (codes "/host") none) 5))
      5
      fresh
      (create_channel network false
        (tcp (codes "/host") (codes "/host") none)
        (codes "Greeter")
        5
        fresh)
    × Tries
        (connect_once network
          (codes "Greeter")
          (codes "/host")
          (try_unix_socket network (codes "/host") 5))
        5
        fresh
        (create_channel network false (unix_socket (codes "/host")) (codes "Greeter") 5 fresh)
create_channel-Tries_example =
    create_channel-Tries network false (codes "/host") (codes "/host") (codes "Greeter") 5 fresh

start_port_forward_reopens_example :
    (start_port_forward network (codes "me") (codes "/tmp/s") (codes "host") fresh
      ≡ open_tunnel network
          (codes "me")
          (codes "/tmp/s")
          (codes "host")
          (network.get_port (codes "host"))
          fresh)
    × (start_port_forward network
          (codes "me")
          (codes "/tmp/s")
          (codes "host")
          (start_port_forward network (codes "me") (codes "/tmp/s") (codes "host") fresh).1
        ≡ open_tunnel network
            (codes "me")
            (codes "/tmp/s")
            (codes "host")
            (network.get_port (codes "host"))
            (start_port_forward network (codes "me") (codes "/tmp/s") (codes "host") fresh).1)
unfolding forward_id contains_key
start_port_forward_reopens_example =
    start_port_forward_reopens network (codes "me") (codes "/tmp/s") (codes "host") fresh (λ e. cc)
      refl

ping_round-Pings_example : Pings network pool fresh (ping_round network pool fresh)
ping_round-Pings_example = ping_round-Pings network pool fresh refl

-- the crate's own tests of extract_domain_name
domain_name_before_a_port : extract_domain_name (codes "https://localhost:5000") ≡ codes "localhost"
unfolding extract_domain_name starts_with
domain_name_before_a_port = refl

domain_name_alone : extract_domain_name (codes "https://localhost") ≡ codes "localhost"
unfolding extract_domain_name starts_with
domain_name_alone = refl

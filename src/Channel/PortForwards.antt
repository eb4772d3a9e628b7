-- ===== src/Channel/PortForwards.antt =====
-- port_forwards_pool.rs: the pool looks tunnels up by "credentials->endpoint" and stores them by
-- the name of the unix socket.
use my_grpc_extensions.Prelude.{
  ℕ, ◌≡◌, refl, ◌≢◌, false, ◌||◌, List, [], ◌∷◌, Option, none, some, Bytes, bytes_eq, bytes_eq_iff,
  arith,
}
use my_grpc_extensions.Channel.Env.{Env}
use my_grpc_extensions.Channel.State.{State}
use my_grpc_extensions.Channel.Ssh.{
  contains_key, insert, forward_id, keep_tunnel, open_tunnel, start_port_forward,
}

contains_key-insert :
    {V : Type 0} (j k : Bytes) (v : V) (m : List (Bytes × V))
    → contains_key k (insert j v m) ≡ bytes_eq j k || contains_key k m
unfolding contains_key insert
contains_key-insert j k v [] = ground arith
contains_key-insert j k v ((i, w) ∷ m) =
    ground
      (arith, bytes_eq_iff i j, bytes_eq_iff i k, bytes_eq_iff j k, contains_key-insert j k v m)

module _ (env : Env) where
  keep_tunnel-contains_key :
      (path : Bytes) (result : Option env.Tunnel) (s : State env) (k : Bytes)
      → k ≢ path
      → contains_key k (keep_tunnel env path result s).1.port_forwards
        ≡ contains_key k s.port_forwards
  unfolding keep_tunnel
  keep_tunnel-contains_key path none s k ne = refl
  keep_tunnel-contains_key path (some tunnel) s k ne =
      ground (arith, contains_key-insert path k tunnel s.port_forwards, bytes_eq_iff path k)

  open_tunnel-contains_key :
      (session : env.Session) (path : Bytes) (endpoint : env.Endpoint) (port : Option ℕ)
      (s : State env) (k : Bytes)
      → k ≢ path
      → contains_key k (open_tunnel env session path endpoint port s).1.port_forwards
        ≡ contains_key k s.port_forwards
  unfolding open_tunnel
  open_tunnel-contains_key session path endpoint none s k ne = refl
  open_tunnel-contains_key session path endpoint (some port) s k ne =
      keep_tunnel-contains_key path _ _ k ne

  -- A tunnel that was opened is not found again: whenever the pool lacks the key of a session and
  -- an endpoint, and that key is not the name of the socket, the call opens a tunnel, and so does
  -- the same call made once more on the state that it leaves.
  pub start_port_forward_reopens :
      (session : env.Session) (path : Bytes) (endpoint : env.Endpoint) (s : State env)
      → forward_id env session endpoint ≢ path
      → contains_key (forward_id env session endpoint) s.port_forwards ≡ false
      → let again = (start_port_forward env session path endpoint s).1 in
        (start_port_forward env session path endpoint s
          ≡ open_tunnel env session path endpoint (env.get_port endpoint) s)
        × (start_port_forward env session path endpoint again
            ≡ open_tunnel env session path endpoint (env.get_port endpoint) again)
  unfolding start_port_forward
  start_port_forward_reopens session path endpoint s ne missing = ground (
    arith,
    open_tunnel-contains_key session path endpoint (env.get_port endpoint) s
        (forward_id env session endpoint),
  )

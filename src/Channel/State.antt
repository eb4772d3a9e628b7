-- ===== src/Channel/State.antt =====
-- The state that a client's calls share: the holder of its pool (grpc_channel_holder.rs), the
-- resolver of its SSH target (ssh.rs), the process's PORT_FORWARDS_POOL (port_forwards_pool.rs),
-- and the world outside.
use my_grpc_extensions.Prelude.{List, [], Option, none, Bytes, Outcome}
use my_grpc_extensions.Channel.Env.{Env, ReadError}

pub record ChannelData (Channel : Type 0) : Type 0 where
  pub channel : Channel
  pub host : Bytes
  pub service_name : Bytes

pub record State (env : Env) : Type 0 where
  pub holder : Option (ChannelData env.Channel)
  pub private_key_resolver : Option env.Resolver
  pub port_forwards : List (Bytes × env.Tunnel)
  pub world : env.World

-- What a call gives: its outcome and the state that it leaves.
abbrev pub Returns : Env → Type 0 → Type 0
Returns env A = Outcome A (ReadError env) × State env

-- GrpcChannelHolder::new, SshTarget::new and PortForwardInner::new
abbrev new_holder : {Channel : Type 0} → Option (ChannelData Channel)
new_holder = none

abbrev new_ssh_target : {Resolver : Type 0} → Option Resolver
new_ssh_target = none

abbrev new_port_forwards : {Tunnel : Type 0} → List (Bytes × Tunnel)
new_port_forwards = []

-- the state of a process in which a pool has just been made
abbrev pub new_state : (env : Env) → env.World → State env
new_state env world = record {
  holder = new_holder;
  private_key_resolver = new_ssh_target;
  port_forwards = new_port_forwards;
  world = world;
}

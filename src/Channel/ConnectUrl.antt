-- ===== src/Channel/ConnectUrl.antt =====
-- grpc_channel/grpc_connect_url.rs, built for unix. A build without the feature `with-ssh` is the
-- case in which `over_ssh` finds no credentials and keeps the text.
use my_grpc_extensions.Prelude.{
  Bool, true, false, ◌||◌, [], ◌∷◌, ◌==◌, drop, Option, none, some, Bytes, Outcome, returned,
  panicked, codes, starts_with, if◌then◌else◌,
}
use my_grpc_extensions.Channel.Env.{Env}

pub data GrpcConnectUrl (Credentials : Type 0) : Type 0 where
  tcp : (raw remote_resource_string : Bytes) → Option Credentials → GrpcConnectUrl Credentials
  unix_socket : Bytes → GrpcConnectUrl Credentials

module _ (env : Env) where
  open env use {Credentials}

  pub new_as_tcp : Bytes → GrpcConnectUrl Credentials
  new_as_tcp raw = let (remote, credentials) = env.over_ssh raw in tcp raw remote credentials

  pub new_as_unix_socket : Bytes → GrpcConnectUrl Credentials
  new_as_unix_socket raw = unix_socket raw

  -- `impl Into<GrpcConnectUrl> for String`
  unfoldable pub into_connect_url : Bytes → GrpcConnectUrl Credentials
  unfolding new_as_tcp new_as_unix_socket
  into_connect_url s =
      if starts_with s (codes "/") || starts_with s (codes "~/")
      then new_as_unix_socket s
      else new_as_tcp s

  unfoldable pub get_grpc_host : GrpcConnectUrl Credentials → Bytes
  get_grpc_host (tcp raw remote credentials) = remote
  get_grpc_host (unix_socket raw) = raw

  -- `none` in the first place of a panic: unix sockets have no credentials.
  unfoldable pub get_ssh_credentials :
      {E : Type 0} → GrpcConnectUrl Credentials → Outcome (Option Credentials) E
  get_ssh_credentials (tcp raw remote credentials) = returned credentials
  get_ssh_credentials (unix_socket raw) = panicked

  unfoldable pub as_str : GrpcConnectUrl Credentials → Bytes
  as_str (tcp raw remote credentials) = raw
  as_str (unix_socket raw) = raw

  unfoldable pub is_grpc_tls_endpoint : GrpcConnectUrl Credentials → Bool
  unfolding get_grpc_host
  is_grpc_tls_endpoint url = env.starts_with_case_insensitive (get_grpc_host url) (codes "https")

  unfoldable pub is_unix_socket : GrpcConnectUrl Credentials → Bool
  is_unix_socket (tcp raw remote credentials) = false
  is_unix_socket (unix_socket raw) = true

  unfoldable pub is_over_ssh : GrpcConnectUrl Credentials → Bool
  is_over_ssh (tcp raw remote none) = false
  is_over_ssh (tcp raw remote (some credentials)) = true
  is_over_ssh (unix_socket raw) = false

-- extract_domain_name of grpc_channel/mod.rs: `skip_scheme` is what stands behind `://`, if that
-- is found, and `host_of` what stands before the first `:`.
unfoldable pub skip_scheme : Bytes → Option Bytes
skip_scheme [] = none
skip_scheme (b ∷ src) =
    if starts_with (b ∷ src) (codes "://") then some (drop 3 (b ∷ src)) else skip_scheme src

unfoldable pub host_of : Bytes → Bytes
host_of [] = []
host_of (b ∷ src) = let rest = host_of src in if b == b':' then [] else b ∷ rest

unfoldable pub extract_domain_name : Bytes → Bytes
unfolding skip_scheme host_of
extract_domain_name src = host_of (elim (skip_scheme src) [ none ↦ src | some rest ↦ rest ])

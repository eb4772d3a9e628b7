-- ===== src/Channel/Connecting.antt =====
-- What the connection loops of grpc_channel_holder.rs do: five rounds at most, and the holder
-- holds what was returned.
use my_grpc_extensions.Prelude.{
  ℕ, zero, suc, ◌+◌, ◌≤◌, ◌<◌, ◌≡◌, refl, ap, ◌∙◌, fun_ext, Bool, Option, none, some, Bytes, ok,
  err, returned, failed, panicked, out_of_fuel, elapsed, finished, arith,
}
use my_grpc_extensions.Channel.Env.{Env, timeout, transport_error, tonic_status, ReadError}
use my_grpc_extensions.Channel.ConnectUrl.{GrpcConnectUrl}
use my_grpc_extensions.Channel.State.{ChannelData, State, Returns}
use my_grpc_extensions.Channel.Attempts.{on_failure, first_ok}
use my_grpc_extensions.Channel.Holder.{
  set_channel, Connecting, after_attempt, connect_loop, try_unix_socket, try_tcp,
}

module _ (env : Env) where
  open env use {Channel}

  abbrev pub Holder : Type 0
  Holder = Option (ChannelData Channel)

  -- A connection error: no status of a peer.
  abbrev pub IsConnectError : ReadError env → Type 0
  IsConnectError timeout = Unit {0}
  IsConnectError (transport_error e) = Unit {0}
  IsConnectError (tonic_status status) = ⊥

  -- What a connection made from a state with holder `before` leaves in the holder.
  abbrev pub Connects : Holder → Returns env Channel → Type 0
  Connects before (returned channel, s) =
      (d : ChannelData Channel) × (s.holder ≡ some d) × (d.channel ≡ channel)
  Connects before (failed e, s) = (s.holder ≡ before) × IsConnectError e
  Connects before (panicked, s) = s.holder ≡ before
  Connects before (out_of_fuel, s) = ⊥

  -- one round as a call of its own, at a round that is not the last
  unfoldable pub connect_once :
      Bytes → Bytes → (State env → Connecting env) → State env → Returns env Channel
  unfolding after_attempt
  connect_once service_name host try_connect s =
      after_attempt env service_name host 4 (try_connect s) (λ t. (out_of_fuel, t))

  after_attempt-on_failure :
      (service_name host : Bytes) (n : ℕ) (c : Connecting env)
      (again : State env → Returns env Channel)
      → n ≤ 3
      → after_attempt env service_name host n c again
        ≡ on_failure (after_attempt env service_name host 4 c (λ t. (out_of_fuel, t))) again
  unfolding after_attempt
  after_attempt-on_failure service_name host n (none, s) again h = refl
  after_attempt-on_failure service_name host n (some elapsed, s) again h = ground arith
  after_attempt-on_failure service_name host n (some (finished (ok c)), s) again h = refl
  after_attempt-on_failure service_name host n (some (finished (err e)), s) again h = ground arith

  after_attempt_last :
      (service_name host : Bytes) (n : ℕ) (c : Connecting env)
      (again : State env → Returns env Channel)
      → n ≡ 4
      → after_attempt env service_name host n c again
        ≡ after_attempt env service_name host 4 c (λ t. (out_of_fuel, t))
  unfolding after_attempt
  after_attempt_last service_name host n (none, s) again h = refl
  after_attempt_last service_name host n (some elapsed, s) again h = ground arith
  after_attempt_last service_name host n (some (finished (ok c)), s) again h = refl
  after_attempt_last service_name host n (some (finished (err e)), s) again h = ground arith

  pub connect_loop-first_ok :
      (service_name host : Bytes) (try_connect : State env → Connecting env) (left fuel n : ℕ)
      (s : State env)
      → n + left ≡ 4
      → left < fuel
      → connect_loop env service_name host try_connect fuel n s
        ≡ first_ok left (connect_once service_name host try_connect) s
  unfolding connect_loop first_ok connect_once
  connect_loop-first_ok service_name host try_connect left zero n s e h = absurd (omega arith)
  connect_loop-first_ok service_name host try_connect zero (suc fuel) n s e h =
      after_attempt_last service_name host n (try_connect s) _ (omega arith)
  connect_loop-first_ok service_name host try_connect (suc left) (suc fuel) n s e h =
      after_attempt-on_failure service_name host n (try_connect s) _ (omega arith)
      ∙ ap (on_failure (connect_once service_name host try_connect s)) (
          fun_ext λ t.
            connect_loop-first_ok service_name host try_connect left fuel (n + 1) t (omega arith)
              (omega arith))

  after_attempt-Connects :
      (service_name host : Bytes) (before : Holder) (c : Connecting env)
      (again : State env → Returns env Channel)
      → c.1.holder ≡ before
      → Connects before (after_attempt env service_name host 4 c again)
  unfolding after_attempt set_channel
  after_attempt-Connects service_name host before (none, s) again h = h
  after_attempt-Connects service_name host before (some elapsed, s) again h = (h, tt)
  after_attempt-Connects service_name host before (some (finished (ok c)), s) again h =
      (record { channel = c; host = host; service_name = service_name }, refl, refl)
  after_attempt-Connects service_name host before (some (finished (err e)), s) again h = (h, tt)

  on_failure-Connects :
      (before : Holder) (r : Returns env Channel) (again : State env → Returns env Channel)
      → Connects before r
      → ((t : State env) → t.holder ≡ before → Connects before (again t))
      → Connects before (on_failure r again)
  on_failure-Connects before (returned c, s) again h k = h
  on_failure-Connects before (failed e, s) again h k = k s h.0
  on_failure-Connects before (panicked, s) again h k = h
  on_failure-Connects before (out_of_fuel, s) again h k = absurd h

  -- A round that leaves the holder alone.
  abbrev pub KeepsHolder : (State env → Connecting env) → Type 0
  KeepsHolder try_connect = (s : State env) → (try_connect s).1.holder ≡ s.holder

  first_ok-Connects :
      (service_name host : Bytes) (try_connect : State env → Connecting env)
      → KeepsHolder try_connect
      → (before : Holder) (n : ℕ) (s : State env) → s.holder ≡ before
      → Connects before (first_ok n (connect_once service_name host try_connect) s)
  unfolding first_ok connect_once
  first_ok-Connects service_name host try_connect keeps before zero s h =
      after_attempt-Connects service_name host before (try_connect s) _ (keeps s ∙ h)
  first_ok-Connects service_name host try_connect keeps before (suc n) s h =
      on_failure-Connects before (connect_once service_name host try_connect s) _
        (after_attempt-Connects service_name host before (try_connect s) _ (keeps s ∙ h))
        (first_ok-Connects service_name host try_connect keeps before n)

  pub connect_loop-Connects :
      (service_name host : Bytes) (try_connect : State env → Connecting env)
      → KeepsHolder try_connect
      → (before : Holder) (s : State env) → s.holder ≡ before
      → Connects before (connect_loop env service_name host try_connect 5 0 s)
  connect_loop-Connects service_name host try_connect keeps before s h =
      rw (connect_loop-first_ok service_name host try_connect 4 5 0 s (omega arith) (omega arith))
        (first_ok-Connects service_name host try_connect keeps before 4 s h)

  pub try_unix_socket-KeepsHolder :
      (url : Bytes) (request_timeout : ℕ) → KeepsHolder (try_unix_socket env url request_timeout)
  unfolding try_unix_socket
  try_unix_socket-KeepsHolder url request_timeout s = ground arith

  pub try_tcp-KeepsHolder :
      (with_tls : Bool) (url : GrpcConnectUrl env.Credentials) (request_timeout : ℕ)
      → KeepsHolder (try_tcp env with_tls url request_timeout)
  unfolding try_tcp
  try_tcp-KeepsHolder with_tls url request_timeout s = ground arith

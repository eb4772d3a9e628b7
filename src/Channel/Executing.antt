-- ===== src/Channel/Executing.antt =====
-- What a request leaves in the holder, and what its errors say of it.
use my_grpc_extensions.Channel.ConnectUrl.{GrpcConnectUrl}
use my_grpc_extensions.Prelude.{
  ◌≡◌, refl, subst, none, some, Result, ok, err, returned, failed, panicked, out_of_fuel, Timed,
  elapsed, finished, and_then, if◌then◌else◌, Bool-cases, inl, inr, Option,
}
use my_grpc_extensions.Channel.Env.{Env, timeout, transport_error, tonic_status}
use my_grpc_extensions.Streams.Streaming.{Streaming}
use my_grpc_extensions.Channel.State.{State, Returns}
use my_grpc_extensions.Channel.Holder.{get_held, drop_channel, create_channel}
use my_grpc_extensions.Channel.Connecting.{Holder, Connects}
use my_grpc_extensions.Channel.Creating.{create_channel-Connects}
use my_grpc_extensions.Channel.GrpcChannel.{
  GrpcChannel, Executor, drop_channel_if_needed, drop_dead_channel, get_connect_url, create_at,
  connect_anew, channel_or_new, get_channel, get_service, settle, execute, call_service,
  execute_with_response_as_stream, execute_input_as_stream,
  execute_input_as_stream_response_as_stream,
}

module _ (env : Env) where
  -- Whether the holder holds a channel.
  abbrev pub IsHeld : Holder env → Type 0
  IsHeld none = ⊥
  IsHeld (some d) = Unit {0}

  -- What a request says of the holder that it leaves: after a response it holds a channel; after
  -- a timeout or a transport error it is empty; after a status of the peer it is empty exactly if
  -- the status's code is Unknown. A loop never runs out of fuel.
  abbrev pub Leaves : {A : Type 0} → Returns env A → Type 0
  Leaves (returned a, s) = IsHeld s.holder
  Leaves (failed timeout, s) = s.holder ≡ none
  Leaves (failed (transport_error e), s) = s.holder ≡ none
  Leaves (failed (tonic_status status), s) =
      if env.code_eq (env.code status) env.unknown then s.holder ≡ none else IsHeld s.holder
  Leaves (panicked, s) = Unit {0}
  Leaves (out_of_fuel, s) = ⊥

  Connects-Leaves : (r : Returns env env.Channel) → Connects env none r → Leaves r
  Connects-Leaves (returned c, s) (d, e, h) = rw e tt
  Connects-Leaves (failed timeout, s) h = h.0
  Connects-Leaves (failed (transport_error e), s) h = h.0
  Connects-Leaves (failed (tonic_status status), s) h = absurd h.1
  Connects-Leaves (panicked, s) h = tt
  Connects-Leaves (out_of_fuel, s) h = h

  module _ {TService : Type 0} (self : GrpcChannel env TService) where
    -- the errors of a connection are no statuses, so they leave the holder empty
    create_at-Leaves :
        (o : Option (GrpcConnectUrl env.Credentials)) (s : State env)
        → s.holder ≡ none
        → Leaves (create_at env self o s)
    unfolding create_at
    create_at-Leaves none s e = tt
    create_at-Leaves (some url) s e =
        let made = create_channel env self.with_tls url self.service_name self.request_timeout in
        Connects-Leaves (made s) (
          subst (λ h. Connects env h (made s)) e
            (create_channel-Connects env self.with_tls url self.service_name self.request_timeout
              s))

    connect_anew-Leaves : (s : State env) → s.holder ≡ none → Leaves (connect_anew env self s)
    unfolding connect_anew get_connect_url
    connect_anew-Leaves s e =
        let asked = get_connect_url env self.service_name s in create_at-Leaves asked.0 asked.1 e

    channel_or_new-Leaves :
        (h : Holder env) (s : State env)
        → s.holder ≡ h
        → Leaves (channel_or_new env self (get_held env (record s { holder = h })) s)
    unfolding channel_or_new get_held
    channel_or_new-Leaves none s e = connect_anew-Leaves s e
    channel_or_new-Leaves (some d) s e = rw e tt

    get_channel-Leaves : (s : State env) → Leaves (get_channel env self s)
    unfolding get_channel
    get_channel-Leaves s = channel_or_new-Leaves s.holder s refl

    pub and_then-Leaves :
        {A B : Type 0} (r : Returns env A) (k : A → State env → Returns env B)
        → Leaves r
        → ((a : A) (s : State env) → IsHeld s.holder → Leaves (k a s))
        → Leaves (and_then r k)
    and_then-Leaves (returned a, s) k h next = next a s h
    and_then-Leaves (failed timeout, s) k h next = h
    and_then-Leaves (failed (transport_error e), s) k h next = h
    and_then-Leaves (failed (tonic_status status), s) k h next = h
    and_then-Leaves (panicked, s) k h next = tt
    and_then-Leaves (out_of_fuel, s) k h next = h

    get_service-Leaves : (s : State env) → Leaves (get_service env self s)
    unfolding get_service
    get_service-Leaves s =
        and_then-Leaves (get_channel env self s) _ (get_channel-Leaves s) (λ c t h. h)

    settle-Leaves :
        {A : Type 0} (result : Option (Timed (Result A env.Status))) (s : State env)
        → IsHeld s.holder
        → Leaves (settle env self result s)
    unfolding settle drop_dead_channel drop_channel_if_needed drop_channel
    settle-Leaves none s h = tt
    settle-Leaves (some elapsed) s h = refl
    settle-Leaves (some (finished (ok response))) s h = h
    settle-Leaves (some (finished (err status))) s h =
        elim (Bool-cases (env.code_eq (env.code status) env.unknown)) [
          | inl e ↦ rw e refl
          | inr e ↦ rw e h
        ]

    module _ {TRequest TResponse : Type 0} where
      served-Leaves :
          (request : TRequest) (executor : Executor env TService TRequest TResponse) (s : State env)
          → Leaves (and_then (get_service env self s) (call_service env self executor request))
      unfolding call_service
      served-Leaves request executor s =
          and_then-Leaves (get_service env self s) _ (get_service-Leaves s)
            (λ service t h. settle-Leaves _ _ h)

      -- Whatever the holder held before, a single request leaves a channel in it with a response,
      -- an empty holder with a timeout or a transport error, and with a status an empty holder
      -- exactly if the status's code is Unknown; connecting never runs out of fuel.
      pub execute-Leaves :
          (request : TRequest) (executor : Executor env TService TRequest TResponse) (s : State env)
          → Leaves (execute env self request executor s)
      unfolding execute
      execute-Leaves = served-Leaves

      pub execute_input_as_stream-Leaves :
          (request : TRequest) (executor : Executor env TService TRequest TResponse) (s : State env)
          → Leaves (execute_input_as_stream env self request executor s)
      unfolding execute_input_as_stream
      execute_input_as_stream-Leaves = served-Leaves

    module _ {TRequest TItem : Type 0} where
      pub execute_with_response_as_stream-Leaves :
          (request : TRequest)
          (executor : Executor env TService TRequest (Streaming env.Status TItem)) (s : State env)
          → Leaves (execute_with_response_as_stream env self request executor s)
      unfolding execute_with_response_as_stream
      execute_with_response_as_stream-Leaves = served-Leaves

      pub execute_input_as_stream_response_as_stream-Leaves :
          (request : TRequest)
          (executor : Executor env TService TRequest (Streaming env.Status TItem)) (s : State env)
          → Leaves (execute_input_as_stream_response_as_stream env self request executor s)
      unfolding execute_input_as_stream_response_as_stream
      execute_input_as_stream_response_as_stream-Leaves = served-Leaves

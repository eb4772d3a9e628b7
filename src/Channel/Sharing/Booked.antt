-- ===== src/Channel/Sharing/Booked.antt =====
-- Each step of a caller keeps the books of each channel.
use my_grpc_extensions.Channel.ConnectUrl.{GrpcConnectUrl}
use my_grpc_extensions.Channel.GrpcChannel.{get_connect_url}
use my_grpc_extensions.Channel.Ssh.{start_port_forward}
use my_grpc_extensions.Prelude.{
  ℕ, ◌+◌, inl, inr, refl, sym, ◌∙◌, Bool-cases, Bytes, Result, ok, err, Timed, elapsed, finished,
  returned, failed, leb, Option, some, none, panicked,
}
use my_grpc_extensions.Channel.Env.{Env, timeout, tonic_status, ReadError}
use mathlib.Core.Option.{some-injective, none-ne-some}
use my_grpc_extensions.Channel.State.{State}
use my_grpc_extensions.Channel.Holder.{get_held, set_channel, drop_channel}
use my_grpc_extensions.Channel.GrpcChannel.{Executor, needs_drop}
use my_grpc_extensions.Channel.Requests.BuilderWithRetries.{RequestBuilderWithRetries}
use my_grpc_extensions.Channel.Sharing.{
  addressed, Caller, getting, routing, resolved, forwarding, connecting, storing, calling, dropping,
  failing, done, answered, advance,
}
use my_grpc_extensions.Channel.Sharing.Registry.{Registry, Keeps}
use my_grpc_extensions.Channel.Sharing.Opening.{
  Quiet, try_route-Opens, get_connect_url-Quiet, start_port_forward-Quiet,
}
use my_grpc_extensions.Channel.Sharing.Books.{Books, resting-Books, nothing}
use my_grpc_extensions.Channel.Sharing.Booking.{
  got-Books, routed-Books, forwarded-Books, attempted-Books,
}

module _ (env : Env) {TService TRequest TResponse : Type 0}
    (executor : Executor env TService TRequest TResponse) (registry : Registry env)
    (careful : Keeps env registry executor)
    (self : RequestBuilderWithRetries env TService TRequest) where
  open env use {Channel, Credentials}
  open registry use {Made}

  -- A call ends on its channel, or the caller lets go of it.
  dropping-Books :
      (channel c : Channel) (n : ℕ) (e : ReadError env) (s t : State env)
      → Quiet env registry s t
      → Books env registry TResponse channel (calling n c) s (dropping n c e) t
  dropping-Books channel c n e s t h =
      (h.0 channel, (λ k. absurd k), (λ same. inl same), (λ held. inl (sym h.1 ∙ held)))

  answered-Books :
      (channel c : Channel) (n : ℕ) (s t : State env)
      (result : Option (Timed (Result TResponse env.Status)))
      → Quiet env registry s t
      → Books env registry TResponse channel
          (calling n c)
          s
          (answered env self executor n c result)
          t
  unfolding answered
  answered-Books channel c n s t none h =
      resting-Books env registry TResponse channel (calling n c) s (done panicked) t h (nothing env)
  answered-Books channel c n s t (some elapsed) h = dropping-Books channel c n timeout s t h
  answered-Books channel c n s t (some (finished (ok response))) h =
      resting-Books env registry TResponse channel (calling n c) s (done (returned response)) t h
        (nothing env)
  answered-Books channel c n s t (some (finished (err status))) h =
      elim (Bool-cases (needs_drop env (tonic_status status))) [
        | inl b ↦ rw b (dropping-Books channel c n (tonic_status status) s t h)
        | inr b ↦ rw b (
            resting-Books env registry TResponse channel (calling n c) s
              (failing n (tonic_status status)) t h (nothing env))
      ]

  storing-Books :
      (channel c : Channel) (n : ℕ) (name host : Bytes) (s : State env)
      → Books env registry TResponse channel
          (storing n host c)
          s
          (calling n c)
          (set_channel env name host c s)
  unfolding set_channel get_held
  storing-Books channel c n name host s =
      ((λ h. h), (λ h. absurd h), (λ same. inr (inr same)), (λ held. inr (some-injective _ _ held)))

  dropped-Books :
      (channel c : Channel) (n : ℕ) (e : ReadError env) (s : State env)
      → Books env registry TResponse channel (dropping n c e) s (failing n e) (drop_channel env s)
  unfolding drop_channel get_held
  dropped-Books channel c n e s =
      ((λ h. h), (λ h. absurd h), (λ h. absurd h), (λ held. absurd (none-ne-some _ held)))

  called-Quiet :
      (channel : Channel) (s : State env)
      → Quiet env registry s (record s {
        world =
            (executor
              (self.channel.create_service channel)
              self.input_contract
              self.channel.request_timeout
              s.world).1;
      })
  unfolding get_held
  called-Quiet channel s = (
    careful (self.channel.create_service channel) self.input_contract self.channel.request_timeout
        s.world,
    refl,
  )

  failed-Books :
      (channel : Channel) (n : ℕ) (e : ReadError env) (s : State env)
      → Books env registry TResponse channel
          (failing n e)
          s
          (advance env self executor (failing n e) s).0
          (advance env self executor (failing n e) s).1
  unfolding advance
  failed-Books channel n e s = elim (Bool-cases (leb self.max_attempts_amount (n + 1))) [
    | inl b ↦ rw b (
        resting-Books env registry TResponse channel (failing n e) s (done (failed e)) s
          ((λ d h. h), refl) (nothing env))
    | inr b ↦ rw b (
        resting-Books env registry TResponse channel (failing n e) s (getting (n + 1)) s
          ((λ d h. h), refl) (nothing env))
  ]

  addressed-Books :
      (channel : Channel) (n : ℕ) (s t : State env) (o : Option (GrpcConnectUrl env.Credentials))
      → Quiet env registry s t
      → Books env registry TResponse channel (routing n) s (addressed env self executor n o) t
  unfolding addressed
  addressed-Books channel n s t none h =
      resting-Books env registry TResponse channel (routing n) s (done panicked) t h (nothing env)
  addressed-Books channel n s t (some url) h =
      resting-Books env registry TResponse channel (routing n) s (resolved n url) t h (nothing env)

  pub advance-Books :
      (channel : Channel) (c : Caller env TResponse) (s : State env)
      → Books env registry TResponse channel c s
          (advance env self executor c s).0
          (advance env self executor c s).1
  unfolding advance
  advance-Books channel (getting n) s =
      got-Books env executor registry self channel n s (get_held env s) refl
  advance-Books channel (routing n) s =
      addressed-Books channel n s (get_connect_url env self.channel.service_name s).1
        (get_connect_url env self.channel.service_name s).0
        (get_connect_url-Quiet env registry self.channel.service_name s)
  advance-Books channel (resolved n url) s = routed-Books env executor registry self channel n url s
  advance-Books channel (forwarding n name session endpoint) s =
      forwarded-Books env executor registry self channel n name (forwarding n name session endpoint)
        s (start_port_forward env session name endpoint s)
        (start_port_forward-Quiet env registry session name endpoint s)
  advance-Books channel (connecting n route round) s =
      attempted-Books env executor registry self channel n route round s _ _
        (try_route-Opens env registry self executor route s)
  advance-Books channel (storing n host c) s = storing-Books channel c n _ host s
  advance-Books channel (calling n c) s = answered-Books channel c n s _ _ (called-Quiet c s)
  advance-Books channel (dropping n c e) s = dropped-Books channel c n e s
  advance-Books channel (failing n e) s = failed-Books channel n e s
  advance-Books channel (done result) s =
      resting-Books env registry TResponse channel (done result) s (done result) s
        ((λ d h. h), refl) (nothing env)

-- ===== src/Channel/Pool/Pinging.antt =====
-- What the ping task leaves in the holder, and how it ends.
use my_grpc_extensions.Prelude.{
  ◌≡◌, refl, subst, true, Option, none, some, returned, failed, panicked, out_of_fuel, Timed,
  elapsed, finished, ◌⊎◌, inl, inr,
}
use mathlib.Core.Option
use my_grpc_extensions.Channel.Env.{Env, GrpcUrl, ReadError}
use my_grpc_extensions.Channel.State.{ChannelData, State, Returns}
use my_grpc_extensions.Channel.Holder.{get_held, drop_channel, create_channel}
use my_grpc_extensions.Channel.ConnectUrl.{into_connect_url}
use my_grpc_extensions.Channel.Connecting.{Holder, Connects}
use my_grpc_extensions.Channel.Creating.{create_channel-Connects}
use my_grpc_extensions.Channel.GrpcChannel.{
  create_at, get_channel, connect_anew, channel_or_new, get_connect_url,
}
use my_grpc_extensions.Channel.Pool.{
  GrpcChannelPool, ping_result, settle_ping, get_pooled, created, reported, held_or_created,
  get_or_create_channel, execute_ping_with_timeout, ping_channel, ping_round,
}

module _ (env : Env) {TService : Type 0} (self : GrpcChannelPool env TService) where
  -- the ping of a channel's service came back at some time
  abbrev pub Answers : env.Channel → Type 0
  Answers channel =
      (w : env.World) × ((self.ping (self.create_service channel) self.ping_timeout w).0
        ≡ some (finished tt))

  -- no channel, or one that answered
  abbrev pub Checked : Holder env → Type 0
  Checked none = Unit {0}
  Checked (some d) = Answers d.channel

  -- the connection that an empty holder asks for, and what it comes to with the settings; without
  -- them `get_grpc_url` has panicked
  abbrev connected : Option GrpcUrl → State env → Returns env env.Channel
  connected none s = (panicked, s)
  connected (some grpc_url) s =
      create_channel env self.with_tls (into_connect_url env grpc_url.url) self.service_name
        self.request_timeout s

  abbrev connecting : State env → Returns env env.Channel
  connecting s =
      let (grpc_url, w) = env.get_grpc_url self.service_name s.world in
      connected grpc_url (record s { world = w })

  -- Connecting panics.
  abbrev ConnectingPanics : State env → Type 0
  ConnectingPanics before = (connecting before).0 ≡ panicked

  -- Connecting fails, and `get_grpc_url` panics when it is asked again for the log.
  abbrev LogPanics : State env → Type 0
  LogPanics before =
      (e : ReadError env) × (s : State env) × (connecting before ≡ (failed e, s))
      × ((env.get_grpc_url self.service_name s.world).0 ≡ none)

  -- A round ends, with a holder that was checked; or the holder was empty, and its connection
  -- panics or the log of that one's failure does.
  abbrev pub Pings : State env → Returns env (Unit {0}) → Type 0
  Pings before (returned u, s) = Checked s.holder
  Pings before (failed e, s) = ⊥
  Pings before (panicked, s) =
      (before.holder ≡ none) × (s.holder ≡ none) × (ConnectingPanics before ⊎ LogPanics before)
  Pings before (out_of_fuel, s) = ⊥

  -- what the round gets to ping
  abbrev Gets : State env → Returns env env.Channel → Type 0
  Gets before (returned channel, s) =
      (d : ChannelData env.Channel) × (s.holder ≡ some d) × (d.channel ≡ channel)
  Gets before (failed e, s) =
      (before.holder ≡ none) × (s.holder ≡ none) × (connecting before ≡ (failed e, s))
  Gets before (panicked, s) = (before.holder ≡ none) × (s.holder ≡ none) × ConnectingPanics before
  Gets before (out_of_fuel, s) = ⊥

  Connects-Gets :
      (before : State env) (r : Returns env env.Channel)
      → before.holder ≡ none
      → connecting before ≡ r
      → Connects env none r
      → Gets before r
  Connects-Gets before (returned c, s) empty at h = h
  Connects-Gets before (failed e, s) empty at h = (empty, h.0, at)
  Connects-Gets before (panicked, s) empty at h = (empty, h, rw at refl)
  Connects-Gets before (out_of_fuel, s) empty at h = h

  connected-created : (o : Option GrpcUrl) (s : State env) → connected o s ≡ created env self o s
  unfolding created
  connected-created none s = refl
  connected-created (some grpc_url) s = refl

  created-Connects :
      (o : Option GrpcUrl) (s : State env) → Connects env s.holder (created env self o s)
  unfolding created
  created-Connects none s = refl
  created-Connects (some grpc_url) s =
      create_channel-Connects env self.with_tls _ self.service_name self.request_timeout s

  held_or_created-Gets :
      (h : Holder env) (s : State env)
      → s.holder ≡ h
      → Gets s (held_or_created env self (get_held env (record s { holder = h })) s)
  unfolding held_or_created get_held
  held_or_created-Gets none s e =
      Connects-Gets s _ e (connected-created _ _)
        (subst (λ h. Connects env h (held_or_created env self none s)) e (created-Connects _ _))
  held_or_created-Gets (some d) s e = (d, e, refl)

  settle_ping-Checked :
      (channel : env.Channel) (w : env.World) (r : Option (Timed (Unit {0})))
      (d : ChannelData env.Channel) (s : State env)
      → (self.ping (self.create_service channel) self.ping_timeout w).0 ≡ r
      → s.holder ≡ some d
      → d.channel ≡ channel
      → Checked (settle_ping env (ping_result r) s).holder
  unfolding settle_ping ping_result drop_channel
  settle_ping-Checked channel w none d s e h c = tt
  settle_ping-Checked channel w (some elapsed) d s e h c = tt
  settle_ping-Checked channel w (some (finished tt)) d s e h c = rw (h, c) (w, e)

  -- the log of a failed connection
  reported-Pings :
      (before : State env) (e : ReadError env) (s : State env) (w : env.World) (o : Option GrpcUrl)
      → (env.get_grpc_url self.service_name s.world).0 ≡ o
      → Gets before (failed e, s)
      → Pings before (reported env o (record s { world = w }))
  unfolding reported
  reported-Pings before e s w none at (empty, left, failing) =
      (empty, left, inr (e, s, failing, at))
  reported-Pings before e s w (some grpc_url) at (empty, left, failing) = rw left tt

  ping_channel-Pings :
      (before : State env) (r : Returns env env.Channel)
      → Gets before r
      → Pings before (ping_channel env self r)
  unfolding ping_channel execute_ping_with_timeout
  ping_channel-Pings before (returned channel, s) (d, h, c) =
      settle_ping-Checked channel s.world _ d _ refl h c
  ping_channel-Pings before (failed e, s) h = reported-Pings before e s _ _ refl h
  ping_channel-Pings before (panicked, s) h = (h.0, h.1, inl h.2)
  ping_channel-Pings before (out_of_fuel, s) h = h

  -- Once pings are enabled, a round of the ping task leaves no channel in the holder or one whose
  -- ping came back within the timeout; it does not fail and never runs out of fuel. It panics,
  -- and so ends the task, only when the holder was empty, is left so, and either the settings or
  -- `create_channel` panic, or the settings do so when they are asked again behind an error of
  -- `create_channel`; that error alone ends the round with an empty holder.
  pub ping_round-Pings : (s : State env) → self.enable_ping ≡ true → Pings s (ping_round env self s)
  unfolding ping_round get_or_create_channel
  ping_round-Pings s on = rw on (ping_channel-Pings s _ (held_or_created-Gets s.holder s refl))

  created-create_at :
      (o : Option GrpcUrl) (s : State env)
      → created env self o s
        ≡ create_at env
            (get_pooled env self).0
            (Option.map (λ (settings : GrpcUrl). into_connect_url env settings.url) o)
            s
  unfolding created create_at get_pooled
  created-create_at none s = refl
  created-create_at (some grpc_url) s = refl

  -- The ping task comes to its channel exactly as a request through the pool does.
  pub get_or_create_channel-get_channel :
      (s : State env) → get_or_create_channel env self s ≡ get_channel env (get_pooled env self).0 s
  unfolding get_or_create_channel held_or_created get_channel channel_or_new connect_anew
      get_connect_url get_pooled
  get_or_create_channel-get_channel s = same (get_held env s) s
    where
      same :
          (o : Option env.Channel) (s : State env)
          → held_or_created env self o s ≡ channel_or_new env (get_pooled env self).0 o s
      same none s = created-create_at _ _
      same (some channel) s = refl

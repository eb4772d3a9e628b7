-- ===== src/Examples/Sharing.antt =====
-- Tasks that share a holder in the small world.
use my_grpc_extensions.Prelude.{
  ℕ, zero, suc, starts_with, ◌+◌, ◌<◌, ◌≤◌, ◌≡◌, ◌≢◌, refl, subst, List, [], ◌∷◌, some, none,
  Result, ok, err, Outcome, out_of_fuel, Timed, elapsed, finished, ltb, Bool-cases, inl, inr, arith,
  true, if◌then◌else◌,
}
use mathlib.Core.Option.{none-ne-some}
use my_grpc_extensions.Channel.Env.{ReadError}
use my_grpc_extensions.Channel.Holder.{get_held, set_channel, drop_channel, try_tcp}
use my_grpc_extensions.Channel.ConnectUrl.{into_connect_url}
use my_grpc_extensions.Channel.GrpcChannel.{get_connect_url, needs_drop}
use my_grpc_extensions.Channel.Pool.{get_pooled, ping_result, execute_ping_with_timeout}
use my_grpc_extensions.Channel.Requests.BuilderWithRetries.{RequestBuilderWithRetries}
use my_grpc_extensions.Channel.Sharing.{calling, done, advance, try_route, routed, addressed}
use my_grpc_extensions.Channel.Sharing.Pinger.{fetch, fetched, checked, ping_request, advance_ping}
use my_grpc_extensions.Channel.Sharing.Tasks.{
  Task, request, pinging, System, take_step, turn, run_schedule, starting,
}
use my_grpc_extensions.Channel.Sharing.Steps.{turns_in_a_row, seen}
use my_grpc_extensions.Channel.Sharing.Whole.{AtEnd, turns_in_one, in_a_row-AtEnd}
use my_grpc_extensions.Channel.Sharing.Progress.{run_schedule-Ends}
use my_grpc_extensions.Channel.Sharing.Resting.{Rests, run_schedule-Rests}
use my_grpc_extensions.Channel.Sharing.Registry.{Registry, Careful}
use my_grpc_extensions.Channel.Sharing.Failing.{FailsOn}
use my_grpc_extensions.Channel.Sharing.Retired.{dropped-run_schedule}
use my_grpc_extensions.Examples.Fixtures.{network, fresh, client, pool, greet, greet_stream}

abbrev builder : RequestBuilderWithRetries network ℕ ℕ
builder = record { input_contract = 7; channel = client; max_attempts_amount = 3 }

-- a request, a ping task, and requests whose responses are streams
abbrev tasks : ℕ → Task network ℕ
tasks zero = request ℕ ℕ builder greet
tasks (suc zero) = pinging (record pool { enable_ping = true })
tasks (suc (suc i)) = request ℕ _ builder greet_stream

-- 0, 1, 0, 1 ...
abbrev in_turns : ℕ → List ℕ
in_turns zero = []
in_turns (suc k) = 0 ∷ 1 ∷ in_turns k

run_schedule-Ends_example :
    (r : Outcome ℕ (ReadError network)) × ((run_schedule tasks
          (in_turns 39)
          (starting tasks fresh)).places
        0
      ≡ done r)
    × (r ≢ out_of_fuel)
run_schedule-Ends_example = run_schedule-Ends network tasks 0 (in_turns 39) fresh (omega arith)

run_schedule-Rests_example :
    Rests network tasks 1 (in_turns 13) (run_schedule tasks (in_turns 3) (starting tasks fresh))
run_schedule-Rests_example =
    run_schedule-Rests network tasks 1 (in_turns 3) (in_turns 13) fresh (omega arith)

in_a_row-AtEnd_example :
    (k : ℕ) × ((1 ≤ k) × (k ≤ turns_in_one (tasks 1)))
    × AtEnd
        (tasks 1)
        (seen tasks 1 (run_schedule tasks (turns_in_a_row k 1) (starting tasks fresh)))
        fresh
    × ((j : ℕ)
        → 1 ≢ j
        → (run_schedule tasks (turns_in_a_row k 1) (starting tasks fresh)).places j
          ≡ (starting tasks fresh).places j)
in_a_row-AtEnd_example = in_a_row-AtEnd tasks 1 (starting tasks fresh) refl

-- The channels of the small world are the numbers below its own.
abbrev Numbered : ℕ → Timed (Result ℕ ℕ) → Type 0
Numbered w elapsed = Unit {0}
Numbered w (finished (ok c)) = w ≡ c
Numbered w (finished (err e)) = Unit {0}

connect-Numbered : (w : ℕ) → Numbered w (if ltb w 2 then elapsed else finished (ok w))
connect-Numbered w = elim (Bool-cases (ltb w 2)) [ inl b ↦ rw b tt | inr b ↦ rw b refl ]

connect_unix-Numbered : (w : ℕ) → Numbered w (if ltb w 2 then finished (err w) else finished (ok w))
connect_unix-Numbered w = elim (Bool-cases (ltb w 2)) [ inl b ↦ rw b tt | inr b ↦ rw b refl ]

number-Fresh : (w c : ℕ) → w ≡ c → (c < w → ⊥) × (c < w + 1)
number-Fresh w c h = ((λ k. omega arith), omega arith)

abbrev numbers : Registry network
numbers = record {
  Made = λ w c. c < w;
  connect-Fresh = λ host time w c e. number-Fresh w c (subst (Numbered w) e (connect-Numbered w));
  connect-Made = λ host time w c h. omega arith;
  connect_unix-Fresh =
      λ path time w c e. number-Fresh w c (subst (Numbered w) e (connect_unix-Numbered w));
  connect_unix-Made = λ path time w c h. omega arith;
  get_grpc_url-Made = λ name w c h. h;
  resolve_ssh_private_key-Made = λ resolver line w c h. h;
  get_or_create_session-Made = λ credentials w c h. h;
  start_tunnel-Made = λ session path host port w c h. omega arith;
}

abbrev all_careful : (i : ℕ) → Careful network numbers (tasks i)
all_careful zero = λ service input_data time w c h. omega arith
all_careful (suc zero) = λ service w c h. omega arith
all_careful (suc (suc i)) = λ service input_data time w c h. omega arith

no_channel : get_held network fresh ≡ some 2 → 2 < 0
unfolding get_held
no_channel h = absurd (none-ne-some _ h)

-- The ping task makes channel 2 and stores it; the request finds it; the ping times out.
abbrev up_to_the_ping : List ℕ
up_to_the_ping = 1 ∷ 1 ∷ 1 ∷ 1 ∷ 1 ∷ 1 ∷ 1 ∷ 1 ∷ 0 ∷ []

abbrev begun : System tasks
begun = run_schedule tasks up_to_the_ping (starting tasks fresh)

ping_times_out : FailsOn network 2 (tasks 1) (begun.places 1) begun.shared
unfolding run_schedule turn take_step advance advance_ping fetch fetched checked ping_request
    get_pooled get_held routed addressed get_connect_url into_connect_url starts_with try_route
    try_tcp set_channel execute_ping_with_timeout ping_result
ping_times_out = (refl, tt)

dropped-run_schedule_example :
    get_held network
      (run_schedule tasks
        (in_turns 10)
        (turn tasks 1 (run_schedule tasks (0 ∷ []) (turn tasks 1 begun)))).shared
    ≢ some 2
dropped-run_schedule_example =
    dropped-run_schedule network tasks numbers all_careful 2 up_to_the_ping (0 ∷ []) (in_turns 10) 1
      fresh no_channel ping_times_out refl

-- Requests 0 and 2 fail on channel 2. Request 0 lets go of it and makes channel 5; then request 2
-- lets go of the channel that it finds, on which request 0 is about to call.
abbrev up_to_the_late_drop : List ℕ
up_to_the_late_drop = 0 ∷ 0 ∷ 0 ∷ 0 ∷ 0 ∷ 0 ∷ 0 ∷ 2 ∷ 0 ∷ 2 ∷ 0 ∷ 0 ∷ 0 ∷ 0 ∷ 0 ∷ 0 ∷ 0 ∷ []

late_drop :
    let s = run_schedule tasks up_to_the_late_drop (starting tasks fresh) in
    (s.places 0 ≡ calling 1 5)
    × (get_held network s.shared ≡ some 5)
    × (get_held network (turn tasks 2 s).shared ≡ none)
unfolding run_schedule turn take_step advance get_held routed addressed get_connect_url
    into_connect_url starts_with try_route try_tcp set_channel drop_channel needs_drop
late_drop = (refl, refl, refl)

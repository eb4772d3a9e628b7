-- ===== src/Channel/Sharing/Tasks.antt =====
-- The tasks of a process that share one holder: requests with retries of any kind, each with its own
-- types, and ping tasks. Their steps are taken in any order.
use my_grpc_extensions.Prelude.{ℕ, List, [], ◌∷◌, ◌==◌, if◌then◌else◌}
use my_grpc_extensions.Channel.Env.{Env}
use my_grpc_extensions.Channel.State.{State}
use my_grpc_extensions.Channel.GrpcChannel.{Executor}
use my_grpc_extensions.Channel.Pool.{GrpcChannelPool}
use my_grpc_extensions.Channel.Requests.BuilderWithRetries.{RequestBuilderWithRetries}
use my_grpc_extensions.Channel.Sharing.{Caller, getting, advance}
use my_grpc_extensions.Channel.Sharing.Pinger.{Pinger, waiting, advance_ping}

pub data Task (env : Env) (TService : Type 0) : Type 1 where
  request :
      (TRequest TResponse : Type 0)
      → RequestBuilderWithRetries env TService TRequest
      → Executor env TService TRequest TResponse
      → Task env TService
  pinging : GrpcChannelPool env TService → Task env TService

module _ {env : Env} {TService : Type 0} where
  -- where a task stands
  abbrev pub Place : Task env TService → Type 0
  Place (request TRequest TResponse self executor) = Caller env TResponse
  Place (pinging pool) = Pinger env

  abbrev pub first_place : (task : Task env TService) → Place task
  first_place (request TRequest TResponse self executor) = getting 0
  first_place (pinging pool) = waiting

  unfoldable pub take_step :
      (task : Task env TService) → Place task → State env → Place task × State env
  take_step (request TRequest TResponse self executor) place s = advance env self executor place s
  take_step (pinging pool) place s = advance_ping env pool place s

  -- The tasks of a process, by number, and what they share.
  pub record System (tasks : ℕ → Task env TService) : Type 0 where
    pub shared : State env
    pub places : (i : ℕ) → Place (tasks i)

  module _ (tasks : ℕ → Task env TService) where
    -- All tasks at their start, around what they share.
    abbrev pub starting : State env → System tasks
    starting s = record { shared = s; places = λ i. first_place (tasks i) }

    unfoldable pub turn : ℕ → System tasks → System tasks
    unfolding take_step
    turn i s = record {
      shared = (take_step (tasks i) (s.places i) s.shared).1;
      places = λ j. (if i == j then (take_step (tasks j) (s.places j) s.shared).0 else s.places j);
    }

    -- the tasks take their steps in the order of the list
    unfoldable pub run_schedule : List ℕ → System tasks → System tasks
    unfolding turn
    run_schedule [] s = s
    run_schedule (i ∷ schedule) s = run_schedule schedule (turn i s)

-- ===== src/System.antt =====
-- The process as a whole: webhooks, the one worker of cmd/order-sync and the operator's command, which
-- change the same tables in any order. A webhook, a claim and a replay are transactions or single
-- statements. `deliver` writes once at most, after its request, so it is one step too, long after the claim.
pub mod Lifecycle
pub mod Delivery
pub mod Ids
pub mod Held
pub mod Rows
pub mod Refinement
pub mod Exclusion
use order_sync.Base.{ℕ, Option, none, some, ◌≡◌}
use order_sync.Config.{Config}
use order_sync.Contracts.{Result}
use order_sync.Postgres.Schema.{Env, Db}
use order_sync.Admin.{replay_dead_job}
use order_sync.Transaction.Guarantees.{Request, handle}
use order_sync.Worker.Deliver.{Round, World, deliver}
use order_sync.Worker.Job.{Job, claim_due}

-- `holding` is the job that the worker has claimed and not yet delivered.
pub record System : Type 0 where
  pub world : World
  pub holding : Option Job

abbrev pub with_db : Db → System → System
with_db db s = record s { world = record (s.world) { db = db } }

abbrev pub claimed : Result (Option Job) → Option Job
claimed (Result.ok found) = found
claimed (Result.err e) = none

module _ (cfg : Config) where
  pub data Moves : System → System → Type 0 where
    webhook :
        (s : System) (env : Env) (request : Request)
        → Moves s (with_db (handle cfg request env s.world.db) s)
    replays :
        (s : System) (env : Env) (id : ℕ)
        → Moves s (with_db (replay_dead_job id env s.world.db).1 s)
    claims :
        (s : System) (round : Round)
        → s.holding ≡ none
        → Moves s (record {
          world = record (s.world) { db = (claim_due round.locked round.env s.world.db).1 };
          holding = claimed (claim_due round.locked round.env s.world.db).0;
        })
    delivers :
        (s : System) (round : Round) (job : Job)
        → s.holding ≡ some job
        → Moves s (record { world = deliver cfg round job s.world; holding = none })
    -- The process ends, and is started again.
    restarts : (s : System) → Moves s (record s { holding = none })

  pub data Runs : System → System → Type 0 where
    rests : (s : System) → Runs s s
    moves : (s t u : System) → Moves s t → Runs t u → Runs s u

-- ===== src/System/Refinement.antt =====
-- The tables refine the life of a job that docs/domain.md draws.
use order_sync.Base.{ℕ, Bool, true, false, none, some, ◌≡◌, refl, subst, find_row, inl}
use order_sync.Config.{Config}
use order_sync.Contracts.{SyncStatus}
use order_sync.Postgres.Ids.{JobIds}
use order_sync.Postgres.Evolution.{KeepsRows, KeepsRows-refl}
use order_sync.Postgres.Queries.Jobs.{has_job_id}
use order_sync.Postgres.Schema.{JobRow}
use order_sync.Worker.Job.{Job}
use order_sync.System.{System, Moves, Runs}
use order_sync.System.Held.{Held, Moved, Held-Aside, Aside-Moved, webhook-Aside, replay-Aside}
use order_sync.System.Ids.{Moves-Draws}
use order_sync.System.Lifecycle.{Actor, Transition, MayDraw, History, MayDraw-History}
use order_sync.System.Rows.{claim_due-Moved, deliver-Moved}

-- The ids are good, and the job that the worker holds is PROCESSING.
pub record IsConsistent (s : System) : Type 0 where
  pub ids : JobIds s.world.db
  pub held : Held s.holding s.world.db.tables.jobs

module _ (cfg : Config) where
  -- Who takes a step.
  abbrev pub actor_of : {s t : System} → Moves cfg s t → Actor
  actor_of (Moves.webhook _ env request) = Actor.webhook
  actor_of (Moves.replays _ env id) = Actor.operator
  actor_of (Moves.claims _ round h) = Actor.claims
  actor_of (Moves.delivers _ round job h) = Actor.delivers
  actor_of (Moves.restarts _) = Actor.restart

  Moves-rows :
      (s t : System) (move : Moves cfg s t)
      → IsConsistent s
      → KeepsRows has_job_id (Moved (actor_of move)) s.world.db.tables.jobs t.world.db.tables.jobs
        × Held t.holding t.world.db.tables.jobs
  Moves-rows s t (Moves.webhook _ env request) c =
      let aside = webhook-Aside cfg request env s.world.db in
      (Aside-Moved _ _ _ aside, Held-Aside _ s.holding _ _ aside c.held)
  Moves-rows s t (Moves.replays _ env id) c =
      let aside = replay-Aside id env s.world.db in
      (Aside-Moved _ _ _ aside, Held-Aside _ s.holding _ _ aside c.held)
  Moves-rows s t (Moves.claims _ round h) c =
      claim_due-Moved round.locked round.env s.world.db c.ids
  Moves-rows s t (Moves.delivers _ round job h) c = (
    deliver-Moved cfg round job s.world (subst (λ held. Held held s.world.db.tables.jobs) h c.held),
    tt,
  )
  Moves-rows s t (Moves.restarts _) c =
      (KeepsRows-refl has_job_id (Moved Actor.restart) (λ r. inl refl) s.world.db.tables.jobs, tt)

  Moves-IsConsistent : (s t : System) → Moves cfg s t → IsConsistent s → IsConsistent t
  Moves-IsConsistent s t move c = record {
    ids = (Moves-Draws cfg s t move).ids c.ids;
    held = (Moves-rows s t move c).1;
  }

  Runs-History :
      (s t : System)
      → Runs cfg s t
      → IsConsistent s
      → (id : ℕ) (j : JobRow) → find_row (has_job_id id) s.world.db.tables.jobs ≡ some j
      → (j' : JobRow) × (find_row (has_job_id id) t.world.db.tables.jobs ≡ some j')
        × History j.status j'.status
  Runs-History s t (Runs.rests _) c id j found = (j, found, History.done j.status)
  Runs-History s t (Runs.moves _ u _ move run) c id j found =
      let (k, found', step) = (Moves-rows s u move c).0 id j found in
      let (j', found'', path) = Runs-History u t run (Moves-IsConsistent s u move c) id k found' in
      (j', found'', MayDraw-History _ j.status k.status j'.status step path)

  Runs-IsConsistent : (s t : System) → Runs cfg s t → IsConsistent s → IsConsistent t
  Runs-IsConsistent s t (Runs.rests _) c = c
  Runs-IsConsistent s t (Runs.moves _ u _ move run) c =
      Runs-IsConsistent u t run (Moves-IsConsistent s u move c)

-- With one worker that holds no job at first, and job ids that are distinct and below their sequence, take any
-- run of webhooks, claims, deliveries, replays and restarts, with any statements failing and any answers of SAP,
-- and any step after it. A job that was stored at first is stored before that step and after it, and the step
-- leaves its status or follows one arrow of its life, and one of those that are drawn by who takes the step: a
-- webhook cancels, a replay resets, a claim begins an attempt, a delivery ends it, a restart draws none.
pub status_follows_lifecycle :
    (cfg : Config) (s u t : System)
    → JobIds s.world.db
    → s.holding ≡ none
    → Runs cfg s u
    → (move : Moves cfg u t) (id : ℕ) (j : JobRow)
    → find_row (has_job_id id) s.world.db.tables.jobs ≡ some j
    → (k : JobRow) × (find_row (has_job_id id) u.world.db.tables.jobs ≡ some k)
      × (k' : JobRow) × (find_row (has_job_id id) t.world.db.tables.jobs ≡ some k')
      × MayDraw (actor_of cfg move) k.status k'.status
status_follows_lifecycle cfg s u t ids free run move id j found =
    let c : IsConsistent s = record { ids = ids; held = rw free tt } in
    let (k, before, _) = Runs-History cfg s u run c id j found in
    let (k', after, step) =
      (Moves-rows cfg u t move (Runs-IsConsistent cfg s u run c)).0 id k before in
    (k, before, k', after, step)

-- With one worker that holds no job at first, and job ids that are distinct and below their sequence: in
-- every state that the process comes to and where the worker holds a job, the ids are so, and the row of the
-- job is stored, PROCESSING, and counts the attempt under way.
pub held_job_is_processing :
    (cfg : Config) (s t : System)
    → JobIds s.world.db
    → s.holding ≡ none
    → Runs cfg s t
    → (job : Job) → t.holding ≡ some job
    → JobIds t.world.db
      × (j : JobRow) × (find_row (has_job_id job.id) t.world.db.tables.jobs ≡ some j)
      × (j.status ≡ SyncStatus.processing)
      × (j.attempts ≡ job.attempts)
held_job_is_processing cfg s t ids free run job h =
    let c = Runs-IsConsistent cfg s t run (record { ids = ids; held = rw free tt }) in
    let row : Held (some job) t.world.db.tables.jobs =
      subst (λ held. Held held t.world.db.tables.jobs) h c.held in
    let (j, found, status, attempts) = row in (c.ids, j, found, status, attempts)

abbrev pub is_final : SyncStatus → Bool
is_final SyncStatus.synced = true
is_final SyncStatus.cancelled = true
is_final _ = false

-- No arrow leaves SYNCED or CANCELLED.
Transition-open : (actor : Actor) (a c : SyncStatus) → Transition actor a c → is_final a ≡ false
Transition-open actor a c Transition.claim = refl
Transition-open actor a c Transition.recovery_retry = refl
Transition-open actor a c Transition.succeed = refl
Transition-open actor a c Transition.retry = refl
Transition-open actor a c Transition.recover = refl
Transition-open actor a c Transition.give_up = refl
Transition-open actor a c Transition.cancel = refl
Transition-open actor a c Transition.cancel_waiting = refl
Transition-open actor a c Transition.cancel_dead = refl
Transition-open actor a c Transition.replay = refl

History-final : (a b : SyncStatus) → History a b → is_final a ≡ true → b ≡ a
History-final a b (History.done _) h = refl
History-final a b (History.then actor _ c _ arrow rest) h = cc (h, Transition-open actor a c arrow)

-- With one worker that holds no job at first, and job ids that are distinct and below their sequence: a
-- job that is SYNCED or CANCELLED stays so, however webhooks, claims, deliveries, replays and restarts
-- follow one another.
pub final_job_stays :
    (cfg : Config) (s t : System)
    → JobIds s.world.db
    → s.holding ≡ none
    → Runs cfg s t
    → (id : ℕ) (j : JobRow) → find_row (has_job_id id) s.world.db.tables.jobs ≡ some j
    → is_final j.status ≡ true
    → (j' : JobRow) × (find_row (has_job_id id) t.world.db.tables.jobs ≡ some j')
      × (j'.status ≡ j.status)
final_job_stays cfg s t ids free run id j found final =
    let c : IsConsistent s = record { ids = ids; held = rw free tt } in
    let (j', found', path) = Runs-History cfg s t run c id j found in
    (j', found', History-final j.status j'.status path final)

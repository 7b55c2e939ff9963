-- ===== src/System/Ids.antt =====
-- Every step of the process keeps the ids of the jobs distinct and below the sequence.
use order_sync.Base.{
  ℕ, ◌≤◌, Bool, false, Option, none, some, ◌≡◌, refl, sym, subst, ap, ◌⊎◌, inl, inr, arith,
  update_rows, Bool-cases, Option-cases,
}
use order_sync.Config.{Config}
use order_sync.Contracts.{Result}
use order_sync.Postgres.Ids.{
  Draws, Draws-refl, Draws-same, Draws-update, update_rows-KeepsIds, KeepsIds,
}
use order_sync.Postgres.Queries.Jobs.{has_job_id, claim_job, locked_row, lock_job}
use order_sync.Postgres.Schema.{Env, Db}
use order_sync.Postgres.Tx.{pure, throw, ◌>>=◌, wrapping, statement, reads, writes}
use order_sync.Admin.{is_dead_job, replayed_row, replay_update, replay_dead_job}
use order_sync.Transaction.Evolution.{payment_process-Steps, shop_process-Steps}
use order_sync.Transaction.Guarantees.{Request, handle}
use order_sync.Worker.Claims.{is_claim, claim_due_nothing, claim_due_locks}
use order_sync.Worker.Deliver.{Round, World, deliver}
use order_sync.Worker.Job.{Job, claim_due}
use order_sync.System.Delivery.{deliver-Delivers}
use order_sync.System.{System, Moves}

pub handle-Draws :
    (cfg : Config) (request : Request) (env : Env) (s : Db) → Draws s (handle cfg request env s)
unfolding handle
handle-Draws cfg (Request.shop payload) env s = (shop_process-Steps cfg payload).draws env s
handle-Draws cfg (Request.payment payload) env s = (payment_process-Steps cfg payload).draws env s

-- A replay that is not sent writes nothing; one that is sent changes the DEAD rows of its id.
pub replay-rows :
    (id : ℕ) (env : Env) (s : Db)
    → ((replay_dead_job id env s).1.next_job ≡ s.next_job)
      × (((replay_dead_job id env s).1.tables.jobs ≡ s.tables.jobs)
          ⊎ ((replay_dead_job id env s).1.tables.jobs
              ≡ update_rows (is_dead_job id) (replayed_row env.now) s.tables.jobs))
unfolding replay_dead_job replay_update pure throw ◌>>=◌ wrapping statement
replay-rows id env s = elim (Bool-cases (env.fault s.calls)) [
  | inl lost ↦ (ground arith, inl (ground arith))
  | inr sent ↦ (ground arith, inr (ground arith))
]

pub replay-Draws : (id : ℕ) (env : Env) (s : Db) → Draws s (replay_dead_job id env s).1
replay-Draws id env s =
    let (next, rows) = replay-rows id env s in
    let later : s.next_job ≤ (replay_dead_job id env s).1.next_job = omega (arith, next) in
    elim rows [
      | inl same ↦ Draws-same s _ same later
      | inr changed ↦
          Draws-update s _
            (subst (KeepsIds s.tables.jobs) (sym changed) (
              update_rows-KeepsIds (is_dead_job id) (replayed_row env.now) (λ j. refl)
                s.tables.jobs))
            later
    ]

pub deliver-Draws :
    (cfg : Config) (round : Round) (job : Job) (w : World) → Draws w.db (deliver cfg round job w).db
deliver-Draws cfg round job w =
    let d = deliver-Delivers cfg round job w in
    let later : w.db.next_job ≤ (deliver cfg round job w).db.next_job =
      omega (arith, d.same_next) in
    elim d.rows [
      | inl same ↦ Draws-same w.db _ same later
      | inr (change, changed, keeps, _) ↦
          Draws-update w.db _
            (subst (KeepsIds w.db.tables.jobs) (sym changed)
              (update_rows-KeepsIds (has_job_id job.id) change keeps w.db.tables.jobs))
            later
    ]

module _ (locked : ℕ → Bool) (env : Env) (s : Db) where
  claim_due-next : (claim_due locked env s).1.next_job ≡ s.next_job
  unfolding claim_due pure throw ◌>>=◌ wrapping statement reads writes
  claim_due-next = elim (Option-cases (claim_job env.now locked s.tables)) [
    | inl nothing ↦ ground arith
    | inr ((o, j), found) ↦ elim (Option-cases o.paid_at) [
      | inl unpaid ↦ ground arith
      | inr (t, paid) ↦ ground arith
    ]
  ]

  pub claim_due-Draws : Draws s (claim_due locked env s).1
  unfolding lock_job
  claim_due-Draws = by_claim (claim_due locked env s).0 refl
    where
      later : s.next_job ≤ (claim_due locked env s).1.next_job
      later = omega (arith, claim_due-next)

      nothing : is_claim (claim_due locked env s).0 ≡ false → Draws s (claim_due locked env s).1
      nothing h = Draws-same s _ (ap (λ t. t.jobs) (claim_due_nothing locked env s h)) later

      by_claim :
          (r : Result (Option Job))
          → (claim_due locked env s).0 ≡ r
          → Draws s (claim_due locked env s).1
      by_claim (Result.err e) eq = nothing (ap is_claim eq)
      by_claim (Result.ok none) eq = nothing (ap is_claim eq)
      by_claim (Result.ok (some job)) eq =
          let (o, j, found, c) = claim_due_locks locked env s job eq in
          Draws-update s _
            (subst (λ t. KeepsIds s.tables.jobs t.jobs) (sym c.locked_row)
              (update_rows-KeepsIds (has_job_id j.id) (locked_row env.now) (λ k. refl)
                s.tables.jobs))
            later

pub Moves-Draws : (cfg : Config) (s t : System) → Moves cfg s t → Draws s.world.db t.world.db
Moves-Draws cfg s t (Moves.webhook _ env request) = handle-Draws cfg request env s.world.db
Moves-Draws cfg s t (Moves.replays _ env id) = replay-Draws id env s.world.db
Moves-Draws cfg s t (Moves.claims _ round h) = claim_due-Draws round.locked round.env s.world.db
Moves-Draws cfg s t (Moves.delivers _ round job h) = deliver-Draws cfg round job s.world
Moves-Draws cfg s t (Moves.restarts _) = Draws-refl s.world.db

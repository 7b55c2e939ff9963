-- ===== src/System/Lifecycle.antt =====
-- The life of a sync job as docs/domain.md draws it, and what a step of the process may do to a row.
use order_sync.Base.{ap, ◌≡◌, ◌⊎◌, inl, inr, refl, true, false}
use order_sync.Contracts.{SyncStatus}
use order_sync.Postgres.Queries.Jobs.{is_processing}
use order_sync.Postgres.Queries.Orders.{is_cancellable}
use order_sync.Postgres.Evolution.{SameJob}
use order_sync.Postgres.Schema.{JobRow}

-- Who changes a job's status. A restart draws no arrow.
pub data Actor : Type 0 where
  webhook operator claims delivers restart : Actor

-- The arrows, each with the one who draws it. The diagram leaves out that a waiting or dead job can be
-- cancelled, too.
pub data Transition : Actor → SyncStatus → SyncStatus → Type 0 where
  claim : Transition Actor.claims SyncStatus.pending SyncStatus.processing
  recovery_retry : Transition Actor.claims SyncStatus.waiting SyncStatus.processing
  succeed : Transition Actor.delivers SyncStatus.processing SyncStatus.synced
  retry : Transition Actor.delivers SyncStatus.processing SyncStatus.pending
  recover : Transition Actor.delivers SyncStatus.processing SyncStatus.waiting
  give_up : Transition Actor.delivers SyncStatus.processing SyncStatus.dead
  cancel : Transition Actor.webhook SyncStatus.pending SyncStatus.cancelled
  cancel_waiting : Transition Actor.webhook SyncStatus.waiting SyncStatus.cancelled
  cancel_dead : Transition Actor.webhook SyncStatus.dead SyncStatus.cancelled
  replay : Transition Actor.operator SyncStatus.dead SyncStatus.pending

-- At most one arrow, of this actor.
abbrev pub MayDraw : Actor → SyncStatus → SyncStatus → Type 0
MayDraw actor a b = (b ≡ a) ⊎ Transition actor a b

pub data History : SyncStatus → SyncStatus → Type 0 where
  done : (a : SyncStatus) → History a a
  then : (actor : Actor) (a b c : SyncStatus) → Transition actor a b → History b c → History a c

-- What another part may do to a job while the worker holds it: nothing, as it is processing.
abbrev pub Aside : Actor → JobRow → JobRow → Type 0
Aside actor a b = (b ≡ a) ⊎ ((is_processing a.status ≡ false) × Transition actor a.status b.status)

pub MayDraw-History :
    (actor : Actor) (a b c : SyncStatus) → MayDraw actor a b → History b c → History a c
MayDraw-History actor a b c (inl same) p = rw same at p
MayDraw-History actor a b c (inr arrow) p = History.then actor a b c arrow p

cancelled-Transition :
    (a b : SyncStatus)
    → is_cancellable a ≡ true
    → b ≡ SyncStatus.cancelled
    → (is_processing a ≡ false) × Transition Actor.webhook a b
unfolding is_cancellable is_processing
cancelled-Transition SyncStatus.pending b h e = (refl, rw e Transition.cancel)
cancelled-Transition SyncStatus.waiting b h e = (refl, rw e Transition.cancel_waiting)
cancelled-Transition SyncStatus.dead b h e = (refl, rw e Transition.cancel_dead)
cancelled-Transition SyncStatus.processing b h e = cc
cancelled-Transition SyncStatus.synced b h e = cc
cancelled-Transition SyncStatus.cancelled b h e = cc
cancelled-Transition (SyncStatus.other t) b h e = cc

pub SameJob-Aside : (a b : JobRow) → SameJob a b → Aside Actor.webhook a b
SameJob-Aside a b (inl same) = inl same
SameJob-Aside a b (inr (can, e)) = inr (cancelled-Transition a.status b.status can e)

pub Aside-MayDraw :
    (actor : Actor) (a b : JobRow) → Aside actor a b → MayDraw actor a.status b.status
Aside-MayDraw actor a b (inl same) = inl (ap JobRow.status same)
Aside-MayDraw actor a b (inr (_, arrow)) = inr arrow

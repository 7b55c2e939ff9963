-- ===== src/Postgres/Evolution/Tables.antt =====
-- The order on the tables, table by table, and what one statement does to it.
use mathlib.Core.Option
use order_sync.Base.{
  ℕ, String, Bool, true, false, some, List, [], ◌∷◌, ◌++◌, ◌≡◌, refl, ◌∙◌, ap, arith, ◌⊎◌, inl,
  if◌then◌else◌, find_row, update_rows, find_row-insert, find_row-update,
}
use order_sync.Contracts.{EventType, SyncStatus}
use order_sync.Postgres.Schema.{OrderRow, PaymentRow, EventRow, JobRow, Tables}
use order_sync.Postgres.Queries.Orders.{has_key, of_order, is_cancellable}
use order_sync.Postgres.Queries.Jobs.{has_job_id}
use order_sync.Postgres.Queries.Payments.{has_reference, is_open_status}
use order_sync.Postgres.Queries.Events.{is_event}

-- Rows found by a key stay, and `Same` relates the old row to the new one.
module _ {K R : Type 0} (key : K → R → Bool) (Same : R → R → Type 0) where
  abbrev pub KeepsRows : List R → List R → Type 0
  KeepsRows rs rs' =
      (k : K) (r : R)
      → find_row (key k) rs ≡ some r
      → (r' : R) × (find_row (key k) rs' ≡ some r') × Same r r'

  pub KeepsRows-refl : ((r : R) → Same r r) → (rs : List R) → KeepsRows rs rs
  KeepsRows-refl same rs k r found = (r, found, same r)

  pub KeepsRows-trans :
      ((a b c : R) → Same a b → Same b c → Same a c)
      → (rs ss ts : List R) → KeepsRows rs ss
      → KeepsRows ss ts
      → KeepsRows rs ts
  KeepsRows-trans same rs ss ts f g k r found =
      let (r', found', s) = f k r found in
      let (r'', found'', s') = g k r' found' in (r'', found'', same r r' r'' s s')

  -- A row that is appended hides none.
  pub KeepsRows-insert : ((r : R) → Same r r) → (rs : List R) (x : R) → KeepsRows rs (rs ++ x ∷ [])
  KeepsRows-insert same rs x k r found = (r, rw (find_row-insert, found), same r)

  -- An update that keeps the keys and relates each row to what it makes of it.
  pub KeepsRows-update :
      (q : R → Bool) (f : R → R)
      → ((k : K) (r : R) → key k (f r) ≡ key k r)
      → ((r : R) → Same r (if q r then f r else r))
      → (rs : List R) → KeepsRows rs (update_rows q f rs)
  KeepsRows-update q f keeps same rs k r found = (
    (if q r then f r else r),
    find_row-update (key k) q f (keeps k) rs ∙ ap (Option.map (λ r. if q r then f r else r)) found,
    same r,
  )

-- A terminal payment keeps its status and its instant.
abbrev pub SamePayment : PaymentRow → PaymentRow → Type 0
SamePayment a b = is_open_status a.status ≡ false → (b.status ≡ a.status) × (b.paid_at ≡ a.paid_at)

-- An order keeps what the shop sent.
abbrev pub SameOrder : OrderRow → OrderRow → Type 0
SameOrder a b = (b.id ≡ a.id) × (b.order_id ≡ a.order_id) × (b.customer_email ≡ a.customer_email)

abbrev pub SameEvent : EventRow → EventRow → Type 0
SameEvent a b = b.payload ≡ a.payload

-- A job stays as it is, or is cancelled from PENDING, WAITING or DEAD.
abbrev pub SameJob : JobRow → JobRow → Type 0
SameJob a b = (b ≡ a) ⊎ ((is_cancellable a.status ≡ true) × (b.status ≡ SyncStatus.cancelled))

-- A job is found by its id, or by its order's.
pub data JobKey : Type 0 where
  by_id by_order : ℕ → JobKey

abbrev pub job_key : JobKey → JobRow → Bool
job_key (JobKey.by_id id) = has_job_id id
job_key (JobKey.by_order id) = of_order id

abbrev pub event_key : EventType × String → EventRow → Bool
event_key (event_type, id) e = is_event event_type id e

pub record Evolves (t t' : Tables) : Type 0 where
  pub orders : KeepsRows has_key SameOrder t.orders t'.orders
  pub events : KeepsRows event_key SameEvent t.events t'.events
  pub payments : KeepsRows has_reference SamePayment t.payments t'.payments
  pub jobs : KeepsRows job_key SameJob t.jobs t'.jobs
  pub skus : t'.skus ≡ t.skus

SamePayment-trans : (a b c : PaymentRow) → SamePayment a b → SamePayment b c → SamePayment a c
SamePayment-trans a b c f g h = ground arith

SameJob-trans : (a b c : JobRow) → SameJob a b → SameJob b c → SameJob a c
unfolding is_cancellable
SameJob-trans a b c f g = ground arith

pub Evolves-refl : (t : Tables) → Evolves t t
Evolves-refl t = record {
  orders = KeepsRows-refl has_key SameOrder (λ r. (refl, refl, refl)) t.orders;
  events = KeepsRows-refl event_key SameEvent (λ r. refl) t.events;
  payments = KeepsRows-refl has_reference SamePayment (λ r h. (refl, refl)) t.payments;
  jobs = KeepsRows-refl job_key SameJob (λ r. inl refl) t.jobs;
  skus = refl;
}

pub Evolves-trans : (t u v : Tables) → Evolves t u → Evolves u v → Evolves t v
Evolves-trans t u v f g = record {
  orders = KeepsRows-trans has_key SameOrder (λ a b c p q. ground arith) _ _ _ f.orders g.orders;
  events = KeepsRows-trans event_key SameEvent (λ a b c p q. q ∙ p) _ _ _ f.events g.events;
  payments =
      KeepsRows-trans has_reference SamePayment SamePayment-trans _ _ _ f.payments g.payments;
  jobs = KeepsRows-trans job_key SameJob SameJob-trans _ _ _ f.jobs g.jobs;
  skus = g.skus ∙ f.skus;
}

-- ===== src/Reconcile/Paid.antt =====
-- markPaidAndSchedule on a stored order: the items as they are read back, the order's row and its job.
use order_sync.Base.{
  ℕ, suc, String, true, false, ◌&&◌, ◌||◌, none, some, List, [], ◌∷◌, ◌++◌, map, ◌≡◌, refl, ap, ◌∙◌,
  arith, find_row, filter_rows, has_row, update_rows, has_row-none, found_any, update_rows-append,
  update_rows-none, filter_rows-append, filter_rows-none, ◌==◌,
}
use order_sync.Base.Int.{ℤ}
use order_sync.Config.{Config}
use order_sync.Contracts.{Result, Time, OrderState, OrderItem, stored_price}
use order_sync.Orders.{item_skus, any_override, sync_delay, mark_paid_and_schedule}
use order_sync.Postgres.Queries.Orders.{
  has_id, of_order, item_of, find_items, mark_paid, schedule_sync, new_job, due_after,
}
use order_sync.Postgres.Queries.Skus.{has_hardware_sku, among, is_hardware_category}
use order_sync.Postgres.Repositories.Orders.{has_hardware, mark_paid_at, schedule}
use order_sync.Postgres.Schema.{OrderRow, ItemRow, SkuRow, Tables, Db, Env}
use order_sync.Postgres.Tx.{pure, wrapping, statement, reads, writes}
use order_sync.Reconcile.{sent, stored_as, item_rows}
use order_sync.Reconcile.Calls.{Leaves, bind-ok, stored-has_row}

-- The items as the table gives them back.
abbrev pub read_back : List OrderItem → List OrderItem
read_back [] = []
read_back (item ∷ items) = stored_as item (stored_price item.price) ∷ read_back items

id-same : (n : ℕ) → (n == n) ≡ true
id-same n = ground arith

filter_rows-item_rows :
    (id : ℕ) (items : List OrderItem)
    → map (λ (r : ItemRow). r.item) (filter_rows (item_of id) (item_rows id items))
      ≡ read_back items
unfolding filter_rows item_rows
filter_rows-item_rows id [] = refl
filter_rows-item_rows id (item ∷ items) =
    rw (id-same id)
      (ap (λ l. stored_as item (stored_price item.price) ∷ l) (filter_rows-item_rows id items))

pub find_items-item_rows :
    (id : ℕ) (items : List OrderItem) (t : Tables)
    → find_row (item_of id) t.items ≡ none
    → find_items id (record t { items = t.items ++ item_rows id items }) ≡ read_back items
unfolding find_items
find_items-item_rows id items t absent =
    rw
      (
        filter_rows-append (item_of id) t.items (item_rows id items),
        filter_rows-none (item_of id) t.items absent,
      )
      (filter_rows-item_rows id items)

pub item_skus-read_back : (items : List OrderItem) → item_skus (read_back items) ≡ item_skus items
unfolding item_skus
item_skus-read_back [] = refl
item_skus-read_back (item ∷ items) = rw (item_skus-read_back items) refl

pub any_override-read_back :
    (items : List OrderItem) → any_override (read_back items) ≡ any_override items
unfolding any_override
any_override-read_back [] = refl
any_override-read_back (item ∷ items) = rw (any_override-read_back items) refl

-- The row of an order, once it is paid.
abbrev pub paid_row : Time → OrderRow → OrderRow
paid_row at r = record r { payment_status = OrderState.paid; paid_at = some at }

-- The delay that markPaidAndSchedule takes for these items.
abbrev pub delay_of : Config → List OrderItem → Tables → ℤ
delay_of cfg items t = sync_delay cfg (has_hardware_sku (item_skus items) t || any_override items)

has_hardware_sku-none : (t : Tables) → has_hardware_sku [] t ≡ false
unfolding has_hardware_sku has_row find_row among
has_hardware_sku-none t = none_among t.skus
  where
    none_among :
        (skus : List SkuRow)
        → found_any (find_row (λ (r : SkuRow). is_hardware_category r.category && false) skus)
          ≡ false
    none_among [] = refl
    none_among (sku ∷ skus) = ground (arith, none_among skus)

module _ (env : Env) (now : Time) where
  has_hardware-sent :
      (skus : List String) (u : Db)
      → (n : ℕ) × (has_hardware skus (sent env now) u
          ≡ (Result.ok (has_hardware_sku skus u.tables), record u { calls = n }))
  unfolding has_hardware wrapping statement reads pure
  has_hardware-sent [] u = (u.calls, rw (has_hardware_sku-none u.tables) refl)
  has_hardware-sent (sku ∷ skus) u = (suc u.calls, refl)

  mark_paid_at-last :
      (at : Time) (u : Db) (rows : List OrderRow) (r : OrderRow)
      → u.tables.orders ≡ rows ++ r ∷ []
      → find_row (has_id r.id) rows ≡ none
      → mark_paid_at r.id at (sent env now) u ≡ (
        Result.ok tt,
        record u {
          calls = suc u.calls;
          tables = record (u.tables) { orders = rows ++ paid_row at r ∷ [] };
        },
      )
  unfolding mark_paid_at mark_paid wrapping statement writes update_rows
  mark_paid_at-last at u rows r last absent =
      rw
        (
          last,
          update_rows-append (has_id r.id) (paid_row at) rows (r ∷ []),
          update_rows-none (has_id r.id) (paid_row at) rows absent,
          id-same r.id,
        )
        refl

  schedule-new :
      (id : ℕ) (delay : ℤ) (u : Db)
      → find_row (of_order id) u.tables.jobs ≡ none
      → has_row (has_id id) u.tables.orders ≡ true
      → schedule id delay (sent env now) u ≡ (
        Result.ok tt,
        record u {
          calls = suc u.calls;
          next_job = suc u.next_job;
          tables = record (u.tables) {
            jobs = u.tables.jobs ++ new_job u.next_job id (due_after now delay) ∷ [];
          };
        },
      )
  unfolding schedule schedule_sync wrapping statement
  schedule-new id delay u no_job known =
      rw (has_row-none (of_order id) u.tables.jobs no_job, known) refl

  -- An order at the end of the table, that has no job.
  pub mark_paid_and_schedule-new :
      (cfg : Config) (items : List OrderItem) (at : Time) (u : Db) (rows : List OrderRow)
      (r : OrderRow)
      → u.tables.orders ≡ rows ++ r ∷ []
      → find_row (has_id r.id) rows ≡ none
      → find_row (of_order r.id) u.tables.jobs ≡ none
      → Leaves (mark_paid_and_schedule cfg r.id items at) (sent env now) u (record u {
        next_job = suc u.next_job;
        tables = record (u.tables) {
          orders = rows ++ paid_row at r ∷ [];
          jobs =
              u.tables.jobs
              ++ new_job u.next_job r.id (due_after now (delay_of cfg items u.tables)) ∷ [];
        };
      })
  unfolding mark_paid_and_schedule
  mark_paid_and_schedule-new cfg items at u rows r last absent no_job =
      let classified = has_hardware-sent (item_skus items) u in
      (
        tt,
        suc (suc classified.0),
        bind-ok _ _ (sent env now) u classified.1
            ∙ bind-ok _ _ (sent env now) _ (mark_paid_at-last at _ rows r last absent)
            ∙ schedule-new r.id _ _ no_job (stored-has_row rows (paid_row at r)),
      )

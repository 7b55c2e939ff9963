-- ===== src/Admin.antt =====
-- cmd/order-sync-admin/main.go: the operator's command. A process ends with an exit code and a line of
-- output; the texts of driver errors are left out.
pub mod Rows
pub mod Replay
pub mod Seeding
pub mod Migrate
pub mod Arguments
use order_sync.Base.{
  ℕ, ◌+◌, String, Bool, true, false, not, ◌&&◌, ◌||◌, Option, none, some, List, [], ◌∷◌, ◌++◌, ◌==◌,
  text_eq, is_empty, has_row, update_rows, if◌then◌else◌,
}
use order_sync.Base.Int.{ℤ, pos}
use order_sync.Contracts.{Error, Result, Time, SyncStatus}
use order_sync.Postgres.Queries.Jobs.{has_job_id}
use order_sync.Postgres.Queries.Skus.{among}
use order_sync.Postgres.Schema.{JobRow, SkuRow, Tables, Env, Db}
use order_sync.Worker.Deliver.{is_dead}
use order_sync.Postgres.Tx.{Tx, pure, throw, ◌>>=◌, ◌>>◌, wrapping, statement, reads}

-- replayJobID, for strconv.ParseInt(_, 10, 64).
abbrev pub positive_id : Option ℤ → Result ℕ
positive_id (some (pos n)) =
    if n == 0 then Result.err (Error.message "job-id must be a positive integer") else Result.ok n
positive_id _ = Result.err (Error.message "job-id must be a positive integer")

unfoldable pub replay_job_id : (String → Option ℤ) → List String → Result ℕ
replay_job_id parse_int (program ∷ command ∷ job_id ∷ []) = positive_id (parse_int job_id)
replay_job_id parse_int _ = Result.err (Error.message "usage: order-sync-admin replay <job-id>")

-- The WHERE of the UPDATE in replayDeadJob, and its SET list.
abbrev pub is_dead_job : ℕ → JobRow → Bool
is_dead_job id j = has_job_id id j && is_dead j.status

abbrev pub replayed_row : Time → JobRow → JobRow
replayed_row now j = record j {
  status = SyncStatus.pending;
  due_at = now;
  attempts = 0;
  locked_at = none;
  waiting_since = none;
  last_error = none;
  sap_internal_id = none;
  synced_at = none;
}

unfoldable pub count_rows : {R : Type 0} → (R → Bool) → List R → ℕ
count_rows p [] = 0
count_rows p (r ∷ rs) = (if p r then 1 else 0) + count_rows p rs

-- The UPDATE, with the number of rows that it affects.
unfoldable pub replay_update : ℕ → Tx ℕ
replay_update id env s = (
  Result.ok (count_rows (is_dead_job id) s.tables.jobs),
  record s {
    tables = record (s.tables) {
      jobs = update_rows (is_dead_job id) (replayed_row env.now) s.tables.jobs;
    };
  },
)

abbrev pub one_row : ℕ → Tx (Unit {0})
one_row affected =
    if affected == 1
    then pure tt
    else throw (Error.message "sync job %d does not exist or is not DEAD")

-- replayDeadJob.
unfoldable pub replay_dead_job : ℕ → Tx (Unit {0})
unfolding replay_update
replay_dead_job id = do
  affected ← wrapping "replay DEAD sync job %d" (statement (replay_update id))
  one_row affected

abbrev pub required_tables : List String
required_tables =
    "orders" ∷ "order_items" ∷ "sku_classifications" ∷ "webhook_events" ∷ "payments" ∷ "sync_jobs"
    ∷ []

abbrev pub seeded_skus : List String
seeded_skus = "NUKI-SL3" ∷ "NUKI-BRIDGE" ∷ "NUKI-SMART-HOSTING" ∷ []

-- The answer of `SELECT to_regclass($1)` for a table: an error, or whether the table is there.
abbrev pub check_table : Result Bool → Tx (Unit {0}) → Tx (Unit {0})
check_table (Result.err e) rest = throw (Error.message "check table")
check_table (Result.ok false) rest = throw (Error.message "required table is missing")
check_table (Result.ok true) rest = rest

abbrev check_tables : (String → Result Bool) → List String → Tx (Unit {0}) → Tx (Unit {0})
check_tables to_regclass [] rest = rest
check_tables to_regclass (table ∷ tables) rest =
    check_table (to_regclass table) (check_tables to_regclass tables rest)

-- verifySchema.
unfoldable pub verify_schema : (String → Result Bool) → Tx (Unit {0})
unfolding count_rows
verify_schema to_regclass = check_tables to_regclass required_tables (do
  seeded ←
      wrapping "check seeded SKU classifications"
        (statement (reads (λ env t. count_rows (λ (r : SkuRow). among seeded_skus r.sku) t.skus)))
  if seeded == 3 then pure tt else throw (Error.message "expected 3 seeded SKU classifications"))

pub data Command : Type 0 where
  migrate verify : Command
  replay : ℕ → Command

pub record Exit : Type 0 where
  pub code : ℕ
  pub text : String

abbrev pub exit : ℕ → String → Exit
exit code text = record { code = code; text = text }

pub data Parsed : Type 0 where
  command : Command → Parsed
  usage : Exit → Parsed

abbrev pub replay_command : Result ℕ → Parsed
replay_command (Result.ok id) = Parsed.command (Command.replay id)
replay_command (Result.err e) = Parsed.usage (exit 2 "replay needs a job id")

abbrev pub named_command : (String → Option ℤ) → List String → String → Parsed
named_command parse_int args name =
    if text_eq name "migrate"
    then Parsed.command Command.migrate
    else (if text_eq name "verify"
        then Parsed.command Command.verify
        else (if text_eq name "replay"
            then replay_command (replay_job_id parse_int args)
            else Parsed.usage (exit 2 "usage: order-sync-admin [migrate|verify|replay <job-id>]")))

-- The head of `main`: the command, `verify` if there is none.
unfoldable pub parse_command : (String → Option ℤ) → List String → Parsed
unfolding replay_job_id
parse_command parse_int (program ∷ name ∷ rest) =
    named_command parse_int (program ∷ name ∷ rest) name
parse_command parse_int args = named_command parse_int args "verify"

-- What `main` finds outside: DATABASE_URL, whether the pool is made and answers a ping, what the
-- migrator does, and the tables that are there.
pub record Machine : Type 0 where
  pub database_url : String
  pub pool_created : Bool
  pub pings : Bool
  pub migrate : Tx (Unit {0})
  pub to_regclass : String → Result Bool

-- `fatal`, or the last line that is printed.
abbrev pub report : String → Result (Unit {0}) × Db → Exit × Db
report text (Result.ok _, s) = (exit 0 text, s)
report text (Result.err e, s) = (exit 1 "fatal", s)

abbrev pub perform : Machine → Command → Env → Db → Exit × Db
perform m Command.migrate env s =
    report "database schema verified" ((m.migrate >> verify_schema m.to_regclass) env s)
perform m Command.verify env s =
    report "database schema verified" (verify_schema m.to_regclass env s)
perform m (Command.replay id) env s =
    report "DEAD sync job %d reset to PENDING" (replay_dead_job id env s)

abbrev pub perform_parsed : Machine → Parsed → Env → Db → Exit × Db
perform_parsed m (Parsed.usage e) env s = (e, s)
perform_parsed m (Parsed.command c) env s =
    if is_empty m.database_url
    then (exit 1 "DATABASE_URL is required", s)
    else (if m.pool_created
        then (if m.pings then perform m c env s else (exit 1 "database is unavailable", s))
        else (exit 1 "error create database pool", s))

-- main.
unfoldable pub main : (String → Option ℤ) → Machine → List String → Env → Db → Exit × Db
unfolding parse_command verify_schema replay_dead_job
main parse_int m args = perform_parsed m (parse_command parse_int args)

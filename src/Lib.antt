-- ===== src/Lib.antt =====
-- order-sync: webhooks from a shop and from a payment provider are stored in PostgreSQL; an order
-- that is stored and paid gets a job, and a worker sends the jobs to SAP.
--
-- The parts, and the files that model them:
--   * Contracts: internal/contracts/contracts.go, the statuses, items, results and errors. A Go string
--     type with named constants is a data type with one more constructor for any other text. A price
--     is the shortest decimal of its float64.
--   * Config: internal/config/config.go, with `Load` in Config.Load.
--   * Postgres.Schema and Postgres.Queries: the tables of migrations/001_initial.sql as lists of rows,
--     and each statement of internal/infrastructure/postgres/queries as a function on them, with its
--     WHERE, ON CONFLICT, CHECK, UNIQUE and REFERENCES.
--   * Postgres.Tx: a call that reads and writes the database and may fail. Its environment gives NOW(),
--     and says for each statement, by its number, whether it fails.
--   * Postgres.Repositories: internal/infrastructure/postgres/repositories; Postgres.Repositories.Watch is the
--     goroutine behind Watch, with its two channels.
--   * Payment and Shop: internal/payment and internal/shop, `Process` on every branch. Both call Orders,
--     which is internal/orders/service.go, to mark an order paid and to schedule its job.
--   * Transaction: internal/db/transaction.go (BEGIN, rollback and COMMIT), with the two services on it.
--   * Worker: internal/sync. Worker.Retry is the retry policy, Worker.Job the calls on the job's row,
--     Worker.Deliver the functions `deliver` and `drainDue`, Worker.Loop the functions `loop` and `armTimer`
--     with the turns of the `select`, Worker.Control the methods `Start` and `Stop`.
--   * Sap: internal/infrastructure/sap/http_client.go. Sap.Response is what the client makes of an answer,
--     Sap.Inflight the table of the calls in flight, Sap.Interleaving any number of callers of it,
--     who own, join, wait or give up, and Sap.Callers and Sap.Waiters what holds of them.
--   * App: internal/app/router.go. App.Router has the handlers, from the secret to the code of the reply, and
--     App.Replies what a sender may conclude from the code. App.Routes has the routes of `NewRouter` and the
--     identifiers of `requestIDMiddleware`, App.Answers and App.RequestIds what holds of every request.
--     App.Lifecycle is internal/app/lifecycle.go.
--   * Postgres.Migration: internal/db/migrate.go and what migrations/001_initial.sql does to stored rows.
--   * Admin: cmd/order-sync-admin/main.go, the command that migrates, verifies and replays a DEAD job.
--   * Postgres.Evolution, Transaction.Evolution and Transaction.Guarantees: an order on the tables in
--     which every statement of a webhook moves forward, and what follows for sequences of webhooks.
--   * Transaction.Padding: white space in a payment webhook, which its normal form drops.
--   * Transaction.Redelivery: a webhook that is delivered again; Transaction.Replay and Postgres.Silent are the
--     branches of the two services that it takes, in which no statement writes.
--   * Reconcile: a shop order and its completed payment, whose webhooks arrive in either order.
--   * System: webhooks, the worker, replays and restarts as steps of one process on the same tables, with
--     docs/domain.md's life of a sync job as the specification. Postgres.Ids has the primary key of the jobs.
--   * Base: the shared names, the Boolean tests, rows, texts and integers.
--   * Tests: runs on concrete data.
--
-- How the parts interact: the shop's and the payment's transactions meet in the tables payments, orders
-- and sync_jobs, whichever comes first; the worker meets them in sync_jobs. Each statement is one step.
-- A history of webhooks is a list of transactions, each with its own instant and failures; a run of the whole
-- process is a sequence of steps of System, with one worker, as cmd/order-sync starts one.
--
-- Bounds and fuel: time is a natural number of nanoseconds since Go's zero time. `drainDue` loops while
-- there is a job to claim; its model takes a list with what each turn meets (clock, other locks, SAP's
-- answer, jitter), and stops at the first claim that gives no job or where the list ends. The `for` of the
-- worker's loop, which runs until it is stopped, is followed for any list of turns. The loop of
-- RetryDelayMS runs at most `attempt - 1` turns and is recursion on that number. A jitter and a
-- Retry-After are 64-bit integers in Go; where the code multiplies them the wrap-around is written out.
--
-- What is taken from outside: the environment, url.ParseRequestURI, strconv.Atoi and ParseInt,
-- http.ParseTime, mime.ParseMediaType, gin's choice of a route, strconv.FormatInt and FormatUint, mail.ParseAddress, encoding/json, time.Parse, the character table
-- of strings.ToUpper, rand.Int63n, SAP's answers, what Shutdown of the HTTP server does and the database's
-- failures are parameters. A statement that gives an error is taken to have written nothing. For COMMIT this is an
-- assumption: a commit that the server carried out while its reply was lost is not modelled.
--
-- Not modelled: contexts and their timeouts, logging, panics of a handler, wiring, the pool, and the rounding of
-- timestamps to microseconds. Sequence values that a rolled-back transaction drew stay drawn, as in PostgreSQL.
pub mod Base
pub mod Contracts
pub mod Config
pub mod Postgres
pub mod Orders
pub mod Payment
pub mod Shop
pub mod Transaction
pub mod Reconcile
pub mod Worker
pub mod Sap
pub mod App
pub mod Admin
pub mod System
mod Tests

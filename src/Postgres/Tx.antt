-- ===== src/Postgres/Tx.antt =====
-- A call that may read and write the database and may fail. The database comes back after an error
-- too: what was written before it stays until the transaction is rolled back.
use order_sync.Base.{suc, String, if◌then◌else◌}
use order_sync.Contracts.{Error, Result}
use order_sync.Postgres.Schema.{Db, Env, Tables}

abbrev pub Tx : Type 0 → Type 0
Tx A = Env → Db → Result A × Db

unfoldable pub pure : {A : Type 0} → A → Tx A
pure a env s = (Result.ok a, s)

unfoldable pub throw : {A : Type 0} → Error → Tx A
throw e env s = (Result.err e, s)

-- The continuation of a call, by the result that it gave.
abbrev pub continue_with : {A B : Type 0} → Result A → (A → Tx B) → Tx B
continue_with (Result.ok a) f = f a
continue_with (Result.err e) f = throw e

infixl 5 ◌>>=◌ ◌>>◌
unfoldable pub ◌>>=◌ : {A B : Type 0} → Tx A → (A → Tx B) → Tx B
◌>>=◌ m f env s = let (r, s') = m env s in continue_with r f env s'

abbrev pub ◌>>◌ : {A B : Type 0} → Tx A → Tx B → Tx B
m >> k = m >>= λ _. k

abbrev pub wrap_result : {A : Type 0} → String → Result A → Result A
wrap_result format (Result.ok a) = Result.ok a
wrap_result format (Result.err e) = Result.err (Error.wrap format e)

-- `if err != nil { return ..., fmt.Errorf(format, ..., err) }`
unfoldable pub wrapping : {A : Type 0} → String → Tx A → Tx A
wrapping format m env s = let (r, s') = m env s in (wrap_result format r, s')

-- One statement sent to the database: it may fail, and then it changes nothing.
unfoldable pub statement : {A : Type 0} → Tx A → Tx A
statement query env s =
    let sent = record s { calls = suc s.calls } in
    if env.fault s.calls then (Result.err Error.database, sent) else query env sent

-- A statement that only reads.
unfoldable pub reads : {A : Type 0} → (Env → Tables → A) → Tx A
reads f env s = (Result.ok (f env s.tables), s)

-- A statement that writes and returns nothing.
unfoldable pub writes : (Env → Tables → Tables) → Tx (Unit {0})
writes f env s = (Result.ok tt, record s { tables = f env s.tables })

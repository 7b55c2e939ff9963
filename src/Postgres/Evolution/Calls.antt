-- ===== src/Postgres/Evolution/Calls.antt =====
-- Calls that take the tables forward in the order, and the rules for how they are composed.
use order_sync.Base.{
  suc, String, Bool, true, false, refl, arith, if◌then◌else◌, Bool-cases, inl, inr,
}
use order_sync.Contracts.{Error, Result}
use order_sync.Postgres.Schema.{Tables, Db, Env}
use order_sync.Postgres.Tx.{
  Tx, pure, throw, continue_with, ◌>>=◌, wrapping, statement, reads, writes,
}
use order_sync.Postgres.Ids.{KeepsIds, Draws, Draws-refl, Draws-trans, Draws-same, Draws-update}
use order_sync.Postgres.Evolution.Tables.{Evolves, Evolves-refl, Evolves-trans}

pub record Steps {A : Type 0} (m : Tx A) : Type 0 where
  pub apply : (env : Env) (s : Db) → Evolves s.tables (m env s).1.tables
  pub draws : (env : Env) (s : Db) → Draws s (m env s).1

-- What an UPDATE does to the tables.
pub record Writes (t t' : Tables) : Type 0 where
  pub evolves : Evolves t t'
  pub ids : KeepsIds t.jobs t'.jobs

pub Steps-pure : {A : Type 0} (a : A) → Steps (pure a)
unfolding pure
Steps-pure a = record { apply = λ env s. Evolves-refl s.tables; draws = λ env s. Draws-refl s }

pub Steps-throw : {A : Type 0} (e : Error) → Steps (throw {A = A} e)
unfolding throw
Steps-throw e = record { apply = λ env s. Evolves-refl s.tables; draws = λ env s. Draws-refl s }

continue_with-Evolves :
    {A B : Type 0} (f : A → Tx B)
    → ((a : A) → Steps (f a))
    → (r : Result A) (env : Env) (s : Db) → Evolves s.tables (continue_with r f env s).1.tables
unfolding throw
continue_with-Evolves f h (Result.ok a) env s = (h a).apply env s
continue_with-Evolves f h (Result.err e) env s = Evolves-refl s.tables

continue_with-Draws :
    {A B : Type 0} (f : A → Tx B)
    → ((a : A) → Steps (f a))
    → (r : Result A) (env : Env) (s : Db) → Draws s (continue_with r f env s).1
unfolding throw
continue_with-Draws f h (Result.ok a) env s = (h a).draws env s
continue_with-Draws f h (Result.err e) env s = Draws-refl s

pub Steps-bind :
    {A B : Type 0} (m : Tx A) (f : A → Tx B) → Steps m → ((a : A) → Steps (f a)) → Steps (m >>= f)
unfolding ◌>>=◌
Steps-bind m f h k = record {
  apply = λ env s.
      let (r, s') = m env s in
      Evolves-trans s.tables s'.tables _ (h.apply env s) (continue_with-Evolves f k r env s');
  draws = λ env s.
      let (r, s') = m env s in
      Draws-trans s s' _ (h.draws env s) (continue_with-Draws f k r env s');
}

pub Steps-wrapping : {A : Type 0} (format : String) (m : Tx A) → Steps m → Steps (wrapping format m)
unfolding wrapping
Steps-wrapping format m h = record {
  apply = λ env s. h.apply env s;
  draws = λ env s. h.draws env s;
}

pub Steps-statement : {A : Type 0} (m : Tx A) → Steps m → Steps (statement m)
unfolding statement
Steps-statement m h = record {
  apply = λ env s. elim (Bool-cases (env.fault s.calls)) [
    | inl lost ↦ rw lost (Evolves-refl s.tables)
    | inr sent ↦ rw sent (h.apply env (record s { calls = _ }))
  ];
  draws = λ env s.
      let called = record s { calls = suc s.calls } in
      elim (Bool-cases (env.fault s.calls)) [
        | inl lost ↦ rw lost (Draws-same s called refl (omega arith))
        | inr sent ↦
            rw sent
              (Draws-trans s called _ (Draws-same s called refl (omega arith)) (h.draws env called))
      ];
}

pub Steps-reads : {A : Type 0} (f : Env → Tables → A) → Steps (reads f)
unfolding reads
Steps-reads f = record { apply = λ env s. Evolves-refl s.tables; draws = λ env s. Draws-refl s }

pub Steps-writes :
    (f : Env → Tables → Tables) → ((env : Env) (t : Tables) → Writes t (f env t)) → Steps (writes f)
unfolding writes
Steps-writes f h = record {
  apply = λ env s. (h env s.tables).evolves;
  draws = λ env s. Draws-update s _ (h env s.tables).ids (omega arith);
}

pub Steps-if : {A : Type 0} (b : Bool) (m k : Tx A) → Steps m → Steps k → Steps (if b then m else k)
Steps-if true m k h l = h
Steps-if false m k h l = l

-- A call that is chosen by what it takes from outside.
pub Steps-env :
    {A : Type 0} (f : Env → Tx A) → ((env : Env) → Steps (f env)) → Steps (λ env. f env env)
Steps-env f h = record {
  apply = λ env s. (h env).apply env s;
  draws = λ env s. (h env).draws env s;
}

pub ruleset steps_rules =
    (Steps-pure, Steps-throw, Steps-bind, Steps-wrapping, Steps-statement, Steps-reads, Steps-if)

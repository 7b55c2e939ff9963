-- ===== src/Postgres/Silent.antt =====
-- Calls that write nothing, and what they return where they succeed.
use order_sync.Base.{
  String, Bool, true, false, ◌≡◌, refl, ◌∙◌, subst, if◌then◌else◌, Bool-cases, inl, inr,
}
use order_sync.Contracts.{Error, Result}
use order_sync.Postgres.Schema.{Tables, Db, Env}
use order_sync.Postgres.Tx.{
  Tx, pure, throw, continue_with, ◌>>=◌, wrap_result, wrapping, statement, reads,
}

-- The call writes nothing, and a value that it returns has the property.
pub record IsSilent {A : Type 0} (P : A → Type 0) (m : Tx A) : Type 0 where
  pub keeps : (env : Env) (s : Db) → (m env s).1.tables ≡ s.tables
  pub gives : (env : Env) (s : Db) (a : A) → (m env s).0 ≡ Result.ok a → P a

abbrev pub Any : {A : Type 0} → A → Type 0
Any a = Unit {0}

pub pure-IsSilent : {A : Type 0} (P : A → Type 0) (a : A) → P a → IsSilent P (pure a)
unfolding pure
pure-IsSilent P a h = record { keeps = λ env s. refl; gives = λ env s b e. subst P (cc) h }

pub throw-IsSilent : {A : Type 0} (P : A → Type 0) (e : Error) → IsSilent P (throw e)
unfolding throw
throw-IsSilent P e = record { keeps = λ env s. refl; gives = λ env s b h. cc }

pub reads-IsSilent :
    {A : Type 0} (format : String) (f : Env → Tables → A)
    → IsSilent Any (wrapping format (statement (reads f)))
unfolding wrapping statement reads
reads-IsSilent format f = record {
  keeps = λ env s. elim (Bool-cases (env.fault s.calls)) [
    | inl lost ↦ rw lost refl
    | inr sent ↦ rw sent refl
  ];
  gives = λ env s a h. tt;
}

wrap_result-ok :
    {A : Type 0} (format : String) (r : Result A) (a : A)
    → wrap_result format r ≡ Result.ok a
    → r ≡ Result.ok a
wrap_result-ok format (Result.ok b) a h = h
wrap_result-ok format (Result.err e) a h = cc

pub wrapping-IsSilent :
    {A : Type 0} (P : A → Type 0) (format : String) (m : Tx A)
    → IsSilent P m
    → IsSilent P (wrapping format m)
unfolding wrapping
wrapping-IsSilent P format m h = record {
  keeps = h.keeps;
  gives = λ env s a e. h.gives env s a (wrap_result-ok format (m env s).0 a e);
}

module _ {A B : Type 0} (P : B → Type 0) (f : A → Tx B) (k : (a : A) → IsSilent P (f a)) where
  continue_with-keeps :
      (r : Result A) (env : Env) (s : Db) → (continue_with r f env s).1.tables ≡ s.tables
  unfolding throw
  continue_with-keeps (Result.ok a) env s = (k a).keeps env s
  continue_with-keeps (Result.err e) env s = refl

  continue_with-gives :
      (r : Result A) (env : Env) (s : Db) (b : B) → (continue_with r f env s).0 ≡ Result.ok b → P b
  unfolding throw
  continue_with-gives (Result.ok a) env s b h = (k a).gives env s b h
  continue_with-gives (Result.err e) env s b h = cc

  pub bind-IsSilent : (m : Tx A) → IsSilent Any m → IsSilent P (m >>= f)
  unfolding ◌>>=◌
  bind-IsSilent m h = record {
    keeps = λ env s. let (r, s') = m env s in continue_with-keeps r env s' ∙ h.keeps env s;
    gives = λ env s b e. let (r, s') = m env s in continue_with-gives r env s' b e;
  }

pub if-IsSilent :
    {A : Type 0} (P : A → Type 0) (b : Bool) (m k : Tx A)
    → IsSilent P m
    → IsSilent P k
    → IsSilent P (if b then m else k)
if-IsSilent P true m k h l = h
if-IsSilent P false m k h l = l

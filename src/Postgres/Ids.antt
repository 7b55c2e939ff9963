-- ===== src/Postgres/Ids.antt =====
-- The ids of the jobs, drawn from the sequence of sync_jobs: they stay distinct.
use mathlib.Core.Option
use mathlib.Core.List.{Memᴰ}
use order_sync.Base.{
  ℕ, suc, ◌≤◌, Bool, none, some, List, [], ◌∷◌, ◌++◌, ◌≡◌, refl, ap, sym, subst, ◌∙◌, arith,
  find_row, update_rows, find_row-update, find_row-insert, Bool-cases, inl, inr, ◌==◌,
  if◌then◌else◌,
}
use order_sync.Postgres.Schema.{JobRow, Db}
use order_sync.Postgres.Queries.Jobs.{has_job_id}

-- `id` is the primary key.
abbrev pub Distinct : List JobRow → Type 0
Distinct [] = Unit {0}
Distinct (j ∷ jobs) = (find_row (has_job_id j.id) jobs ≡ none) × Distinct jobs

-- A row is the one that its id finds.
pub mem-found :
    (j : JobRow) (jobs : List JobRow)
    → Distinct jobs
    → Memᴰ j jobs
    → find_row (has_job_id j.id) jobs ≡ some j
unfolding find_row
mem-found j [] d m = elim m [ ]
mem-found j (k ∷ jobs) d (Memᴰ.head e) = ground (arith, e, ap JobRow.id e)
mem-found j (k ∷ jobs) (fresh, d) (Memᴰ.tail m) =
    let found = mem-found j jobs d m in
    elim (Bool-cases (k.id == j.id)) [
      | inl same ↦
          let equal : k.id ≡ j.id = ground arith in
          absurd
            (ground (arith, found, subst (λ i. find_row (has_job_id i) jobs ≡ none) equal fresh))
      | inr other ↦ ground (arith, found)
    ]

-- The stored ids are distinct, and below the next one that the sequence gives.
pub record JobIds (s : Db) : Type 0 where
  pub distinct : Distinct s.tables.jobs
  pub fresh : (id : ℕ) → s.next_job ≤ id → find_row (has_job_id id) s.tables.jobs ≡ none

-- What an UPDATE does to the ids.
pub record KeepsIds (jobs jobs' : List JobRow) : Type 0 where
  pub distinct : Distinct jobs → Distinct jobs'
  pub missing :
      (id : ℕ) → find_row (has_job_id id) jobs ≡ none → find_row (has_job_id id) jobs' ≡ none

-- What a call does to the ids.
pub record Draws (s s' : Db) : Type 0 where
  pub later : s.next_job ≤ s'.next_job
  pub ids : JobIds s → JobIds s'

pub KeepsIds-refl : (jobs : List JobRow) → KeepsIds jobs jobs
KeepsIds-refl jobs = record { distinct = λ d. d; missing = λ id h. h }

pub Draws-refl : (s : Db) → Draws s s
Draws-refl s = record { later = omega arith; ids = λ h. h }

pub Draws-trans : (s t u : Db) → Draws s t → Draws t u → Draws s u
Draws-trans s t u f g = record {
  later = omega (arith, f.later, g.later);
  ids = λ h. g.ids (f.ids h);
}

pub Draws-update :
    (s s' : Db) → KeepsIds s.tables.jobs s'.tables.jobs → s.next_job ≤ s'.next_job → Draws s s'
Draws-update s s' k later = record {
  later = later;
  ids = λ h. record {
    distinct = k.distinct h.distinct;
    fresh = λ id above. k.missing id (h.fresh id (omega (arith, later, above)));
  };
}

-- A call that writes no job.
pub Draws-same :
    (s s' : Db) → s'.tables.jobs ≡ s.tables.jobs → s.next_job ≤ s'.next_job → Draws s s'
Draws-same s s' same later =
    Draws-update s s' (subst (KeepsIds s.tables.jobs) (sym same) (KeepsIds-refl s.tables.jobs))
      later

-- An update that keeps the ids.
module _ (q : JobRow → Bool) (f : JobRow → JobRow) (keeps : (j : JobRow) → (f j).id ≡ j.id) where
  update_rows-missing :
      (id : ℕ) (jobs : List JobRow)
      → find_row (has_job_id id) jobs ≡ none
      → find_row (has_job_id id) (update_rows q f jobs) ≡ none
  update_rows-missing id jobs h =
      find_row-update (has_job_id id) q f (λ j. ground (arith, keeps j)) jobs ∙ ap (Option.map _) h

  pub update_rows-Distinct : (jobs : List JobRow) → Distinct jobs → Distinct (update_rows q f jobs)
  unfolding update_rows
  update_rows-Distinct [] h = h
  update_rows-Distinct (j ∷ jobs) (fresh, rest) =
      (rw (same_id j) (update_rows-missing j.id jobs fresh), update_rows-Distinct jobs rest)
    where
      same_id : (j : JobRow) → (if q j then f j else j).id ≡ j.id
      same_id j = ground (arith, keeps j)

  pub update_rows-KeepsIds : (jobs : List JobRow) → KeepsIds jobs (update_rows q f jobs)
  update_rows-KeepsIds jobs = record {
    distinct = update_rows-Distinct jobs;
    missing = λ id h. update_rows-missing id jobs h;
  }

append-Distinct :
    (jobs : List JobRow) (x : JobRow)
    → Distinct jobs
    → find_row (has_job_id x.id) jobs ≡ none
    → Distinct (jobs ++ x ∷ [])
unfolding find_row
append-Distinct [] x d h = (refl, tt)
append-Distinct (j ∷ jobs) x (fresh, d) h = (
  ground (arith, find_row-insert (has_job_id j.id) jobs x, fresh, h),
  append-Distinct jobs x d (ground (arith, h)),
)

-- A row with the id that the sequence gives.
pub Draws-insert :
    (s s' : Db) (x : JobRow)
    → x.id ≡ s.next_job
    → s'.tables.jobs ≡ s.tables.jobs ++ x ∷ []
    → s'.next_job ≡ suc s.next_job
    → Draws s s'
unfolding find_row
Draws-insert s s' x drawn rows next = record {
  later = omega (arith, next);
  ids = λ h. record {
    distinct =
        subst Distinct (sym rows)
          (append-Distinct s.tables.jobs x h.distinct (h.fresh x.id (omega (arith, drawn))));
    fresh = λ id above.
        let old = h.fresh id (omega (arith, next, above)) in
        ap (find_row (has_job_id id)) rows
        ∙ find_row-insert (has_job_id id) s.tables.jobs x
        ∙ ground (arith, old, drawn, next, above);
  };
}

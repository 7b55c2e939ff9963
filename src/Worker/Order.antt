-- ===== src/Worker/Order.antt =====
-- Which row ClaimJob takes: one that may be claimed, and among those one with the least key.
use mathlib.Core.List.{Memᴰ}
use order_sync.Base.{
  ℕ, ◌≤◌, Bool, true, false, Option, none, some, List, [], ◌∷◌, ◌≡◌, refl, sym, subst, inl, inr,
  arith, find_row, Bool-cases, ltb,
}
use order_sync.Contracts.{Time}
use order_sync.Postgres.Schema.{OrderRow, JobRow, Tables}
use order_sync.Postgres.Queries.Orders.{has_id}
use order_sync.Postgres.Queries.Jobs.{
  Candidate, claim_job, claim_from, claim_key, is_claimable, earlier, consider_found,
}

module _ (now : Time) (locked : ℕ → Bool) (orders : List OrderRow) where
  -- The job's row is free, its order is there, and the WHERE of the statement holds.
  abbrev pub CanClaim : OrderRow → JobRow → Type 0
  CanClaim o j =
      (locked j.id ≡ false)
      × (find_row (has_id j.order_id) orders ≡ some o)
      × (is_claimable now o j ≡ true)

  abbrev pub IsFirst : List JobRow → Option Candidate → Type 0
  IsFirst jobs none = (o : OrderRow) (k : JobRow) → Memᴰ k jobs → ¬ CanClaim o k
  IsFirst jobs (some (o, j)) =
      Memᴰ j jobs
      × CanClaim o j
      × ((p : OrderRow) (k : JobRow) → Memᴰ k jobs → CanClaim p k → claim_key j ≤ claim_key k)

  mem_cases :
      (Q : JobRow → Type 0) (j : JobRow) (jobs : List JobRow)
      → Q j
      → ((k : JobRow) → Memᴰ k jobs → Q k)
      → (k : JobRow) → Memᴰ k (j ∷ jobs)
      → Q k
  mem_cases Q j jobs first rest k (Memᴰ.head e) = subst Q (sym e) first
  mem_cases Q j jobs first rest k (Memᴰ.tail m) = rest k m

  IsFirst-skip :
      (j : JobRow) (jobs : List JobRow) (best : Option Candidate)
      → ((o : OrderRow) → ¬ CanClaim o j)
      → IsFirst jobs best
      → IsFirst (j ∷ jobs) best
  IsFirst-skip j jobs none bad h = λ o. mem_cases (λ k. ¬ CanClaim o k) j jobs (bad o) (h o)
  IsFirst-skip j jobs (some (o, i)) bad (m, can, least) = (
    Memᴰ.tail m,
    can,
    λ p.
        mem_cases (λ k. CanClaim p k → claim_key i ≤ claim_key k) j jobs (λ c. absurd (bad p c))
          (least p),
  )

  IsFirst-new :
      (o : OrderRow) (j : JobRow) (jobs : List JobRow)
      → CanClaim o j
      → ((p : OrderRow) (k : JobRow) → Memᴰ k jobs → CanClaim p k → claim_key j ≤ claim_key k)
      → IsFirst (j ∷ jobs) (some (o, j))
  IsFirst-new o j jobs can least = (
    Memᴰ.head refl,
    can,
    λ p.
        mem_cases (λ k. CanClaim p k → claim_key j ≤ claim_key k) j jobs (λ c. omega arith)
          (least p),
  )

  IsFirst-earlier :
      (o : OrderRow) (j : JobRow) (jobs : List JobRow) (best : Option Candidate)
      → CanClaim o j
      → IsFirst jobs best
      → IsFirst (j ∷ jobs) (earlier (o, j) best)
  IsFirst-earlier o j jobs none can h = IsFirst-new o j jobs can (λ p k m c. absurd (h p k m c))
  IsFirst-earlier o j jobs (some (p, i)) can (m, c, least) =
      elim (Bool-cases (ltb (claim_key i) (claim_key j))) [
        | inl less ↦ rw less (
          Memᴰ.tail m,
          c,
          λ q.
              mem_cases (λ k. CanClaim q k → claim_key i ≤ claim_key k) j jobs (λ d. ground arith)
                (least q),
        )
        | inr not_less ↦
            rw not_less (IsFirst-new o j jobs can (λ q k n d. ground (arith, least q k n d)))
      ]

  consider-IsFirst :
      (j : JobRow) (jobs : List JobRow) (best : Option Candidate)
      → locked j.id ≡ false
      → (found : Option OrderRow) → find_row (has_id j.order_id) orders ≡ found
      → IsFirst jobs best
      → IsFirst (j ∷ jobs) (consider_found now j found best)
  consider-IsFirst j jobs best idle none lost h = IsFirst-skip j jobs best (λ o can. cc) h
  consider-IsFirst j jobs best idle (some o) found h = elim (Bool-cases (is_claimable now o j)) [
    | inl good ↦ rw good (IsFirst-earlier o j jobs best (idle, found, good) h)
    | inr bad ↦ rw bad (IsFirst-skip j jobs best (λ p can. ground arith) h)
  ]

  claim_from-IsFirst : (jobs : List JobRow) → IsFirst jobs (claim_from now locked orders jobs)
  unfolding claim_from
  claim_from-IsFirst [] = λ o k m. elim m [ ]
  claim_from-IsFirst (j ∷ jobs) = elim (Bool-cases (locked j.id)) [
    | inl busy ↦ rw busy (IsFirst-skip j jobs _ (λ o can. cc) (claim_from-IsFirst jobs))
    | inr idle ↦ rw idle (
        consider-IsFirst j jobs _ idle (find_row (has_id j.order_id) orders) refl
          (claim_from-IsFirst jobs))
  ]

-- The statement that takes a job: it finds a row only where some row may be claimed; the row that it
-- finds is not locked by another transaction, its order is stored and not cancelled, and it is PENDING
-- or WAITING and due, or PROCESSING with a lock of two minutes or more; and of all such rows it has
-- the least due time or end of lock.
pub claim_job-IsFirst :
    (now : Time) (locked : ℕ → Bool) (t : Tables)
    → IsFirst now locked t.orders t.jobs (claim_job now locked t)
unfolding claim_job
claim_job-IsFirst now locked t = claim_from-IsFirst now locked t.orders t.jobs

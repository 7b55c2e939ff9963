-- ===== src/Worker/Wake.antt =====
-- Until when the worker may sleep: NextWake agrees with ClaimJob.
use order_sync.Base.{
  ◌≤◌, Bool, true, false, ◌||◌, Option, none, some, List, [], ◌∷◌, ◌≡◌, refl, ◌↔◌, arith, leb,
  find_row,
}
use order_sync.Contracts.{Time}
use order_sync.Postgres.Schema.{OrderRow, JobRow, Tables}
use order_sync.Postgres.Queries.Orders.{has_id}
use order_sync.Postgres.Queries.Jobs.{
  Candidate, is_claimable, is_scheduled, is_processing, earlier, consider_found, claim_from,
  claim_job, live_wake, earliest, next_wake_from, next_wake,
}

abbrev is_some : {A : Type 0} → Option A → Bool
is_some none = false
is_some (some _) = true

-- A wake-up that has come.
abbrev due_by : Time → Option Time → Bool
due_by now none = false
due_by now (some w) = leb w now

due_by-earliest :
    (now : Time) (a b : Option Time) → due_by now (earliest a b) ≡ (due_by now a || due_by now b)
due_by-earliest now none b = refl
due_by-earliest now (some a) none = ground arith
due_by-earliest now (some a) (some b) = ground arith

wake_of-is_claimable :
    (now : Time) (o : OrderRow) (j : JobRow)
    → is_claimable now o j ≡ due_by now (live_wake j (some o))
unfolding is_claimable is_scheduled is_processing
wake_of-is_claimable now o j = ground arith

some-earlier : (c : Candidate) (best : Option Candidate) → is_some (earlier c best) ≡ true
some-earlier c none = refl
some-earlier c (some d) = ground arith

some-consider :
    (now : Time) (j : JobRow) (found : Option OrderRow) (best : Option Candidate)
    → is_some (consider_found now j found best) ≡ (due_by now (live_wake j found) || is_some best)
some-consider now j none best = refl
some-consider now j (some o) best =
    ground (arith, wake_of-is_claimable now o j, some-earlier (o, j) best)

some-claim_from :
    (now : Time) (orders : List OrderRow) (jobs : List JobRow)
    → is_some (claim_from now (λ id. false) orders jobs) ≡ due_by now (next_wake_from orders jobs)
unfolding claim_from next_wake_from
some-claim_from now orders [] = refl
some-claim_from now orders (j ∷ jobs) =
    let found = find_row (has_id j.order_id) orders in
    ground (
      arith,
      some-consider now j found (claim_from now (λ id. false) orders jobs),
      some-claim_from now orders jobs,
      due_by-earliest now (live_wake j found) (next_wake_from orders jobs),
    )

some_iff :
    {A : Type 0} (o : Option A) (now : Time) (wake : Option Time)
    → is_some o ≡ due_by now wake
    → ((a : A) × (o ≡ some a)) ↔ ((w : Time) × (wake ≡ some w) × (w ≤ now))
some_iff none now none h = (λ (a, e). ground arith, λ (w, e, l). ground arith)
some_iff none now (some v) h = (λ (a, e). ground arith, λ (w, e, l). ground arith)
some_iff (some a) now none h = (λ _. ground arith, λ _. (a, refl))
some_iff (some a) now (some v) h = (λ _. (v, refl, ground arith), λ _. (a, refl))

-- While no other transaction holds a row: ClaimJob finds a job at an instant exactly when NextWake is set and
-- not later. So a worker that sleeps until NextWake sleeps past no job, and one that wakes then finds one.
pub claim_job_when_due :
    (now : Time) (t : Tables)
    → ((c : Candidate) × (claim_job now (λ id. false) t ≡ some c))
      ↔ ((w : Time) × (next_wake t ≡ some w) × (w ≤ now))
unfolding claim_job next_wake
claim_job_when_due now t =
    some_iff (claim_from now (λ id. false) t.orders t.jobs) now (next_wake_from t.orders t.jobs)
      (some-claim_from now t.orders t.jobs)

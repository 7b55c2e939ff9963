-- ===== src/Admin/Arguments.antt =====
-- Which command lines make the operator's command replay a job.
use order_sync.Base.{
  ℕ, ◌<◌, String, Option, none, some, ap, List, [], ◌∷◌, ◌≡◌, ◌↔◌, arith, text_eq, text_eq→eq,
}
use order_sync.Base.Int.{ℤ, pos, negsuc}
use order_sync.Contracts.{Result}
use order_sync.Admin.{
  Command, Parsed, positive_id, replay_command, named_command, replay_job_id, parse_command,
}

positive_id-ok :
    (found : Option ℤ) (id : ℕ)
    → positive_id found ≡ Result.ok id
    → (found ≡ some (pos id)) × (0 < id)
positive_id-ok (some (pos n)) id h = (ground arith, ground arith)
positive_id-ok (some (negsuc n)) id h = cc
positive_id-ok none id h = cc

replay_command-id :
    (r : Result ℕ) (id : ℕ)
    → replay_command r ≡ Parsed.command (Command.replay id)
    → r ≡ Result.ok id
replay_command-id (Result.ok n) id h = cc h
replay_command-id (Result.err e) id h = cc

named_command-replay :
    (parse_int : String → Option ℤ) (args : List String) (name : String) (id : ℕ)
    → named_command parse_int args name ≡ Parsed.command (Command.replay id)
    → (name ≡ "replay") × (replay_job_id parse_int args ≡ Result.ok id)
named_command-replay parse_int args name id h = (
  ground (arith, text_eq→eq name "replay"),
  replay_command-id (replay_job_id parse_int args) id (ground arith),
)

only :
    (parse_int : String → Option ℤ) (args : List String) (id : ℕ)
    → parse_command parse_int args ≡ Parsed.command (Command.replay id)
    → (program text : String) × (args ≡ program ∷ "replay" ∷ text ∷ [])
      × (parse_int text ≡ some (pos id))
      × (0 < id)
unfolding parse_command replay_job_id text_eq
only parse_int [] id h = cc
only parse_int (program ∷ []) id h = cc
only parse_int (program ∷ name ∷ []) id h =
    let (_, bad) = named_command-replay parse_int (program ∷ name ∷ []) name id h in cc bad
only parse_int (program ∷ name ∷ text ∷ []) id h =
    let (named, good) = named_command-replay parse_int (program ∷ name ∷ text ∷ []) name id h in
    let (value, positive) = positive_id-ok (parse_int text) id good in
    (program, text, ap (λ n. program ∷ n ∷ text ∷ []) named, value, positive)
only parse_int (program ∷ name ∷ text ∷ more ∷ rest) id h =
    let (_, bad) = named_command-replay parse_int (program ∷ name ∷ text ∷ more ∷ rest) name id h in
    cc bad

enough :
    (parse_int : String → Option ℤ) (program text : String) (id : ℕ)
    → parse_int text ≡ some (pos id)
    → 0 < id
    → parse_command parse_int (program ∷ "replay" ∷ text ∷ []) ≡ Parsed.command (Command.replay id)
unfolding parse_command replay_job_id text_eq
enough parse_int program text id value positive = rw value (ground arith)

-- The command line asks for the replay of job `id` exactly when it is the program's name, `replay` and one
-- more word, which is read as the positive number `id`.
replay_command_iff :
    (parse_int : String → Option ℤ) (args : List String) (id : ℕ)
    → (parse_command parse_int args ≡ Parsed.command (Command.replay id)) ↔ (
        (program text : String) × (args ≡ program ∷ "replay" ∷ text ∷ [])
        × (parse_int text ≡ some (pos id))
        × (0 < id))
replay_command_iff parse_int args id = (
  only parse_int args id,
  λ (program, text, same, value, positive).
      rw same (enough parse_int program text id value positive),
)

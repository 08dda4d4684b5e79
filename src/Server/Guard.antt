-- ===== src/Server/Guard.antt =====
-- The budget of unauthenticated connections in src/bin/g2mirror-server.rs: `UnauthGuard`, as tasks
-- whose atomic operations on the counter interleave.
pub mod Bounded
mod Tests
use g2mirror.Prelude.{ℕ, ◌+◌, ◌-◌, ◌%◌, ◌≤◌, ◌<◌, ◌≡◌, ◌≢◌, List, [], ◌∷◌, ◌++◌, u64_mod}

abbrev pub max_unauthenticated : ℕ
max_unauthenticated = 32

-- Where a task is: outside of `acquire`; in its loop with the value of the counter that it has
-- read; or with a guard.
pub data Task : Type 0 where
  outside : Task
  trying : ℕ → Task
  guarded : Task

-- One atomic operation of a task, with the counter before and after. The exchange may fail even
-- if the counter is what was read, since it is the weak one.
pub data Move : ℕ → Task → ℕ → Task → Type 0 where
  load : (c : ℕ) → Move c outside c (trying c)
  refuse : (c current : ℕ) → max_unauthenticated ≤ current → Move c (trying current) c outside
  exchange :
      (c current : ℕ)
      → current < max_unauthenticated
      → c ≡ current
      → Move c (trying current) ((current + 1) % u64_mod) guarded
  retry : (c current : ℕ) → current < max_unauthenticated → Move c (trying current) c (trying c)
  release : (c : ℕ) → Move c guarded ((c + u64_mod - 1) % u64_mod) outside

pub record Budget : Type 0 where
  pub counter : ℕ
  pub tasks : List Task

-- Some task moves, or a connection brings a new one.
pub data Step (s : Budget) : Budget → Type 0 where
  move :
      (before after : List Task) (t t' : Task) (c' : ℕ)
      → s.tasks ≡ before ++ t ∷ after
      → Move s.counter t c' t'
      → Step s (record { counter = c'; tasks = before ++ t' ∷ after })
  arrive : Step s (record s { tasks = outside ∷ s.tasks })

abbrev pub start : Budget
start = record { counter = 0; tasks = [] }

pub data Reach : Budget → Type 0 where
  begin : Reach start
  next : {s t : Budget} → Reach s → Step s t → Reach t

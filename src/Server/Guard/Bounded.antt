-- ===== src/Server/Guard/Bounded.antt =====
-- The counter of `UnauthGuard` (src/bin/g2mirror-server.rs) under every interleaving.
use g2mirror.Prelude.{ℕ, ◌+◌, ◌≤◌, ◌≡◌, refl, ap, ◌∙◌, List, [], ◌∷◌, ◌++◌, arith}
use g2mirror.Server.Guard.{
  max_unauthenticated, Task, outside, trying, guarded, Move, load, refuse, exchange, retry, release,
  Budget, Step, move, arrive, Reach, begin, next,
}

abbrev pub weight : Task → ℕ
weight outside = 0
weight (trying c) = 0
weight guarded = 1

-- How many tasks have a guard.
abbrev pub guards : List Task → ℕ
guards [] = 0
guards (t ∷ ts) = weight t + guards ts

guards-append : (ts us : List Task) → guards (ts ++ us) ≡ guards ts + guards us
guards-append [] us = omega arith
guards-append (t ∷ ts) us = omega (arith, guards-append ts us)

-- A move changes the counter by the guards that it takes or gives back.
Move-weight :
    {c c' : ℕ} {t t' : Task}
    → Move c t c' t'
    → c ≤ max_unauthenticated
    → weight t ≤ c
    → (c' + weight t ≡ c + weight t') × (c' ≤ max_unauthenticated)
Move-weight (load c) h k = omega arith
Move-weight (refuse c current full) h k = omega arith
Move-weight (exchange c current room same) h k = omega arith
Move-weight (retry c current room) h k = omega arith
Move-weight (release c) h k = omega arith

pub record IsCounted (s : Budget) : Type 0 where
  pub exact : s.counter ≡ guards s.tasks
  pub bounded : s.counter ≤ max_unauthenticated

Step-IsCounted : {s t : Budget} → Step s t → IsCounted s → IsCounted t
Step-IsCounted (move before after t t' c' e m) h =
    let split = ap guards e ∙ guards-append before (t ∷ after) in
    let moved = Move-weight m h.bounded (omega (arith, h.exact, split)) in
    record {
      exact = omega (arith, h.exact, split, moved, guards-append before (t' ∷ after));
      bounded = moved.1;
    }
Step-IsCounted arrive h = record { exact = omega (arith, h.exact); bounded = h.bounded }

-- Whatever number of connections arrives, and however the loads, exchanges, failed exchanges and
-- releases of their tasks interleave: the counter is always the number of guards held, it never
-- wraps around, and no more than 32 are held at a time.
pub Reach-IsCounted : {s : Budget} → Reach s → IsCounted s
Reach-IsCounted begin = record { exact = refl; bounded = omega arith }
Reach-IsCounted (next r st) = Step-IsCounted st (Reach-IsCounted r)

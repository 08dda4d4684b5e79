-- ===== src/Server/Guard/Tests.antt =====
-- Two connections race for a guard: one exchange fails, and is tried again.
use g2mirror.Prelude.{refl, [], ◌∷◌, arith}
use g2mirror.Server.Guard.{
  trying, guarded, outside, load, exchange, retry, Budget, move, arrive, Reach, begin, next,
}
use g2mirror.Server.Guard.Bounded.{IsCounted, Reach-IsCounted}

abbrev raced : Budget
raced = record { counter = 2; tasks = guarded ∷ guarded ∷ [] }

race : Reach raced
race =
    next
      (next
        (next
          (next
            (next (next (next begin arrive) arrive) (move [] (outside ∷ []) _ _ _ refl (load 0)))
            (move (trying 0 ∷ []) [] _ _ _ refl (load 0)))
          (move [] (trying 0 ∷ []) _ _ _ refl (exchange 0 0 (omega arith) refl)))
        (move (guarded ∷ []) [] _ _ _ refl (retry 1 0 (omega arith))))
      (move (guarded ∷ []) [] _ _ _ refl (exchange 1 1 (omega arith) refl))

Reach-IsCounted_example : IsCounted raced
Reach-IsCounted_example = Reach-IsCounted race

-- ===== src/Input/Timing.antt =====
-- The pauses of the input queue of src/main.rs.
use g2mirror.Prelude.{
  ℕ, ◌+◌, ◌≤◌, ◌<◌, ◌≡◌, ◌≢◌, ◌⊎◌, inl, refl, Bool, true, false, List, [], ◌∷◌, Option, none, some,
  Bytes, ◌++◌, arith,
}
use g2mirror.Input.{Chunk, InputQueue, waits, pump_from, pump}

-- The timer is armed exactly while a chunk waits.
abbrev pub IsArmed : InputQueue → Type 0
IsArmed q = ((q.queue ≡ []) × (q.due ≡ none)) ⊎ ((q.queue ≢ []) × (q.due ≢ none))

pump_from-IsArmed :
    (clock : ℕ → ℕ) (pty : ℕ → Bool) (n : ℕ) (cs : List Chunk) (due : Option ℕ)
    → ((cs ≡ []) → (due ≡ none))
    → (pump_from clock pty n cs due).failed ≡ false
    → IsArmed (pump_from clock pty n cs due).left
unfolding pump_from
pump_from-IsArmed clock pty n [] due d e = inl (refl, d refl)
pump_from-IsArmed clock pty n ((pause, []) ∷ cs) due d e =
    ground (arith, pump_from-IsArmed clock pty (n + 1) cs none (λ _. refl))
pump_from-IsArmed clock pty n ((pause, b ∷ bs) ∷ cs) due d e =
    ground (arith, pump_from-IsArmed clock pty (n + 1) cs none (λ _. refl))

-- From a queue that is not armed while it is empty, a `pump` with no failed write leaves the timer
-- armed exactly when a chunk still waits: the main loop neither forgets a chunk nor wakes for
-- nothing.
pub pump-IsArmed :
    (clock : ℕ → ℕ) (pty : ℕ → Bool) (q : InputQueue)
    → (q.queue ≡ [] → q.due ≡ none)
    → (pump clock pty q).failed ≡ false
    → IsArmed (pump clock pty q).left
unfolding pump
pump-IsArmed clock pty q d e = pump_from-IsArmed clock pty 0 q.queue q.due d e

abbrev pub waiting : ℕ → Bytes → List Chunk → Option ℕ → InputQueue
waiting pause bytes cs due = record { queue = (pause, bytes) ∷ cs; due = due }

-- A positive pause before a chunk that is not empty, when it starts now, is kept: nothing is
-- written at once, nor by a later pump whose clock has not reached the end of the pause; from then
-- on a pump whose write succeeds writes that chunk first.
pub pump_pause :
    (clock later : ℕ → ℕ) (pty pty' : ℕ → Bool) (pause b : ℕ) (bs : Bytes) (cs : List Chunk)
    → 0 < pause
    → pty' 0 ≡ true
    → (pump clock pty (waiting pause (b ∷ bs) cs none)
        ≡ waits (waiting pause (b ∷ bs) cs (some (clock 0 + pause))) false)
      × (later 0 < clock 0 + pause
          → pump later pty' (waiting pause (b ∷ bs) cs (some (clock 0 + pause)))
            ≡ waits (waiting pause (b ∷ bs) cs (some (clock 0 + pause))) false)
      × (clock 0 + pause ≤ later 0
          → (pump later pty' (waiting pause (b ∷ bs) cs (some (clock 0 + pause)))).written
            ≡ b ∷ (bs ++ (pump_from later pty' 1 cs none).written))
unfolding pump pump_from
pump_pause clock later pty pty' pause b bs cs p ok =
    (ground arith, λ h. ground arith, λ h. ground arith)

-- ===== src/Bell/Spacing.antt =====
-- The rate of the bell reports of src/control.rs.
use g2mirror.Prelude.{ℕ, ◌+◌, ◌≤◌, ◌<◌, ◌≡◌, refl, List, [], ◌∷◌, Option, none, some, arith}
use g2mirror.Bell.{BellDebouncer, new, Event, rings, wakes, Report, turn, run}

-- Newest first, each report is sent at least `window` after the one before it.
abbrev pub Spaced : ℕ → List Report → Type 0
Spaced window [] = Unit
Spaced window (r ∷ []) = Unit
Spaced window (r ∷ s ∷ log) = (s.sent + window ≤ r.sent) × Spaced window (s ∷ log)

abbrev last_report : List Report → Option ℕ
last_report [] = none
last_report (r ∷ log) = some r.sent

record Inv (window : ℕ) (s : BellDebouncer × List Report) : Type 0 where
  fixed : s.0.window ≡ window
  last : s.0.last_sent ≡ last_report s.1
  spaced : Spaced window s.1

turn-Inv :
    (window : ℕ) (d : BellDebouncer) (log : List Report) (e : Event)
    → 0 < window
    → Inv window (d, log)
    → Inv window (turn (d, log) e)
unfolding turn
turn-Inv window d [] (rings t at) w v = ground arith
turn-Inv window d (r ∷ log) (rings t at) w v = ground arith
turn-Inv window d [] (wakes t) w v = ground arith
turn-Inv window d (r ∷ log) (wakes t) w v = ground arith

run-Inv :
    (window : ℕ) (es : List Event) (d : BellDebouncer) (log : List Report)
    → 0 < window
    → Inv window (d, log)
    → Spaced window (run (d, log) es).1
unfolding run
run-Inv window [] d log w v = v.spaced
run-Inv window (e ∷ es) d log w v =
    let s = turn (d, log) e in run-Inv window es s.0 s.1 w (turn-Inv window d log e w v)

-- For a positive window, whatever bells ring and whenever the loop wakes, two reports are at least
-- a window apart.
pub run-Spaced :
    (window : ℕ) (es : List Event) → 0 < window → Spaced window (run (new window, []) es).1
unfolding new
run-Spaced window es w =
    run-Inv window es (record { window = window; last_sent = none; pending_at = none }) [] w
      (record { fixed = refl; last = refl; spaced = tt })

-- ===== src/Bell/Tests.antt =====
-- `bell_debounce_leading_and_trailing_edge` of src/control.rs, and the theorems at its inputs.
use g2mirror.Prelude.{◌≡◌, ◌⊎◌, refl, List, [], ◌∷◌, some, arith}
use g2mirror.Bell.{BellDebouncer, new, deadline, Event, rings, wakes, turn, run}
use g2mirror.Bell.Spacing.{Spaced, run-Spaced}
use g2mirror.Bell.Delivery.{Reported, Held, run-latest, late_ring}

abbrev events : List Event
events =
    rings 100 1000
    ∷ rings 600 1500
    ∷ rings 1000 1900
    ∷ wakes 3100
    ∷ wakes 3101
    ∷ rings 4100 5000
    ∷ []

edges :
    (run (new 3000, []) events).1
    ≡ record { sent = 3100; at = 1900 } ∷ record { sent = 100; at = 1000 } ∷ []
unfolding run turn new
edges = refl

held_back : deadline (run (new 3000, []) events).0 ≡ some 6100
unfolding run turn new deadline
held_back = refl

run-Spaced_example : Spaced 3000 (run (new 3000, []) events).1
run-Spaced_example = run-Spaced 3000 events (omega arith)

run-latest_example :
    Reported 5000 (run (new 3000, []) events).1 ⊎ Held 5000 (run (new 3000, []) events)
run-latest_example = run-latest 3000 events 5000 refl

abbrev holding : BellDebouncer
holding = record { window = 3000; last_sent = some 100; pending_at = some 1900 }

late_ring_example :
    (run (holding, []) (rings 3200 4000 ∷ wakes 6200 ∷ [])).1
    ≡ record { sent = 6200; at = 1900 } ∷ record { sent = 3200; at = 4000 } ∷ []
late_ring_example =
    late_ring holding [] 100 1900 3200 4000 6200 refl refl (omega arith) (omega arith)

-- ===== src/Bell.antt =====
-- `BellDebouncer` of src/control.rs, and the two arms of the main loop (src/main.rs) that use it.
-- Instants are milliseconds of a monotonic clock; `at` is the wall-clock time of a bell.
pub mod Spacing
pub mod Delivery
mod Tests
use g2mirror.Prelude.{
  ℕ, ◌+◌, ◌-◌, Bool, true, false, List, [], ◌∷◌, Option, none, some, ltb, leb, if◌then◌else◌,
}

pub record BellDebouncer : Type 0 where
  pub window : ℕ
  pub last_sent : Option ℕ
  pub pending_at : Option ℕ

pub new : ℕ → BellDebouncer
new window = record { window = window; last_sent = none; pending_at = none }

-- The guard of the first arm: `duration_since` stops at zero.
abbrev in_window : BellDebouncer → ℕ → Bool
in_window d now = elim d.last_sent [ none ↦ false | some sent ↦ ltb (now - sent) d.window ]

pub on_bell : BellDebouncer → ℕ → ℕ → BellDebouncer × Option ℕ
on_bell d now at =
    if in_window d now
    then (record d { pending_at = some at }, none)
    else (record d { last_sent = some now }, some at)

-- `self.pending_at.and(self.last_sent).map(|sent| sent + self.window)`
pub deadline : BellDebouncer → Option ℕ
deadline d = elim d.pending_at [
  | none ↦ none
  | some _ ↦ elim d.last_sent [ none ↦ none | some sent ↦ some (sent + d.window) ]
]

pub fire : BellDebouncer → ℕ → BellDebouncer × Option ℕ
fire d now = elim d.pending_at [
  | none ↦ (d, none)
  | some at ↦ (record d { pending_at = none; last_sent = some now }, some at)
]

-- What wakes the main loop: a chunk of output with a bell, or the timer.
pub data Event : Type 0 where
  rings : ℕ → ℕ → Event
  wakes : ℕ → Event

abbrev pub time : Event → ℕ
time (rings now at) = now
time (wakes now) = now

-- A bell report: when it is sent, and the time of the bell that it tells.
pub record Report : Type 0 where
  pub sent : ℕ
  pub at : ℕ

-- `if let Some(at) = … { send_bell(&mut monitor, at).await; }`
abbrev reports : ℕ → Option ℕ → List Report → List Report
reports now none log = log
reports now (some at) log = record { sent = now; at = at } ∷ log

-- The timer's arm is enabled by a deadline, and runs when that has come.
abbrev is_due : BellDebouncer → ℕ → Bool
is_due d now = elim (deadline d) [ none ↦ false | some t ↦ leb t now ]

-- One turn of the loop; the newest report stands first.
pub turn : BellDebouncer × List Report → Event → BellDebouncer × List Report
unfolding on_bell deadline fire
turn (d, log) (rings now at) = let (d', r) = on_bell d now at in (d', reports now r log)
turn (d, log) (wakes now) =
    let (d', r) = fire d now in if is_due d now then (d', reports now r log) else (d, log)

pub run : BellDebouncer × List Report → List Event → BellDebouncer × List Report
run s [] = s
run s (e ∷ es) = run (turn s e) es

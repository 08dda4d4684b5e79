-- ===== src/Bell/Delivery.antt =====
-- Which bells the debouncer of src/control.rs reports.
use g2mirror.Prelude.{
  ℕ, ◌+◌, ◌≤◌, ◌≡◌, ◌≢◌, ◌⊎◌, inl, inr, List, [], ◌∷◌, Option, none, some, arith, Option-cases,
}
use g2mirror.Bell.{BellDebouncer, new, deadline, Event, rings, wakes, Report, turn, run}

abbrev pub Reported : ℕ → List Report → Type 0
Reported at [] = ⊥
Reported at (r ∷ log) = (r.at ≡ at) ⊎ Reported at log

-- The time of the last bell that rang.
abbrev pub latest : Option ℕ → List Event → Option ℕ
latest last [] = last
latest last (rings now at ∷ es) = latest (some at) es
latest last (wakes now ∷ es) = latest last es

-- A bell is held: the timer is armed, and the first turn after it reports the bell.
abbrev pub Held : ℕ → BellDebouncer × List Report → Type 0
Held at s =
    (t : ℕ) × (deadline s.0 ≡ some t)
    × ((now : ℕ) → t ≤ now → (turn s (wakes now)).1 ≡ record { sent = now; at = at } ∷ s.1)

record Inv (last : Option ℕ) (s : BellDebouncer × List Report) : Type 0 where
  armed : s.0.pending_at ≢ none → s.0.last_sent ≢ none
  delivered : (at : ℕ) → last ≡ some at → Reported at s.1 ⊎ (s.0.pending_at ≡ some at)

ring-Inv :
    (last : Option ℕ) (d : BellDebouncer) (log : List Report) (now at : ℕ)
    → Inv last (d, log)
    → Inv (some at) (turn (d, log) (rings now at))
unfolding turn
ring-Inv last d log now at v = record { armed = ground arith; delivered = λ at' e. ground arith }

wake-Inv :
    (last : Option ℕ) (d : BellDebouncer) (log : List Report) (now : ℕ)
    → Inv last (d, log)
    → Inv last (turn (d, log) (wakes now))
unfolding turn
wake-Inv last d log now v = record {
  armed = ground arith;
  delivered = λ at e. let h = v.delivered at e in ground arith;
}

run-Inv :
    (last : Option ℕ) (es : List Event) (d : BellDebouncer) (log : List Report)
    → Inv last (d, log)
    → Inv (latest last es) (run (d, log) es)
unfolding run
run-Inv last [] d log v = v
run-Inv last (rings now at ∷ es) d log v =
    let s = turn (d, log) (rings now at) in
    run-Inv (some at) es s.0 s.1 (ring-Inv last d log now at v)
run-Inv last (wakes now ∷ es) d log v =
    let s = turn (d, log) (wakes now) in run-Inv last es s.0 s.1 (wake-Inv last d log now v)

pending-Held :
    (at : ℕ) (d : BellDebouncer) (log : List Report)
    → d.pending_at ≡ some at
    → d.last_sent ≢ none
    → Held at (d, log)
unfolding turn deadline
pending-Held at d log p l = elim (Option-cases d.last_sent) [
  | inl e ↦ absurd (l e)
  | inr (sent, e) ↦ (sent + d.window, ground arith, λ now h. ground arith)
]

-- If a bell has rung, the last one is not lost: it has been reported, or it is held and the timer
-- will report it.
pub run-latest :
    (window : ℕ) (es : List Event) (at : ℕ)
    → latest none es ≡ some at
    → Reported at (run (new window, []) es).1 ⊎ Held at (run (new window, []) es)
unfolding new
run-latest window es at e =
    let start : BellDebouncer = record { window = window; last_sent = none; pending_at = none } in
    let v = run-Inv none es start [] (record { armed = λ p. p; delivered = λ a p. cc }) in
    let s = run (start, []) es in
    elim (v.delivered at e) [
      | inl r ↦ inl r
      | inr p ↦ inr (pending-Held at s.0 s.1 p (v.armed (λ q. cc)))
    ]

-- While a bell is held, one that rings when the window is over, before the timer's turn, is
-- reported at once, and the held bell stays: at a turn of the timer a window later it is reported,
-- after the newer one.
pub late_ring :
    (d : BellDebouncer) (log : List Report) (sent old now at t : ℕ)
    → d.last_sent ≡ some sent
    → d.pending_at ≡ some old
    → sent + d.window ≤ now
    → now + d.window ≤ t
    → (run (d, log) (rings now at ∷ wakes t ∷ [])).1
      ≡ record { sent = t; at = old } ∷ record { sent = now; at = at } ∷ log
unfolding run turn
late_ring d log sent old now at t l p due later = ground arith

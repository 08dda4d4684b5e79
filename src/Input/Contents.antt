-- ===== src/Input/Contents.antt =====
-- The input queue of src/main.rs keeps the bytes in the order in which the clients sent them.
use g2mirror.Prelude.{
  ℕ, ◌≡◌, ◌⊎◌, inl, inr, refl, sym, ap, ◌∙◌, Bool, false, List, [], ◌∷◌, ◌++◌, Bytes, length, ltb,
  Bool-cases, append-nil, append_assoc, if◌then◌else◌,
}
use g2mirror.Input.{
  InputDelay, InputQueue, Pumped, Received, refused, took, panics, offsets_ok, pump_from, pump,
  receive, max_input_delays,
}
use g2mirror.Input.Chunks.{contents, push-contents, pump_from-fails, pump_from-contents}

-- What the main loop does with the queue: an input message, or the timer's turn.
pub data Turn : Type 0 where
  types : Bytes → List InputDelay → (ℕ → ℕ) → (ℕ → Bool) → Turn
  wakes : (ℕ → ℕ) → (ℕ → Bool) → Turn

-- How a turn or a run ends: with what was written and the queue that is left, with a failed write,
-- which ends the wrapper, or with the panic of an index out of range.
pub data Ends : Type 0 where
  finishes : Bytes → InputQueue → Ends
  fails : Ends
  crashes : Ends

abbrev after : Pumped → Ends
after p = if p.failed then fails else finishes p.written p.left

abbrev after_input : InputQueue → Received → Ends
after_input q (refused e) = finishes [] q
after_input q (took p) = after p
after_input q panics = crashes

abbrev turn : InputQueue → Turn → Ends
turn q (types bytes ds clock pty) = after_input q (receive clock pty q bytes ds)
turn q (wakes clock pty) = after (pump clock pty q)

abbrev behind : Bytes → Ends → Ends
behind out (finishes more q) = finishes (out ++ more) q
behind out fails = fails
behind out crashes = crashes

abbrev and_then : Ends → (InputQueue → Ends) → Ends
and_then (finishes out q) go_on = behind out (go_on q)
and_then fails go_on = fails
and_then crashes go_on = crashes

unfoldable pub run : InputQueue → List Turn → Ends
run q [] = finishes [] q
run q (t ∷ ts) = and_then (turn q t) (λ q'. run q' ts)

-- The pty refuses some write of the turn.
abbrev pub Refuses : Turn → Type 0
Refuses (types bytes ds clock pty) = (k : ℕ) × (pty k ≡ false)
Refuses (wakes clock pty) = (k : ℕ) × (pty k ≡ false)

abbrev pub SomeRefuses : List Turn → Type 0
SomeRefuses [] = ⊥
SomeRefuses (t ∷ ts) = Refuses t ⊎ SomeRefuses ts

-- The bytes that a turn brings in, if its message passes the checks.
abbrev pub accepted : List Turn → Bytes
accepted [] = []
accepted (types bytes ds clock pty ∷ ts) =
    (if ltb max_input_delays (length ds)
      then []
      else if offsets_ok (length bytes) 0 ds
      then bytes
      else [])
    ++ accepted ts
accepted (wakes clock pty ∷ ts) = accepted ts

-- No panic; a failure only with a cause; else what was written and what waits are what waited and
-- the new bytes, in order.
abbrev pub Keeps : InputQueue → Bytes → Type 0 → Ends → Type 0
Keeps q bytes Cause (finishes out q') = out ++ contents q'.queue ≡ contents q.queue ++ bytes
Keeps q bytes Cause fails = Cause
Keeps q bytes Cause crashes = ⊥

wakes-Keeps :
    (clock : ℕ → ℕ) (pty : ℕ → Bool) (q : InputQueue)
    → Keeps q [] ((k : ℕ) × (pty k ≡ false)) (after (pump clock pty q))
unfolding pump
wakes-Keeps clock pty q = elim (Bool-cases (pump_from clock pty 0 q.queue q.due).failed) [
  | inl bad ↦ rw bad (pump_from-fails clock pty 0 q.queue q.due bad)
  | inr good ↦
      rw (good, append-nil (contents q.queue)) (pump_from-contents clock pty 0 q.queue q.due good)
]

-- The same seen from a queue that the bytes were put behind.
moved :
    (q q' : InputQueue) (bytes : Bytes) (Cause : Type 0) (r : Ends)
    → contents q'.queue ≡ contents q.queue ++ bytes
    → Keeps q' [] Cause r
    → Keeps q bytes Cause r
moved q q' bytes Cause (finishes out left) c k = k ∙ append-nil (contents q'.queue) ∙ c
moved q q' bytes Cause fails c k = k
moved q q' bytes Cause crashes c k = k

types-Keeps :
    (clock : ℕ → ℕ) (pty : ℕ → Bool) (q : InputQueue) (bytes : Bytes) (ds : List InputDelay)
    → Keeps q
        (if ltb max_input_delays (length ds)
          then []
          else if offsets_ok (length bytes) 0 ds
          then bytes
          else [])
        ((k : ℕ) × (pty k ≡ false))
        (after_input q (receive clock pty q bytes ds))
unfolding receive
types-Keeps clock pty q bytes ds = elim (Bool-cases (ltb max_input_delays (length ds))) [
  | inl many ↦ rw (many, append-nil (contents q.queue)) refl
  | inr few ↦ elim (Bool-cases (offsets_ok (length bytes) 0 ds)) [
    | inr bad ↦ rw (few, bad, append-nil (contents q.queue)) refl
    | inl good ↦
        let (cs, e, c, _, _) = push-contents q bytes ds good in
        let q' : InputQueue = record { queue = q.queue ++ cs; due = q.due } in
        rw (few, good, e)
          (moved q q' bytes _ (after (pump clock pty q')) c (wakes-Keeps clock pty q'))
  ]
]

turn-Keeps : (q : InputQueue) (t : Turn) → Keeps q (accepted (t ∷ [])) (Refuses t) (turn q t)
turn-Keeps q (types bytes ds clock pty) =
    rw
      (append-nil (
        if ltb max_input_delays (length ds)
        then []
        else if offsets_ok (length bytes) 0 ds
        then bytes
        else []))
      (types-Keeps clock pty q bytes ds)
turn-Keeps q (wakes clock pty) = wakes-Keeps clock pty q

accepted-cons : (t : Turn) (ts : List Turn) → accepted (t ∷ ts) ≡ accepted (t ∷ []) ++ accepted ts
accepted-cons (types bytes ds clock pty) ts = rw append-nil refl
accepted-cons (wakes clock pty) ts = refl

behind-Keeps :
    (q q' : InputQueue) (a b out : Bytes) (First Later : Type 0) (r : Ends)
    → out ++ contents q'.queue ≡ contents q.queue ++ a
    → Keeps q' b Later r
    → Keeps q (a ++ b) (First ⊎ Later) (behind out r)
behind-Keeps q q' a b out First Later (finishes more q'') k l =
    append_assoc out more (contents q''.queue)
    ∙ ap (◌++◌ out) l
    ∙ sym (append_assoc out (contents q'.queue) b)
    ∙ ap (λ x. x ++ b) k
    ∙ append_assoc (contents q.queue) a b
behind-Keeps q q' a b out First Later fails k l = inr l
behind-Keeps q q' a b out First Later crashes k l = l

and_then-Keeps :
    (q : InputQueue) (a b : Bytes) (First Later : Type 0) (r : Ends) (go_on : InputQueue → Ends)
    → Keeps q a First r
    → ((q' : InputQueue) → Keeps q' b Later (go_on q'))
    → Keeps q (a ++ b) (First ⊎ Later) (and_then r go_on)
and_then-Keeps q a b First Later (finishes out q') go_on k l =
    behind-Keeps q q' a b out First Later (go_on q') k (l q')
and_then-Keeps q a b First Later fails go_on k l = inl k
and_then-Keeps q a b First Later crashes go_on k l = k

-- Any sequence of input messages and timer turns, whatever the messages hold, runs without a panic,
-- and is cut short only if the pty refuses a write. Otherwise the pty gets the bytes of the accepted
-- messages in the order of the messages, behind those that waited before, and what it has not got
-- yet waits in the queue, in the same order.
pub run-contents :
    (q : InputQueue) (ts : List Turn) → Keeps q (accepted ts) (SomeRefuses ts) (run q ts)
unfolding run
run-contents q [] = sym (append-nil (contents q.queue))
run-contents q (t ∷ ts) = rw (accepted-cons t ts) (
    and_then-Keeps q (accepted (t ∷ [])) (accepted ts) (Refuses t) (SomeRefuses ts) (turn q t)
      (λ q'. run q' ts) (turn-Keeps q t) (λ q'. run-contents q' ts))

-- ===== src/Input.antt =====
-- `InputQueue` of src/main.rs, and the checks that the `input` message passes before it.
-- Instants and pauses are milliseconds.
pub mod Chunks
pub mod Contents
pub mod Timing
mod Tests
use g2mirror.Prelude.{
  ℕ, ◌+◌, ◌-◌, min, Bool, true, false, ◌&&◌, List, [], ◌∷◌, ◌++◌, Option, none, some, ◌>>=◌, Bytes,
  length, take, drop, ltb, leb, if◌then◌else◌,
}

abbrev pub max_input_delay_ms : ℕ
max_input_delay_ms = 1000

abbrev pub max_input_delays : ℕ
max_input_delays = 32

-- `InputDelay` of src/protocol.rs.
pub record InputDelay : Type 0 where
  pub at : ℕ
  pub ms : ℕ

-- A pause, and the bytes to write after it.
abbrev pub Chunk : Type 0
Chunk = ℕ × Bytes

pub record InputQueue : Type 0 where
  pub queue : List Chunk
  pub due : Option ℕ

pub empty : InputQueue
empty = record { queue = []; due = none }

-- `&bytes[lo..hi]`; `none` is the panic of an index out of range.
slice : Bytes → ℕ → ℕ → Option Bytes
slice bytes lo hi =
    if leb lo hi && leb hi (length bytes) then some (take (hi - lo) (drop lo bytes)) else none

-- The loop of `push`, from `prev` on with the pause that stands before the next chunk.
split : Bytes → ℕ → ℕ → List InputDelay → Option (List Chunk)
unfolding slice
split bytes prev pause [] = do c ← slice bytes prev (length bytes); some ((pause, c) ∷ [])
split bytes prev pause (d ∷ ds) = do
  c ← slice bytes prev d.at
  cs ← split bytes d.at (min d.ms max_input_delay_ms) ds
  some ((pause, c) ∷ cs)

pub push : InputQueue → Bytes → List InputDelay → Option InputQueue
unfolding split
push q bytes delays = do cs ← split bytes 0 0 delays; some (record q { queue = q.queue ++ cs })

-- The loop of `handle_viewer_message` over the offsets.
pub offsets_ok : ℕ → ℕ → List InputDelay → Bool
offsets_ok len prev [] = true
offsets_ok len prev (d ∷ ds) = leb prev d.at && leb d.at len && offsets_ok len d.at ds

-- What `pump` leaves and writes. `failed`: a write to the pty failed, which ends the wrapper.
pub record Pumped : Type 0 where
  pub left : InputQueue
  pub written : Bytes
  pub failed : Bool

abbrev wrote : Bytes → Pumped → Pumped
wrote bytes p = record p { written = bytes ++ p.written }

abbrev waits : InputQueue → Bool → Pumped
waits left failed = record { left = left; written = []; failed = failed }

-- `get_or_insert`
abbrev due_at : Option ℕ → ℕ → ℕ
due_at none start = start
due_at (some t) start = t

-- Round `n` reads the clock at `clock n`, and its write succeeds if `pty n` says so.
pub pump_from : (ℕ → ℕ) → (ℕ → Bool) → ℕ → List Chunk → Option ℕ → Pumped
pump_from clock pty n [] due = waits (record { queue = []; due = due }) false
pump_from clock pty n ((pause, bytes) ∷ rest) due =
    let t = due_at due (clock n + pause) in
    let go_on = pump_from clock pty (n + 1) rest none in
    if ltb (clock n) t
    then waits (record { queue = (pause, bytes) ∷ rest; due = some t }) false
    else elim bytes [
      | [] ↦ go_on
      | b ∷ bs ↦
          if pty n then wrote (b ∷ bs) go_on else waits (record { queue = rest; due = none }) true
    ]

pub pump : (ℕ → ℕ) → (ℕ → Bool) → InputQueue → Pumped
unfolding pump_from
pump clock pty q = pump_from clock pty 0 q.queue q.due

pub data InputError : Type 0 where
  too_many_delays bad_offsets : InputError

-- The rest of the handler once `data` is decoded; `panics` is an index out of range.
pub data Received : Type 0 where
  refused : InputError → Received
  took : Pumped → Received
  panics : Received

pub receive : (ℕ → ℕ) → (ℕ → Bool) → InputQueue → Bytes → List InputDelay → Received
receive clock pty q bytes delays =
    if ltb max_input_delays (length delays)
    then refused too_many_delays
    else if offsets_ok (length bytes) 0 delays
    then elim (push q bytes delays) [ none ↦ panics | some q' ↦ took (pump clock pty q') ]
    else refused bad_offsets

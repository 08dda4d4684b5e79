-- ===== src/Frames.antt =====
-- Newline framing: `Client::next_message` of src/control.rs and `SessionConn::next_line` of
-- src/bin/g2mirror-server.rs, up to the decoding of a line. A stream is the chunks that its reads
-- return; an empty chunk, and the end of the list, are the end of the stream.
pub mod Chunks
mod Tests
use g2mirror.Prelude.{
  ℕ, zero, suc, ◌+◌, Bool, true, false, List, [], ◌∷◌, ◌++◌, Option, none, some, Bytes, length,
  ◌==◌, if◌then◌else◌,
}

-- The bytes before the first newline, and those behind it.
abbrev extend : ℕ → Option (Bytes × Bytes) → Option (Bytes × Bytes)
extend c none = none
extend c (some (line, rest)) = some (c ∷ line, rest)

pub first_line : Bytes → Option (Bytes × Bytes)
first_line [] = none
first_line (c ∷ cs) =
    let later = extend c (first_line cs) in if c == b'\n' then some ([], cs) else later

-- The rounds of the loop that find a newline in the buffer: empty lines are skipped. `inl` of the
-- source's loop, a complete line, is `some`; otherwise the buffer is what is left.
pub data Popped : Type 0 where
  line : Bytes → Bytes → Popped
  partial : Bytes → Popped

abbrev rest_of : Option (Bytes × Bytes) → Bytes
rest_of none = []
rest_of (some (l, rest)) = rest

-- One round, given the rounds after an empty line.
abbrev pub found : Bytes → Popped → Option (Bytes × Bytes) → Popped
found buf again none = partial buf
found buf again (some ([], rest)) = again
found buf again (some (c ∷ cs, rest)) = line (c ∷ cs) rest

pub pop : ℕ → Bytes → Popped
unfolding first_line
pop zero buf = partial buf
pop (suc f) buf = found buf (pop f (rest_of (first_line buf))) (first_line buf)

abbrev pub pop_all : Bytes → Popped
pop_all buf = pop (length buf + 1) buf

abbrev pub left_of : Popped → Bytes
left_of (line l rest) = []
left_of (partial buf) = buf

-- A line, with the buffer and the chunks that it leaves, or else what more reading brings.
abbrev pub taken :
    List Bytes → Option (Bytes × Bytes × List Bytes) → Popped → Option (Bytes × Bytes × List Bytes)
taken chunks more (line l rest) = some (l, rest, chunks)
taken chunks more (partial buf) = more

-- One call. `none` is the end of the stream.
pub next_line : List Bytes → Bytes → Option (Bytes × Bytes × List Bytes)
unfolding pop
next_line [] buf = taken [] none (pop_all buf)
next_line ([] ∷ chunks) buf = taken ([] ∷ chunks) none (pop_all buf)
next_line ((c ∷ cs) ∷ chunks) buf =
    taken ((c ∷ cs) ∷ chunks) (next_line chunks (left_of (pop_all buf) ++ c ∷ cs)) (pop_all buf)

-- What a reader gets that calls until the end.
pub all_lines : ℕ → List Bytes → Bytes → List Bytes
all_lines zero chunks buf = []
all_lines (suc f) chunks buf = elim (next_line chunks buf) [
  | none ↦ []
  | some (l, rest, later) ↦ l ∷ all_lines f later rest
]

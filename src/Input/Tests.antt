-- ===== src/Input/Tests.antt =====
-- Runs of the input queue of src/main.rs, and the theorems at concrete inputs.
use g2mirror.Prelude.{ℕ, ◌≡◌, refl, Bool, true, List, [], ◌∷◌, some, Bytes}
use g2mirror.Input.{offsets_ok, InputDelay, empty, push, pump, receive, refused, bad_offsets}
use g2mirror.Input.Contents.{
  Turn, types, wakes, finishes, run, SomeRefuses, accepted, Keeps, run-contents,
}

abbrev at_ms : ℕ → ℕ → ℕ
at_ms t n = t

abbrev open_pty : ℕ → Bool
open_pty n = true

abbrev hello : Bytes
hello = b'h' ∷ b'e' ∷ b'l' ∷ b'l' ∷ b'o' ∷ []

abbrev pauses : List InputDelay
pauses = record { at = 2; ms = 50 } ∷ record { at = 4; ms = 9000 } ∷ []

abbrev turns : List Turn
turns =
    types hello pauses (at_ms 100) open_pty
    ∷ types (b'!' ∷ []) [] (at_ms 120) open_pty
    ∷ wakes (at_ms 150) open_pty
    ∷ []

-- The second message waits behind the pauses of the first.
queued :
    run empty turns
    ≡ finishes
        (b'h' ∷ b'e' ∷ b'l' ∷ b'l' ∷ [])
        (record { queue = (1000, b'o' ∷ []) ∷ (0, b'!' ∷ []) ∷ []; due = some 1150 })
unfolding run empty receive offsets_ok push pump
queued = refl

backwards :
    receive
      (at_ms 0)
      open_pty
      empty
      hello
      (record { at = 4; ms = 1 } ∷ record { at = 2; ms = 1 } ∷ [])
    ≡ refused bad_offsets
unfolding receive offsets_ok
backwards = refl

run-contents_example : Keeps empty (accepted turns) (SomeRefuses turns) (run empty turns)
run-contents_example = run-contents empty turns

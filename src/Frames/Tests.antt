-- ===== src/Frames/Tests.antt =====
-- A stream in two cuts.
use g2mirror.Prelude.{◌≡◌, refl, List, [], ◌∷◌, Bytes, arith, ascii, ◌++◌}
use g2mirror.Frames.{all_lines, next_line, pop, first_line}
use g2mirror.Frames.Chunks.{lines_of, concat, all_lines-lines_of}

-- `ab`, an empty line, `c`, and a line that does not end.
abbrev cut : List Bytes
cut = ascii "a" ∷ ascii "b\n\nc" ∷ ascii "\nd" ∷ []

read : all_lines 10 cut [] ≡ ascii "ab" ∷ ascii "c" ∷ []
unfolding all_lines next_line pop first_line
read = refl

all_lines-lines_of_example : all_lines 10 cut [] ≡ lines_of [] ([] ++ concat cut)
all_lines-lines_of_example =
    all_lines-lines_of 10 cut [] (λ e. absurd cc, (λ e. absurd cc, (λ e. absurd cc, tt)))
      (omega arith)

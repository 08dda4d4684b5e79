-- ===== src/History/Tests.antt =====
-- Runs of src/history.rs, and the theorems at concrete inputs.
use g2mirror.Prelude.{ℕ, ◌≡◌, refl, false, List, [], ◌∷◌, some, arith, length, ◌-◌, ◌+◌}
use g2mirror.History.{
  History, HistoryRecord, new, push, set_max_lines, oldest, fetch, fetch_end, tail,
  reply_byte_budget,
}
use g2mirror.History.Log.{Holds, Use, pushes, limits, run, pushed, run-new-Holds}
use g2mirror.History.Fetch.{Returns, fetch-Returns}
use g2mirror.History.Paging.{read_back, read_back-lines}

abbrev line : ℕ → HistoryRecord
line n = record { bytes = n ∷ []; width = 80; wrapped = false }

abbrev uses : List Use
uses =
    pushes (line 0)
    ∷ pushes (line 1)
    ∷ pushes (line 2)
    ∷ pushes (line 3)
    ∷ limits 3
    ∷ pushes (line 4)
    ∷ []

abbrev three : History
three = run (new 5) uses

three-lines : three.lines ≡ line 2 ∷ line 3 ∷ line 4 ∷ []
unfolding new push set_max_lines
three-lines = refl

-- `indices_are_stable_across_eviction` of the source's tests.
evicted : fetch three 5 10 ≡ some (2, line 2 ∷ line 3 ∷ line 4 ∷ [])
unfolding new push set_max_lines fetch
evicted = refl

clamped : fetch three 999 2 ≡ some (3, line 3 ∷ line 4 ∷ [])
unfolding new push set_max_lines fetch
clamped = refl

tail_two : tail three 2 ≡ line 3 ∷ line 4 ∷ []
unfolding new push set_max_lines tail
tail_two = refl

three-Holds : Holds (pushed uses) three
three-Holds = (run-new-Holds 5 uses (omega arith)).0

run-new-Holds_example :
    Holds (pushed uses) three
    × (oldest three ≡ length (pushed uses) - length three.lines)
    × (three.max_lines ≡ 3)
    × (length three.lines ≡ 3)
run-new-Holds_example = run-new-Holds 5 uses (omega arith)

oldest-three : oldest three ≡ 2
unfolding new push set_max_lines oldest
oldest-three = refl

fetch-Returns_example : Returns three 2 reply_byte_budget (fetch_end three 4) (fetch three 4 2)
fetch-Returns_example = fetch-Returns 4 2 three-Holds (omega arith)

read_back-lines_example : read_back (length three.lines + 1) three 2 three.next [] ≡ three.lines
read_back-lines_example = read_back-lines 2 three-Holds (omega arith) (omega arith)

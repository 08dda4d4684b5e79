-- ===== src/History.antt =====
-- The scrollback archive of src/history.rs: an append-only sequence of lines with stable indices,
-- of which the newest `max_lines` are retained.
pub mod Log
pub mod Fetch
pub mod Paging
mod Tests
use g2mirror.Prelude.{
  is_empty, ℕ, zero, suc, ◌+◌, ◌-◌, ◌*◌, ◌%◌, min, max, Bool, true, false, not, ◌&&◌, Option, none,
  some, List, [], ◌∷◌, ◌++◌, Bytes, length, get_elem?, drop, ltb, if◌then◌else◌, u32_mod, u64_mod,
}

abbrev pub default_max_lines : ℕ
default_max_lines = 10_000

-- Cap on one line's stored bytes.
abbrev pub max_line_bytes : ℕ
max_line_bytes = 64 * 1024

-- Byte budget of one history reply.
abbrev pub reply_byte_budget : ℕ
reply_byte_budget = 192 * 1024

abbrev pub default_fetch_limit : ℕ
default_fetch_limit = 500

pub record HistoryRecord : Type 0 where
  pub bytes : Bytes
  pub width : ℕ
  pub wrapped : Bool

-- `next` is a u64, the index of the next line appended.
pub record History : Type 0 where
  pub lines : List HistoryRecord
  pub next : ℕ
  pub max_lines : ℕ

unfoldable pub new : ℕ → History
new max_lines = record { lines = []; next = 0; max_lines = max_lines }

-- `while self.lines.len() > self.max_lines { self.lines.pop_front(); }`
unfoldable pub trim : ℕ → List HistoryRecord → List HistoryRecord
trim max_lines [] = []
trim max_lines (r ∷ rs) = if ltb max_lines (length (r ∷ rs)) then trim max_lines rs else r ∷ rs

unfoldable pub set_max_lines : History → ℕ → History
unfolding trim
set_max_lines h max_lines = record h { lines = trim max_lines h.lines; max_lines = max_lines }

unfoldable pub push : History → HistoryRecord → History
unfolding trim
push h r = record h { lines = trim h.max_lines (h.lines ++ r ∷ []); next = (h.next + 1) % u64_mod }

unfoldable pub next_index : History → ℕ
next_index h = h.next

-- `self.next - self.lines.len() as u64`
unfoldable pub oldest : History → ℕ
oldest h = (h.next + u64_mod - length h.lines) % u64_mod

-- The newest `count` lines, oldest first.
unfoldable pub tail : History → ℕ → List HistoryRecord
tail h count = drop (length h.lines - count) h.lines

-- The loop of `fetch`. The head of `collected` is the end of the source's vector, so that the
-- final `reverse` is the list as it stands. `none` is an index out of range, or fuel run out.
fetch_loop : ℕ → History → ℕ → ℕ → ℕ → List HistoryRecord → Option (ℕ × List HistoryRecord)
unfolding oldest
fetch_loop zero h limit index budget collected = none
fetch_loop (suc f) h limit index budget collected =
    if ltb (oldest h) index && ltb (length collected % u32_mod) limit
    then elim (get_elem? h.lines (index - 1 - oldest h)) [
      | none ↦ none
      | some r ↦
          let rest = fetch_loop f h limit (index - 1) (budget - length r.bytes) (r ∷ collected) in
          if not (is_empty collected) && ltb budget (length r.bytes)
          then some (index, collected)
          else rest
    ]
    else some (index, collected)

-- `before.min(self.next).max(self.oldest())`
pub fetch_end : History → ℕ → ℕ
unfolding oldest
fetch_end h before = max (min before h.next) (oldest h)

-- The index of the first line returned, and the lines, oldest first.
pub fetch : History → ℕ → ℕ → Option (ℕ × List HistoryRecord)
unfolding fetch_loop fetch_end
fetch h before limit =
    fetch_loop (length h.lines + 1) h limit (fetch_end h before) reply_byte_budget []

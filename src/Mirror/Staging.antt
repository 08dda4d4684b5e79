-- ===== src/Mirror/Staging.antt =====
-- The capture of scrolled-off rows in src/mirror.rs: `park`, `harvest`, `archive_staged_rows` and
-- `flush_history_for_rebuild`.
use g2mirror.Prelude.{
  ℕ, zero, suc, ◌+◌, ◌-◌, min, true, false, ◌&&◌, List, [], ◌∷◌, is_empty, ltb, if◌then◌else◌,
  u64_mod,
}
use g2mirror.History.{History, HistoryRecord, push}
use g2mirror.Screen.{Vt100}
use g2mirror.Screen.Serialize.{serialize_row}
use g2mirror.Mirror.State.{Mirror}

abbrev pub usize_max : ℕ
usize_max = u64_mod - 1

-- `for record in records { self.history.push(record) }`
unfoldable pub push_all : List HistoryRecord → History → History
push_all [] h = h
push_all (r ∷ rs) h = push_all rs (push h r)

-- `records.iter().rposition(|r| !r.bytes.is_empty())`, one more: how many records there are up to
-- the last that is not blank.
unfoldable pub nonblank_prefix : List HistoryRecord → List HistoryRecord
nonblank_prefix [] = []
nonblank_prefix (r ∷ rs) =
    let rest = nonblank_prefix rs in if is_empty r.bytes && is_empty rest then [] else r ∷ rest

module _ (vt : Vt100) where
  -- The number of staged rows: the offset that is left of the largest one.
  abbrev pub staged : vt.Term → vt.Term × ℕ
  staged t = let t' = vt.set_scrollback usize_max t in (t', vt.scrollback t')

  -- The records of `n` visible rows from `row` on.
  unfoldable pub serialize_rows : vt.Term → ℕ → ℕ → ℕ → List HistoryRecord
  unfolding serialize_row
  serialize_rows t cols row zero = []
  serialize_rows t cols row (suc n) =
      serialize_row (vt.row t row) cols ∷ serialize_rows t cols (suc row) n

  unfoldable pub park : Mirror vt → Mirror vt
  park m =
      let (t, len) = staged m.parser in
      if vt.alternate_screen m.parser
      then m
      else (if m.parked
          then m
          else (if ltb 0 len
              then record m { parser = vt.set_scrollback 1 t; parked = true }
              else record m { parser = vt.set_scrollback 0 t }))

  -- The loop of `archive_staged_rows`, on fuel. Each round archives a row at least, if the screen
  -- has one; with none, the source would not end.
  unfoldable pub archive_loop : ℕ → ℕ → ℕ → ℕ → vt.Term → History → vt.Term × History
  unfolding push_all serialize_rows
  archive_loop zero rows cols remaining t h = (t, h)
  archive_loop (suc f) rows cols remaining t h =
      let t' = vt.set_scrollback remaining t in
      let window = min remaining rows in
      let rest =
        archive_loop f rows cols (remaining - window) t'
          (push_all (serialize_rows t' cols 0 window) h) in
      if ltb 0 remaining then rest else (t, h)

  unfoldable pub archive_staged_rows : Mirror vt → ℕ → Mirror vt
  unfolding archive_loop
  archive_staged_rows m count =
      let (rows, cols) = vt.size m.parser in
      let (t, len) = staged m.parser in
      let remaining = min count len in
      let (t', h) =
        archive_loop (remaining + 1) rows cols remaining (vt.set_scrollback 0 t) m.history in
      record m { parser = t'; history = h }

  -- The rows scrolled off since the last harvest, and the terminal after the count.
  unfoldable pub new_rows : Mirror vt → vt.Term × ℕ
  new_rows m =
      let (t, len) = staged m.parser in
      if m.parked then (m.parser, vt.scrollback m.parser - 1) else (t, len - m.staged_seen)

  -- They are archived, if there are any.
  unfoldable pub archive_new : Mirror vt → Mirror vt
  unfolding new_rows archive_staged_rows
  archive_new m =
      let (t, count) = new_rows m in
      let counted : Mirror vt = record m { parser = t; parked = false } in
      if ltb 0 count then archive_staged_rows counted count else counted

  unfoldable pub harvest : Mirror vt → Mirror vt
  unfolding archive_new
  harvest m =
      let (t, len) = staged (archive_new m).parser in
      if vt.alternate_screen m.parser
      then m
      else record (archive_new m) { parser = vt.set_scrollback 0 t; staged_seen = len }

  unfoldable pub flush_history_for_rebuild : Mirror vt → ℕ → Mirror vt
  unfolding harvest push_all nonblank_prefix serialize_rows
  flush_history_for_rebuild m keep_rows =
      let m' = harvest m in
      let (src_rows, src_cols) = vt.size m'.parser in
      let records = serialize_rows m'.parser src_cols 0 (src_rows - keep_rows) in
      let history =
        if vt.alternate_screen m'.parser
        then m'.history
        else push_all (nonblank_prefix records) m'.history in
      record m' { history = history; parked = false; staged_seen = 0 }

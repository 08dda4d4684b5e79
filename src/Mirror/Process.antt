-- ===== src/Mirror/Process.antt =====
-- `process` of src/mirror.rs: a chunk of the app's output, for the host and for the device.
use g2mirror.Prelude.{
  ℕ, zero, suc, ◌+◌, ◌-◌, ◌%◌, min, Bool, true, false, List, [], ◌∷◌, ◌++◌, Option, none, some,
  Bytes, length, take, drop, ltb, if◌then◌else◌, u64_mod,
}
use g2mirror.Prelude.Decimal.{decimal}
use g2mirror.History.{History, HistoryRecord, next_index, tail}
use g2mirror.Screen.{Vt100}
use g2mirror.Screen.Render.{
  sgr_reset, hide_cursor, sync_begin, sync_end, cup, blank_screen, render_rows,
}
use g2mirror.Session.View.{View}
use g2mirror.Mirror.State.{
  Mirror, Output, process_slice, parse, region_offset, crop_top, take_bells, take_title_change,
}
use g2mirror.Mirror.Staging.{park, harvest}
use g2mirror.Mirror.HostSide.{newline, newlines}

-- `bytes.chunks(n)`, in at most as many steps as there are bytes.
unfoldable pub chunks_from : ℕ → ℕ → Bytes → List Bytes
chunks_from zero n bytes = []
chunks_from (suc f) n [] = []
chunks_from (suc f) n (b ∷ bs) = take n (b ∷ bs) ∷ chunks_from f n (drop n (b ∷ bs))

unfoldable pub chunks : ℕ → Bytes → List Bytes
unfolding chunks_from
chunks n bytes = chunks_from (length bytes) n bytes

-- `self.history.next_index() - history_before`
abbrev pub pushed_since : History → History → ℕ
pushed_since before now = (next_index now + u64_mod - next_index before) % u64_mod

-- The archived lines as flowing text.
unfoldable pub flow_from : Bool → List HistoryRecord → Bytes
flow_from first [] = []
flow_from first (r ∷ rs) =
    (if first then [] else newline) ++ r.bytes ++ sgr_reset ++ flow_from false rs

module _ (vt : Vt100) where
  -- `self.park(); self.parser.process(slice); self.harvest();`
  unfoldable pub process_slices : List Bytes → Mirror vt → Mirror vt
  unfolding park harvest
  process_slices [] m = m
  process_slices (slice ∷ slices) m =
      process_slices slices (harvest vt (parse vt (park vt m) slice))

  -- The scroll of the host's screen by which new lines enter the zone.
  unfoldable pub scroll_host : Mirror vt → View → ℕ → Bytes
  unfolding cup region_offset flow_from newlines
  scroll_host m v scrolled =
      let region_rows = min v.rows m.host_rows in
      sync_begin
      ++ hide_cursor
      ++ sgr_reset
      ++ cup (region_offset vt m) 0
      ++ 0x1b ∷ b'[' ∷ decimal region_rows
      ++ b'M' ∷ flow_from true (tail m.history scrolled)
      ++ cup (m.host_rows - 1) 0
      ++ newlines (min scrolled region_rows)
      ++ sync_end

  -- The part for a view, with the shadow and the lines that scrolled off.
  unfoldable pub process_view : Mirror vt → View → vt.Term → Bytes → ℕ → Mirror vt × Output
  unfolding scroll_host render_rows take_bells take_title_change region_offset crop_top
  process_view m v shadow bytes scrolled =
      let (m1, bells) = take_bells vt m in
      let (m2, title) = take_title_change vt m1 in
      let (rows, cols) = vt.size m.parser in
      let moved = ltb 0 scrolled in
      let prev = if moved then blank_screen vt rows cols else shadow in
      (
        record m2 {
          shadow = some (vt.process shadow bytes);
          zone_dirty = if moved then true else m.zone_dirty;
        },
        record {
          host =
              (if moved then scroll_host m v scrolled else [])
              ++ render_rows vt m.parser prev m.host_rows m.host_cols moved (region_offset vt m)
                  (crop_top vt m)
              ++ (elim title [ none ↦ [] | some t ↦ 0x1b ∷ b']' ∷ b'2' ∷ b';' ∷ t ++ 0x07 ∷ [] ]);
          remote = some (vt.state_diff m.parser shadow);
          bells = bells;
          title = title;
        },
      )

  unfoldable pub pass_through : Mirror vt → Bytes → Mirror vt × Output
  unfolding take_bells take_title_change
  pass_through m bytes =
      let (m1, bells) = take_bells vt m in
      let (m2, title) = take_title_change vt m1 in
      (m2, record { host = bytes; remote = none; bells = bells; title = title })

  -- The mirror after a chunk, and the output; `none`: the shadow that is expected is not there.
  unfoldable pub process_shadow :
      Mirror vt → Option View → Option vt.Term → Bytes → ℕ → Option (Mirror vt × Output)
  unfolding process_view pass_through
  process_shadow m none shadow bytes scrolled = some (pass_through m bytes)
  process_shadow m (some v) none bytes scrolled = none
  process_shadow m (some v) (some shadow) bytes scrolled =
      some (process_view m v shadow bytes scrolled)

  unfoldable pub process : Mirror vt → Bytes → Option (Mirror vt × Output)
  unfolding process_slices process_shadow chunks
  process m bytes =
      let m' = process_slices (chunks process_slice bytes) m in
      process_shadow m' m'.view m'.shadow bytes (pushed_since m.history m'.history)

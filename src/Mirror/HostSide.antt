-- ===== src/Mirror/HostSide.antt =====
-- What `Mirror` of src/mirror.rs writes to the host's terminal besides the diffs: the rows pushed
-- into its scrollback, full repaints, and the clean-up at the end.
use g2mirror.Prelude.{
  ℕ, zero, suc, ◌+◌, ◌-◌, ◌==◌, min, true, not, ◌||◌, [], ◌∷◌, ◌++◌, Option, none, some, is_some,
  unwrap_or, Bytes, ltb, if◌then◌else◌,
}
use g2mirror.Screen.{Vt100}
use g2mirror.Screen.Serialize.{serialize_row}
use g2mirror.Screen.Render.{
  sgr_reset, clear_to_eol, hide_cursor, show_cursor, sync_begin, sync_end, cup, blank_screen,
  render_rows,
}
use g2mirror.Mirror.State.{Mirror, region_offset, crop_top}

abbrev pub newline : Bytes
newline = b'\r' ∷ b'\n' ∷ []

-- `b"\r\n".repeat(n)`
unfoldable pub newlines : ℕ → Bytes
newlines zero = []
newlines (suc n) = newline ++ newlines n

abbrev pub autowrap_off : Bytes
autowrap_off = 0x1b ∷ b'[' ∷ b'?' ∷ b'7' ∷ b'l' ∷ []

abbrev pub autowrap_on : Bytes
autowrap_on = 0x1b ∷ b'[' ∷ b'?' ∷ b'7' ∷ b'h' ∷ []

-- Application cursor keys and keypad, bracketed paste, mouse reporting: off.
abbrev pub reset_input_modes : Bytes
reset_input_modes =
    0x1b ∷ b'[' ∷ b'?' ∷ b'1' ∷ b'l' ∷ 0x1b ∷ b'>' ∷ 0x1b ∷ b'[' ∷ b'?' ∷ b'2' ∷ b'0' ∷ b'0' ∷ b'4'
    ∷ b'l' ∷ 0x1b ∷ b'[' ∷ b'?' ∷ b'1' ∷ b'0' ∷ b'0' ∷ b'0' ∷ b'l' ∷ 0x1b ∷ b'[' ∷ b'?' ∷ b'1'
    ∷ b'0' ∷ b'0' ∷ b'2' ∷ b'l' ∷ 0x1b ∷ b'[' ∷ b'?' ∷ b'1' ∷ b'0' ∷ b'0' ∷ b'3' ∷ b'l' ∷ 0x1b
    ∷ b'[' ∷ b'?' ∷ b'1' ∷ b'0' ∷ b'0' ∷ b'6' ∷ b'l' ∷ []

module _ (vt : Vt100) where
  -- The `n` rows of a batch: host row `i`, model row `pushed + i`.
  unfoldable pub paint_batch : vt.Term → ℕ → ℕ → ℕ → ℕ → Bytes
  unfolding cup serialize_row
  paint_batch t cols pushed i zero = []
  paint_batch t cols pushed i (suc n) =
      sgr_reset
      ++ cup i 0
      ++ clear_to_eol
      ++ (serialize_row (vt.row t (pushed + i)) cols).bytes
      ++ paint_batch t cols pushed (suc i) n

  -- `while pushed < crop { … }`. `none`: the fuel has run out.
  unfoldable pub push_batches : ℕ → vt.Term → ℕ → ℕ → ℕ → ℕ → Option Bytes
  unfolding paint_batch newlines
  push_batches zero t cols host_rows crop pushed = none
  push_batches (suc f) t cols host_rows crop pushed =
      let batch = min (crop - pushed) host_rows in
      let rest = push_batches f t cols host_rows crop (pushed + batch) in
      let round =
        paint_batch t cols pushed 0 batch ++ sgr_reset ++ cup (host_rows - 1) 0 ++ newlines batch in
      if ltb pushed crop
      then elim rest [ none ↦ none | some more ↦ some (round ++ more) ]
      else some []

  -- The fuel is enough if the host has a row; the source does not end with none.
  unfoldable pub push_crop_to_host_scrollback : Mirror vt → Bytes
  unfolding crop_top push_batches
  push_crop_to_host_scrollback m =
      let crop = crop_top vt m in
      let (rows, cols) = vt.size m.parser in
      if crop == 0
      then []
      else sync_begin
        ++ hide_cursor
        ++ autowrap_off
        ++ unwrap_or (push_batches (crop + 1) m.parser cols m.host_rows crop 0) []
        ++ autowrap_on
        ++ sync_end

  -- The history zone, if it has unsaved lines, scrolled out of the top of the host's screen.
  unfoldable pub push_zone_to_host_scrollback : Mirror vt → Bytes
  unfolding region_offset newlines cup
  push_zone_to_host_scrollback m =
      if not m.zone_dirty || region_offset vt m == 0
      then []
      else sgr_reset ++ cup (m.host_rows - 1) 0 ++ newlines (region_offset vt m)

  unfoldable pub render_host_full : Mirror vt → Bytes
  unfolding render_rows region_offset crop_top
  render_host_full m =
      let (rows, cols) = vt.size m.parser in
      render_rows vt m.parser (blank_screen vt rows cols) m.host_rows m.host_cols true
        (region_offset vt m) (crop_top vt m)

  unfoldable pub refresh_scrollback : Mirror vt → Bytes
  unfolding push_crop_to_host_scrollback render_host_full
  refresh_scrollback m =
      if is_some m.view then push_crop_to_host_scrollback m ++ render_host_full m else []

  unfoldable pub cleanup : Mirror vt → Bytes
  unfolding push_zone_to_host_scrollback cup
  cleanup m =
      if is_some m.view
      then push_zone_to_host_scrollback m
        ++ sgr_reset
        ++ show_cursor
        ++ reset_input_modes
        ++ cup (m.host_rows - 1) 0
        ++ newline
      else []

-- ===== src/Screen/Render.antt =====
-- Rendering: `cup`, `place_cursor`, `render_rows` and `render_snapshot` of src/mirror.rs. Rows and
-- columns are u16 values; arithmetic on them wraps around.
use g2mirror.Prelude.{
  ℕ, suc, ◌+◌, ◌-◌, ◌%◌, min, Bool, false, not, ◌&&◌, List, [], ◌∷◌, ◌++◌, Bytes, take, drop,
  is_empty, ltb, leb, if◌then◌else◌, u16_mod,
}
use g2mirror.Prelude.Decimal.{decimal}
use g2mirror.Screen.{Vt100}

abbrev pub clear : Bytes
clear = 0x1b ∷ b'[' ∷ b'0' ∷ b'm' ∷ 0x1b ∷ b'[' ∷ b'H' ∷ 0x1b ∷ b'[' ∷ b'2' ∷ b'J' ∷ []

abbrev pub sgr_reset : Bytes
sgr_reset = 0x1b ∷ b'[' ∷ b'0' ∷ b'm' ∷ []

abbrev pub clear_to_eol : Bytes
clear_to_eol = 0x1b ∷ b'[' ∷ b'K' ∷ []

abbrev pub hide_cursor : Bytes
hide_cursor = 0x1b ∷ b'[' ∷ b'?' ∷ b'2' ∷ b'5' ∷ b'l' ∷ []

abbrev pub show_cursor : Bytes
show_cursor = 0x1b ∷ b'[' ∷ b'?' ∷ b'2' ∷ b'5' ∷ b'h' ∷ []

abbrev pub sync_begin : Bytes
sync_begin = 0x1b ∷ b'[' ∷ b'?' ∷ b'2' ∷ b'0' ∷ b'2' ∷ b'6' ∷ b'h' ∷ []

abbrev pub sync_end : Bytes
sync_end = 0x1b ∷ b'[' ∷ b'?' ∷ b'2' ∷ b'0' ∷ b'2' ∷ b'6' ∷ b'l' ∷ []

unfoldable pub cup : ℕ → ℕ → Bytes
cup row col =
    0x1b ∷ b'[' ∷ decimal ((row + 1) % u16_mod) ++ b';' ∷ decimal ((col + 1) % u16_mod) ++ b'H' ∷ []

-- `.enumerate()`, counted from `i`.
abbrev pub enumerate {ℓ} : {A : Type ℓ} → ℕ → List A → List (ℕ × A)
enumerate i [] = []
enumerate i (x ∷ xs) = (i, x) ∷ enumerate (suc i) xs

-- What `diffs` has for the `rows` rows from `src_off` on.
unfoldable pub window : List Bytes → ℕ → ℕ → List (ℕ × Bytes)
window diffs src_off rows = take rows (drop src_off (enumerate 0 diffs))

-- `row_offset + i as u16 - src_off`
abbrev pub target_row : ℕ → ℕ → ℕ → ℕ
target_row row_offset src_off i = (row_offset + i + (u16_mod - src_off)) % u16_mod

-- The loop of `render_rows`.
unfoldable pub paint_rows : Bool → ℕ → ℕ → List (ℕ × Bytes) → Bytes
unfolding cup
paint_rows full row_offset src_off [] = []
paint_rows full row_offset src_off ((i, diff) ∷ rows) =
    (if full
      then sgr_reset ++ cup (target_row row_offset src_off i) 0 ++ clear_to_eol ++ diff
      else (if is_empty diff
          then []
          else sgr_reset ++ cup (target_row row_offset src_off i) 0 ++ diff))
    ++ paint_rows full row_offset src_off rows

module _ (vt : Vt100) where
  abbrev pub blank_screen : ℕ → ℕ → vt.Term
  blank_screen rows cols = vt.new rows cols 0

  unfoldable pub place_cursor : vt.Term → ℕ → ℕ → ℕ → ℕ → Bytes
  unfolding cup
  place_cursor screen src_off rows cols target_off =
      let (row, col) = vt.cursor_position screen in
      if not (vt.hide_cursor screen) && leb src_off row && ltb (row - src_off) rows && ltb col cols
      then cup (target_row target_off src_off row) col ++ show_cursor
      else []

  unfoldable pub render_rows : vt.Term → vt.Term → ℕ → ℕ → Bool → ℕ → ℕ → Bytes
  unfolding window paint_rows place_cursor
  render_rows screen prev host_rows host_cols full row_offset src_off =
      let (screen_rows, screen_cols) = vt.size screen in
      let rows = min host_rows (screen_rows - src_off) in
      let cols = min host_cols screen_cols in
      sync_begin
      ++ hide_cursor
      ++ paint_rows full row_offset src_off (window (vt.rows_diff screen prev 0 cols) src_off rows)
      ++ (if full then vt.input_mode_formatted screen else vt.input_mode_diff screen prev)
      ++ place_cursor screen src_off rows cols row_offset
      ++ sync_end

  -- The loop of `render_snapshot` is that of a diff, with no offset on the target.
  unfoldable pub render_snapshot : vt.Term → ℕ → ℕ → Bytes
  unfolding window paint_rows place_cursor
  render_snapshot src rows cols =
      let (src_rows, src_cols) = vt.size src in
      let row_off = src_rows - rows in
      let width = min cols src_cols in
      let blank = blank_screen src_rows src_cols in
      clear
      ++ sync_begin
      ++ hide_cursor
      ++ paint_rows false 0 row_off (window (vt.rows_diff src blank 0 width) row_off rows)
      ++ vt.input_mode_formatted src
      ++ place_cursor src row_off rows cols 0
      ++ sync_end

-- ===== src/Screen/Serialize.antt =====
-- `serialize_row` of src/mirror.rs: one visible row as a history record.
use g2mirror.Prelude.{
  ℕ, zero, suc, ◌+◌, Bool, false, not, ◌&&◌, ◌||◌, [], ◌∷◌, ◌++◌, Option, none, some, Bytes, length,
  leb, ◌==◌, if◌then◌else◌,
}
use g2mirror.History.{HistoryRecord, max_line_bytes}
use g2mirror.Screen.{Cell, Row}
use g2mirror.Screen.Style.{
  CellStyle, default_style, style_of, same_style, blank_is_invisible, emit_sgr,
}

abbrev pub is_space : Bytes → Bool
is_space [] = false
is_space (c ∷ []) = c == b' '
is_space (c ∷ d ∷ cs) = false

-- Contents, or a blank whose style shows.
unfoldable pub is_visible : Cell → Bool
is_visible c =
    (c.has_contents && not (is_space c.contents && same_style (style_of c) default_style))
    || (not c.has_contents && not (blank_is_invisible (style_of c)))

-- The first loop, over the `n` columns from `col` on: the last visible one, or `end`.
unfoldable pub last_visible : Row → ℕ → ℕ → Option ℕ → Option ℕ
unfolding is_visible
last_visible r zero col end = end
last_visible r (suc n) col end = elim (r.cell col) [
  | none ↦ end
  | some c ↦ last_visible r n (suc col) (if is_visible c then some col else end)
]

-- What one cell adds in the style that is in force.
unfoldable pub write_cell : CellStyle → Cell → Bytes → Bytes
unfolding emit_sgr
write_cell current c bytes =
    bytes
    ++ (if same_style (style_of c) current then [] else emit_sgr (style_of c))
    ++ (if c.has_contents then c.contents else b' ' ∷ [])

-- The second loop, over the `n` columns from `col` on.
unfoldable pub write_cells : Row → ℕ → ℕ → CellStyle → Bytes → Bytes
unfolding write_cell
write_cells r zero col current bytes = bytes
write_cells r (suc n) col current bytes = elim (r.cell col) [
  | none ↦ bytes
  | some c ↦
      let skipped = write_cells r n (suc col) current bytes in
      let bytes' = write_cell current c bytes in
      let more = write_cells r n (suc col) (style_of c) bytes' in
      if c.is_wide_continuation
      then skipped
      else (if leb max_line_bytes (length bytes') then bytes' else more)
]

unfoldable pub serialize_row : Row → ℕ → HistoryRecord
unfolding last_visible write_cells
serialize_row r width = record {
  bytes = elim (last_visible r width 0 none) [
    | none ↦ []
    | some end ↦ write_cells r (end + 1) 0 default_style []
  ];
  width = width;
  wrapped = r.wrapped;
}

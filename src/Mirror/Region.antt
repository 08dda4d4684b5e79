-- ===== src/Mirror/Region.antt =====
-- Where src/mirror.rs paints on the host: the live region is the bottom of its screen.
use g2mirror.Prelude.{
  ℕ, zero, suc, ◌+◌, ◌-◌, ◌<◌, ◌≡◌, refl, sym, ap, ◌∙◌, subst, min, true, List, [], ◌∷◌, ◌++◌, none,
  some, Bytes, length, take, drop, length-drop, take_all, ◌%◌, arith, u16_mod,
}
use g2mirror.Prelude.Decimal.{decimal}
use g2mirror.Screen.{Vt100}
use g2mirror.Screen.Laws.{SizeLaws}
use g2mirror.Screen.Render.{
  sgr_reset, clear_to_eol, hide_cursor, sync_begin, sync_end, cup, enumerate, window, target_row,
  paint_rows, place_cursor, blank_screen, render_rows,
}
use g2mirror.Session.View.{View}
use g2mirror.Mirror.State.{Mirror, region_offset, crop_top}
use g2mirror.Mirror.HostSide.{render_host_full}

-- Each row cleared and painted at a host row of its own, from `row` on, downwards.
abbrev pub rows_at : ℕ → List Bytes → Bytes
rows_at row [] = []
rows_at row (diff ∷ diffs) =
    (sgr_reset
      ++ (0x1b ∷ b'[' ∷ decimal (row + 1) ++ b';' ∷ decimal 1 ++ b'H' ∷ [])
      ++ clear_to_eol
      ++ diff)
    ++ rows_at (row + 1) diffs

enumerate-drop :
    (k i : ℕ) (diffs : List Bytes) → drop k (enumerate i diffs) ≡ enumerate (i + k) (drop k diffs)
enumerate-drop zero i diffs = let e : i + 0 ≡ i = omega arith in rw e refl
enumerate-drop (suc k) i [] = refl
enumerate-drop (suc k) i (d ∷ diffs) =
    let e : i + suc k ≡ suc i + k = omega arith in rw e (enumerate-drop k (suc i) diffs)

enumerate-take :
    (k i : ℕ) (diffs : List Bytes) → take k (enumerate i diffs) ≡ enumerate i (take k diffs)
enumerate-take zero i diffs = refl
enumerate-take (suc k) i [] = refl
enumerate-take (suc k) i (d ∷ diffs) = ap (◌∷◌ (i, d)) (enumerate-take k (suc i) diffs)

paint_rows-at :
    (row_offset src_off k : ℕ) (diffs : List Bytes)
    → src_off < u16_mod
    → row_offset + k + length diffs < u16_mod
    → paint_rows true row_offset src_off (enumerate (src_off + k) diffs)
      ≡ rows_at (row_offset + k) diffs
unfolding paint_rows cup
paint_rows-at row_offset src_off k [] s h = refl
paint_rows-at row_offset src_off k (diff ∷ diffs) s h =
    let row : (target_row row_offset src_off (src_off + k) + 1) % u16_mod ≡ row_offset + k + 1 =
      omega arith in
    let next : row_offset + (k + 1) ≡ row_offset + k + 1 = omega arith in
    let after : src_off + (k + 1) ≡ suc (src_off + k) = omega arith in
    let rest = paint_rows-at row_offset src_off (k + 1) diffs s (omega arith) in
    rw (row) (
      ap
        (λ bytes.
          (sgr_reset
            ++ (0x1b ∷ b'[' ∷ decimal (row_offset + k + 1) ++ b';' ∷ decimal 1 ++ b'H' ∷ [])
            ++ clear_to_eol
            ++ diff)
          ++ bytes)
        (subst
          (λ j.
            paint_rows true row_offset src_off (enumerate j diffs)
            ≡ rows_at (row_offset + k + 1) diffs)
          after
          (subst
            (λ j.
              paint_rows true row_offset src_off (enumerate (src_off + (k + 1)) diffs)
              ≡ rows_at j diffs)
            next rest)))

-- All rows from `src_off` on are in the window.
paint_rows-window :
    (row_offset src_off rows : ℕ) (diffs : List Bytes)
    → src_off < u16_mod
    → rows ≡ length (drop src_off diffs)
    → row_offset + length (drop src_off diffs) < u16_mod
    → paint_rows true row_offset src_off (window diffs src_off rows)
      ≡ rows_at row_offset (drop src_off diffs)
unfolding window
paint_rows-window row_offset src_off rows diffs s e h =
    let shown = drop src_off diffs in
    let all : take rows shown ≡ shown = take_all rows shown (omega arith) in
    let z : row_offset + 0 ≡ row_offset = omega arith in
    let first : src_off + 0 ≡ 0 + src_off = omega arith in
    ap (paint_rows true row_offset src_off) (
      ap (take rows) (enumerate-drop src_off 0 diffs)
      ∙ enumerate-take rows (0 + src_off) shown
      ∙ (λ i. enumerate (sym first i) (all i)))
    ∙ paint_rows-at row_offset src_off 0 shown s (omega arith)
    ∙ ap (λ j. rows_at j shown) z

module _ (vt : Vt100) (laws : SizeLaws vt) where
  crop_top-view :
      (m : Mirror vt) (v : View) → m.view ≡ some v → crop_top vt m ≡ v.rows - m.host_rows
  unfolding crop_top
  crop_top-view m v e = λ i. elim (e i) [ none ↦ 0 | some w ↦ w.rows - m.host_rows ]

  region_offset-view :
      (m : Mirror vt) (v : View)
      → m.view ≡ some v
      → region_offset vt m ≡ m.host_rows - min v.rows m.host_rows
  unfolding region_offset
  region_offset-view m v e =
      λ i. m.host_rows - (elim (e i) [ none ↦ m.host_rows | some w ↦ min w.rows m.host_rows ])

  -- A full repaint of a view whose model has its size, on a host of fewer than 2^16 rows: the rows
  -- painted are the last ones of the model, as many as the host has or all of them; each is painted
  -- on a host row of its own, downwards from the top of the region; and the model's last row falls
  -- on the host's last row.
  pub render_host_full-region :
      (m : Mirror vt) (v : View)
      → m.view ≡ some v
      → vt.size m.parser ≡ (v.rows, v.cols)
      → m.host_rows < u16_mod
      → v.rows < u16_mod
      → (let offset = region_offset vt m in
          let blank = blank_screen vt (vt.size m.parser).0 (vt.size m.parser).1 in
          let diffs = vt.rows_diff m.parser blank 0 (min m.host_cols (vt.size m.parser).1) in
          let shown = drop (v.rows - m.host_rows) diffs in
          (render_host_full vt m
            ≡ sync_begin
              ++ hide_cursor
              ++ rows_at offset shown
              ++ vt.input_mode_formatted m.parser
              ++ place_cursor vt m.parser
                  (v.rows - m.host_rows)
                  (length shown)
                  (min m.host_cols (vt.size m.parser).1)
                  offset
              ++ sync_end)
          × (length shown ≡ min v.rows m.host_rows)
          × (offset + length shown ≡ m.host_rows))
  unfolding render_host_full render_rows
  render_host_full-region m v e s h k =
      let (screen_rows, screen_cols) = vt.size m.parser in
      let cols = min m.host_cols screen_cols in
      let diffs = vt.rows_diff m.parser (blank_screen vt screen_rows screen_cols) 0 cols in
      let offset = region_offset vt m in
      let crop = crop_top-view m v e in
      let model = ap (λ (q : ℕ × ℕ). q.0) s in
      let blank = blank_screen vt screen_rows screen_cols in
      let alike : (vt.size blank).0 ≡ screen_rows =
        ap (λ (q : ℕ × ℕ). q.0) (laws.size-new screen_rows screen_cols 0) in
      let count = laws.length-rows_diff m.parser blank 0 cols alike in
      let shown = drop (crop_top vt m) diffs in
      let size : length shown ≡ min v.rows m.host_rows =
        omega (arith, length-drop (crop_top vt m) diffs, count, model, crop) in
      let rows : min m.host_rows (screen_rows - crop_top vt m) ≡ length shown =
        omega (arith, size, model, crop) in
      let bottom : offset + length shown ≡ m.host_rows =
        omega (arith, size, region_offset-view m v e) in
      let painted =
        paint_rows-window offset (crop_top vt m) _ diffs (omega (arith, crop)) rows
          (omega (arith, bottom)) in
      let frame = λ (bytes : Bytes) (src n : ℕ).
        sync_begin
        ++ hide_cursor
        ++ bytes
        ++ vt.input_mode_formatted m.parser
        ++ place_cursor vt m.parser src n cols offset
        ++ sync_end in
      (
        (λ i. frame (painted i) (crop_top vt m) (rows i)) ∙ (λ i.
            frame (rows_at offset (drop (crop i) diffs)) (crop i) (length (drop (crop i) diffs))),
        subst (λ c. length (drop c diffs) ≡ min v.rows m.host_rows) crop size,
        subst (λ c. offset + length (drop c diffs) ≡ m.host_rows) crop bottom,
      )

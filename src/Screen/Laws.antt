-- ===== src/Screen/Laws.antt =====
-- What src/mirror.rs relies on of the vt100 crate: its sizes, its scrollback, and its diffs.
use g2mirror.Prelude.{
  ℕ, ◌+◌, ◌-◌, ◌<◌, min, ◌≡◌, true, false, List, [], ◌++◌, some, Bytes, length, get_elem?, drop,
}
use g2mirror.Screen.{Vt100, Row}

-- The last `n` elements.
abbrev pub newest {ℓ} : {A : Type ℓ} → ℕ → List A → List A
newest n xs = drop (length xs - n) xs

module _ (vt : Vt100) where
  -- A terminal has the size it was made with, or was last set to, and a diff between
  -- two of as many rows has those rows.
  pub record SizeLaws : Type 0 where
    pub size-new : (rows cols n : ℕ) → vt.size (vt.new rows cols n) ≡ (rows, cols)
    pub size-process : (t : vt.Term) (bytes : Bytes) → vt.size (vt.process t bytes) ≡ vt.size t
    pub size-set : (n : ℕ) (t : vt.Term) → vt.size (vt.set_scrollback n t) ≡ vt.size t
    pub size-set_size : (r c : ℕ) (t : vt.Term) → vt.size (vt.set_size r c t) ≡ (r, c)
    pub length-rows_diff :
        (t p : vt.Term) (a n : ℕ)
        → (vt.size p).0 ≡ (vt.size t).0
        → length (vt.rows_diff t p a n) ≡ (vt.size t).0

  -- The scrollback: its rows, the oldest first. An offset is cut to their number; scrolled back,
  -- the top of the window shows them.
  pub record StagingLaws : Type 1 where
    pub staged_rows : vt.Term → List Row
    pub staged_rows-set :
        (n : ℕ) (t : vt.Term) → staged_rows (vt.set_scrollback n t) ≡ staged_rows t
    pub alternate-set :
        (n : ℕ) (t : vt.Term) → vt.alternate_screen (vt.set_scrollback n t) ≡ vt.alternate_screen t
    pub scrollback-set :
        (n : ℕ) (t : vt.Term)
        → vt.alternate_screen t ≡ false
        → vt.scrollback (vt.set_scrollback n t) ≡ min n (length (staged_rows t))
    pub row_staged :
        (t : vt.Term) (i : ℕ)
        → vt.alternate_screen t ≡ false
        → i < vt.scrollback t
        → i < (vt.size t).0
        → get_elem? (staged_rows t) (length (staged_rows t) - vt.scrollback t + i)
          ≡ some (vt.row t i)
    -- Bytes that do not reset the terminal, and leave it on its primary screen, scroll rows off
    -- into the scrollback, which keeps the newest. An offset that is not at the end follows them.
    pub Quiet : vt.Term → Bytes → Type 0
    pub scrolled : vt.Term → Bytes → List Row
    pub capacity : vt.Term → ℕ
    pub capacity-new : (rows cols n : ℕ) → capacity (vt.new rows cols n) ≡ n
    pub capacity-set : (n : ℕ) (t : vt.Term) → capacity (vt.set_scrollback n t) ≡ capacity t
    pub capacity-process :
        (t : vt.Term) (bytes : Bytes) → capacity (vt.process t bytes) ≡ capacity t
    pub alternate-process :
        (t : vt.Term) (bytes : Bytes)
        → Quiet t bytes
        → vt.alternate_screen (vt.process t bytes) ≡ false
    pub staged_rows-process :
        (t : vt.Term) (bytes : Bytes)
        → Quiet t bytes
        → staged_rows (vt.process t bytes) ≡ newest (capacity t) (staged_rows t ++ scrolled t bytes)
    pub scrollback-follows :
        (t : vt.Term) (bytes : Bytes)
        → Quiet t bytes
        → 0 < vt.scrollback t
        → vt.scrollback (vt.process t bytes)
          ≡ min
              (vt.scrollback t + length (scrolled t bytes))
              (length (staged_rows (vt.process t bytes)))

  -- `Same`: the same state but for the scrollback. `Looks d t`: the terminal `d` shows the screen
  -- of `t`, and is ready for a new sequence.
  pub record DiffLaws : Type 1 where
    pub Same : vt.Term → vt.Term → Type 0
    pub Looks : vt.Term → vt.Term → Type 0
    pub same_refl : (t : vt.Term) → Same t t
    pub same_sym : (s t : vt.Term) → Same s t → Same t s
    pub same_trans : (s t u : vt.Term) → Same s t → Same t u → Same s u
    pub same-new : (rows cols n k : ℕ) → Same (vt.new rows cols n) (vt.new rows cols k)
    pub same-process :
        (s t : vt.Term) (bytes : Bytes) → Same s t → Same (vt.process s bytes) (vt.process t bytes)
    pub same-set : (n : ℕ) (t : vt.Term) → Same (vt.set_scrollback n t) t
    pub process-nil : (t : vt.Term) → Same (vt.process t []) t
    pub process-append :
        (t : vt.Term) (a b : Bytes) → Same (vt.process (vt.process t a) b) (vt.process t (a ++ b))
    pub looks-same : (d s t : vt.Term) → Looks d s → Same s t → Looks d t
    pub scrollback-new : (rows cols n : ℕ) → vt.scrollback (vt.new rows cols n) ≡ 0
    pub scrollback-process :
        (t : vt.Term) (bytes : Bytes) → vt.scrollback t ≡ 0 → vt.scrollback (vt.process t bytes) ≡ 0
    pub scrollback-set_zero : (t : vt.Term) → vt.scrollback (vt.set_scrollback 0 t) ≡ 0
    pub scrollback-alternate : (t : vt.Term) → vt.alternate_screen t ≡ true → vt.scrollback t ≡ 0
    pub looks-state_diff :
        (d t prev : vt.Term)
        → vt.scrollback t ≡ 0
        → vt.scrollback prev ≡ 0
        → vt.size t ≡ vt.size prev
        → Looks d prev
        → Looks (vt.process d (vt.state_diff t prev)) t

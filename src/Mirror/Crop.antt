-- ===== src/Mirror/Crop.antt =====
-- The loop of `push_crop_to_host_scrollback` of src/mirror.rs: it ends, and each hidden row is
-- painted once, in order, and scrolled out of the host's screen.
use g2mirror.Prelude.{
  ℕ, zero, suc, ◌+◌, ◌-◌, ◌≤◌, ◌<◌, ◌≡◌, refl, subst, ap, ◌∙◌, min, length, get_elem?, List, [],
  ◌∷◌, ◌++◌, some, Bytes, ltb, Bool-cases, inl, inr, arith,
}
use g2mirror.Screen.{Vt100}
use g2mirror.Screen.Render.{sgr_reset, clear_to_eol, cup}
use g2mirror.Screen.Serialize.{serialize_row}
use g2mirror.History.{HistoryRecord}
use g2mirror.Mirror.HostSide.{newlines, paint_batch, push_batches}

-- The records painted on the host's rows from `i` on, each at the start of its row.
abbrev pub paint_rows : ℕ → List HistoryRecord → Bytes
paint_rows i [] = []
paint_rows i (r ∷ rs) = sgr_reset ++ cup i 0 ++ clear_to_eol ++ r.bytes ++ paint_rows (suc i) rs

-- That many line feeds.
pub data Feeds : ℕ → Bytes → Type 0 where
  no_feed : Feeds 0 []
  feed : (n : ℕ) (rest : Bytes) → Feeds n rest → Feeds (suc n) (b'\r' ∷ b'\n' ∷ rest)

newlines-Feeds : (n : ℕ) → Feeds n (newlines n)
unfolding newlines
newlines-Feeds zero = no_feed
newlines-Feeds (suc n) = feed n _ (newlines-Feeds n)

module _ (vt : Vt100) (t : vt.Term) (cols : ℕ) where
  -- The records of the model's `n` rows from the row `first` on, in order.
  abbrev pub AreRows : ℕ → ℕ → List HistoryRecord → Type 0
  AreRows first n rs =
      (length rs ≡ n)
      × ((k : ℕ) → k < n → get_elem? rs k ≡ some (serialize_row (vt.row t (first + k)) cols))

  paint_batch-rows :
      (pushed i n : ℕ)
      → (rs : List HistoryRecord) × AreRows (pushed + i) n rs
        × (paint_batch vt t cols pushed i n ≡ paint_rows i rs)
  unfolding paint_batch
  paint_batch-rows pushed i zero = ([], (refl, λ k lt. elim lt [ ]), refl)
  paint_batch-rows pushed i (suc n) =
      let (rs, (len, rows), e) = paint_batch-rows pushed (suc i) n in
      let r = serialize_row (vt.row t (pushed + i)) cols in
      (r ∷ rs, (ap suc len, from_first r rs rows), rw e refl)
    where
      from_first :
          (r : HistoryRecord) (rs : List HistoryRecord)
          → ((k : ℕ)
              → k < n
              → get_elem? rs k ≡ some (serialize_row (vt.row t (pushed + suc i + k)) cols))
          → (k : ℕ) → k < suc n
          → get_elem? (serialize_row (vt.row t (pushed + i)) cols ∷ rs) k
            ≡ some (serialize_row (vt.row t (pushed + i + k)) cols)
      from_first r rs rows zero lt =
          let e : pushed + i ≡ pushed + i + 0 = omega arith in
          ap (λ j. some (serialize_row (vt.row t j) cols)) e
      from_first r rs rows (suc k) lt =
          let e : pushed + suc i + k ≡ pushed + i + suc k = omega arith in
          rows k (omega (arith, lt)) ∙ ap (λ j. some (serialize_row (vt.row t j) cols)) e

module _ (vt : Vt100) (t : vt.Term) (cols host_rows crop : ℕ) where
  -- The bytes paint the model's rows from `pushed` to `crop`, in batches: each has a row, fits the
  -- host's screen from its top, starts where the one before it ended, and is followed by as many
  -- line feeds on the host's last row as it has rows.
  pub data Pushes : ℕ → Bytes → Type 0 where
    finished : Pushes crop []
    batch :
        (pushed n : ℕ) (rs : List HistoryRecord) (feeds rest : Bytes)
        → 0 < n
        → n ≤ host_rows
        → pushed + n ≤ crop
        → AreRows vt t cols pushed n rs
        → Feeds n feeds
        → Pushes (pushed + n) rest
        → Pushes pushed ((paint_rows 0 rs ++ sgr_reset ++ cup (host_rows - 1) 0 ++ feeds) ++ rest)

  -- With a host that has a row, from any row up to `crop`, the loop ends: any fuel above the number of rows that are left is
  -- enough, and what is written pushes exactly the model's rows from `pushed` to `crop`, each once
  -- and in order.
  pub push_batches-Pushes :
      (f pushed : ℕ)
      → 0 < host_rows
      → pushed ≤ crop
      → crop - pushed < f
      → (bytes : Bytes) × (push_batches vt f t cols host_rows crop pushed ≡ some bytes)
        × Pushes pushed bytes
  unfolding push_batches
  push_batches-Pushes zero pushed p le lt = elim lt [ ]
  push_batches-Pushes (suc f) pushed p le lt = elim (Bool-cases (ltb pushed crop)) [
    | inl more ↦
        let n = min (crop - pushed) host_rows in
        let below : pushed < crop = ground arith in
        let (rest, e, pushes) = push_batches-Pushes f (pushed + n) p (omega arith) (omega arith) in
        let here : pushed + 0 ≡ pushed = omega arith in
        let (rs, rows, painted) = paint_batch-rows vt t cols pushed 0 n in
        (
          (paint_rows 0 rs ++ sgr_reset ++ cup (host_rows - 1) 0 ++ newlines n) ++ rest,
          rw (more, e, painted) refl,
          batch pushed n rs (newlines n) rest (omega arith) (omega arith) (omega arith)
              (subst (λ j. AreRows vt t cols j n rs) here rows) (newlines-Feeds n) pushes,
        )
    | inr done ↦
        let e : crop ≡ pushed = ground arith in
        ([], rw done refl, subst (λ k. Pushes k []) e finished)
  ]

-- ===== src/History/Fetch.antt =====
-- What `fetch` of src/history.rs returns, on every branch of its loop.
use g2mirror.Prelude.{
  ℕ, zero, suc, ◌+◌, ◌-◌, ◌%◌, ◌≤◌, ◌<◌, max, ◌≡◌, ◌⊎◌, refl, sym, ap, ◌∙◌, true, false, not, ◌&&◌,
  List, [], ◌∷◌, ◌++◌, Option, some, arith, length, drop, get_elem?, get_elem?_lt, drop_step, ltb,
  Bool-cases, inl, inr, u32_mod, if◌then◌else◌, drop-drop,
}
use g2mirror.History.{
  History, HistoryRecord, oldest, is_empty, fetch_loop, fetch_end, fetch, reply_byte_budget,
}
use g2mirror.History.Log.{Holds, oldest_lem, length-lines-le, lines_drop}

-- The bytes of some lines, and of the last one.
abbrev pub size : List HistoryRecord → ℕ
size [] = 0
size (r ∷ rs) = length r.bytes + size rs

abbrev pub newest_size : List HistoryRecord → ℕ
newest_size [] = 0
newest_size (r ∷ []) = length r.bytes
newest_size (r ∷ s ∷ rs) = newest_size (s ∷ rs)

-- A page of the archive that ends before line `last`.
pub record IsPage (h : History) (limit budget last start : ℕ) (rs : List HistoryRecord)
    : Type 0 where
  pub low : oldest h ≤ start
  pub count : start + length rs ≡ last
  pub slice : drop (start - oldest h) h.lines ≡ rs ++ drop (last - oldest h) h.lines
  pub within_limit : length rs ≤ limit
  pub within_budget : size rs ≤ max budget (newest_size rs)

-- Why the page stops where it does: the archive's start, the limit, or a line over budget.
abbrev pub IsFull : History → ℕ → ℕ → ℕ → List HistoryRecord → Type 0
IsFull h limit budget start rs =
    (start ≡ oldest h)
    ⊎ (length rs ≡ limit)
    ⊎ ((r : HistoryRecord) × (get_elem? h.lines (start - 1 - oldest h) ≡ some r)
        × (budget < length r.bytes + size rs)
        × (0 < length rs))

abbrev pub Returns : History → ℕ → ℕ → ℕ → Option (ℕ × List HistoryRecord) → Type 0
Returns h limit budget last result =
    (start : ℕ) × (rs : List HistoryRecord) × (result ≡ some (start, rs))
    × IsPage h limit budget last start rs
    × IsFull h limit budget start rs

module _ (h : History) (limit budget last : ℕ) (u32 : limit < u32_mod)
    (top : last ≤ oldest h + length h.lines) where
  IsPage-cons :
      (index : ℕ) (r : HistoryRecord) (rs : List HistoryRecord)
      → IsPage h limit budget last index rs
      → oldest h < index
      → get_elem? h.lines (index - 1 - oldest h) ≡ some r
      → length rs < limit
      → (not (is_empty rs) && ltb (budget - size rs) (length r.bytes)) ≡ false
      → IsPage h limit budget last (index - 1) (r ∷ rs)
  IsPage-cons index r rs p lo e l t = record {
    low = omega arith;
    count = omega (arith, p.count);
    slice =
        let s : suc (index - 1 - oldest h) ≡ index - oldest h = omega arith in
        drop_step h.lines (index - 1 - oldest h) e
        ∙ ap (λ k. r ∷ drop k h.lines) s
        ∙ ap (◌∷◌ r) p.slice;
    within_limit = omega arith;
    within_budget = budget_cons rs p.within_budget t;
  }
    where
      budget_cons :
          (rs : List HistoryRecord)
          → size rs ≤ max budget (newest_size rs)
          → (not (is_empty rs) && ltb (budget - size rs) (length r.bytes)) ≡ false
          → size (r ∷ rs) ≤ max budget (newest_size (r ∷ rs))
      budget_cons [] w t = omega arith
      budget_cons (s ∷ rs) w t = ground arith

  -- One round whose line is in reach, given what the next round returns.
  round-Returns :
      (index : ℕ) (rs : List HistoryRecord) (r : HistoryRecord)
      (rest : ℕ → Option (ℕ × List HistoryRecord))
      → IsPage h limit budget last index rs
      → oldest h < index
      → length rs < limit
      → get_elem? h.lines (index - 1 - oldest h) ≡ some r
      → (IsPage h limit budget last (index - 1) (r ∷ rs)
          → Returns h limit budget last (rest (budget - size (r ∷ rs))))
      → Returns h limit budget last (
          if not (is_empty rs) && ltb (budget - size rs) (length r.bytes)
          then some (index, rs)
          else rest (budget - size rs - length r.bytes))
  round-Returns index rs r rest p lo room e continues =
      elim (Bool-cases (not (is_empty rs) && ltb (budget - size rs) (length r.bytes))) [
        | inl over ↦
            rw over (index, rs, refl, p, inr (inr (r, e, (exceeds rs over).0, (exceeds rs over).1)))
        | inr fits ↦
            let b : budget - size rs - length r.bytes ≡ budget - size (r ∷ rs) = omega arith in
            rw (fits, b) (continues (IsPage-cons index r rs p lo e room fits))
      ]
    where
      exceeds :
          (rs : List HistoryRecord)
          → (not (is_empty rs) && ltb (budget - size rs) (length r.bytes)) ≡ true
          → (budget < length r.bytes + size rs) × (0 < length rs)
      exceeds [] over = cc
      exceeds (s ∷ rs) over = ground arith

  fetch_loop-Returns :
      (f index : ℕ) (rs : List HistoryRecord)
      → IsPage h limit budget last index rs
      → index - oldest h < f
      → Returns h limit budget last (fetch_loop f h limit index (budget - size rs) rs)
  unfolding fetch_loop
  fetch_loop-Returns zero index rs p b = absurd (omega arith)
  fetch_loop-Returns (suc f) index rs p b =
      elim (Bool-cases (ltb (oldest h) index && ltb (length rs % u32_mod) limit)) [
        | inr stop ↦ (index, rs, rw stop, p, stopped stop)
        | inl go ↦
            let lo : oldest h < index = ground arith in
            let inside : index - 1 - oldest h < length h.lines = omega (arith, p.count) in
            let (r, e) = get_elem?_lt h.lines (index - 1 - oldest h) inside in
            rw (go, e)
              (round-Returns index rs r (λ b'. fetch_loop f h limit (index - 1) b' (r ∷ rs)) p lo
                (room go) e (λ q. fetch_loop-Returns f (index - 1) (r ∷ rs) q (omega arith)))
      ]
    where
      room : (ltb (oldest h) index && ltb (length rs % u32_mod) limit) ≡ true → length rs < limit
      room go = let w = p.within_limit in ground arith

      stopped :
          (ltb (oldest h) index && ltb (length rs % u32_mod) limit) ≡ false
          → IsFull h limit budget index rs
      stopped stop = let w = p.within_limit in let l = p.low in ground arith

-- Where a fetch ends: at `before`, or at the nearer end of the archive.
fetch_end_bounds :
    {log : List HistoryRecord} {h : History} (before : ℕ)
    → Holds log h
    → (oldest h ≤ fetch_end h before) × (fetch_end h before ≤ length log)
unfolding fetch_end
fetch_end_bounds before v = omega (arith, oldest_lem v, v.next_eq)

-- For an archive that holds the end of a log, and a limit of 32 bits, `fetch` always returns a
-- page: consecutive lines that end where `before`, clamped to the archive, says; at most `limit`
-- of them, within the byte budget unless the newest line alone is larger; and it stops short only
-- at the oldest line, at the limit, or at a line over budget.
pub fetch-Returns :
    {log : List HistoryRecord} {h : History} (before limit : ℕ)
    → Holds log h
    → limit < u32_mod
    → Returns h limit reply_byte_budget (fetch_end h before) (fetch h before limit)
unfolding fetch
fetch-Returns {log} {h} before limit v u32 =
    let (lo, hi) = fetch_end_bounds before v in
    let top : fetch_end h before ≤ oldest h + length h.lines =
      omega (arith, oldest_lem v, length-lines-le v) in
    fetch_loop-Returns h limit reply_byte_budget (fetch_end h before) u32 top (length h.lines + 1)
      (fetch_end h before) []
      (record {
        low = lo;
        count = omega arith;
        slice = refl;
        within_limit = omega arith;
        within_budget = omega arith;
      })
      (omega arith)

-- For an archive that holds the end of a log, and a positive limit of 32 bits, a page is a piece
-- of the log, and is not empty while there are retained lines before its end.
pub fetch-log :
    {log : List HistoryRecord} {h : History} (before limit : ℕ)
    → Holds log h
    → 0 < limit
    → limit < u32_mod
    → (start : ℕ) × (rs : List HistoryRecord) × (fetch h before limit ≡ some (start, rs))
      × (drop start log ≡ rs ++ drop (fetch_end h before) log)
      × (oldest h ≤ start)
      × (start ≤ fetch_end h before)
      × (oldest h < fetch_end h before → start < fetch_end h before)
fetch-log {log} {h} before limit v pos u32 =
    let (start, rs, e, p, full) = fetch-Returns before limit v u32 in
    let (lo, hi) = fetch_end_bounds before v in
    (
      start,
      rs,
      e,
      in_log start p.low ∙ p.slice ∙ ap (◌++◌ rs) (sym (in_log _ lo)),
      p.low,
      omega (arith, p.count),
      λ some_lines. progress start rs p full some_lines,
    )
  where
    in_log : (k : ℕ) → oldest h ≤ k → drop k log ≡ drop (k - oldest h) h.lines
    in_log k b =
        let n : oldest h + (k - oldest h) ≡ k = omega arith in
        ap (λ m. drop m log) (sym n)
        ∙ sym (drop-drop (k - oldest h) (oldest h) log)
        ∙ ap (drop (k - oldest h)) (sym (lines_drop v))

    progress :
        (start : ℕ) (rs : List HistoryRecord)
        → IsPage h limit reply_byte_budget (fetch_end h before) start rs
        → IsFull h limit reply_byte_budget start rs
        → oldest h < fetch_end h before
        → start < fetch_end h before
    progress start rs p (inl e) b = omega arith
    progress start rs p (inr (inl e)) b = omega (arith, p.count)
    progress start rs p (inr (inr (r, e, over, some_lines))) b = omega (arith, p.count)

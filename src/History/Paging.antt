-- ===== src/History/Paging.antt =====
-- A client that pages backwards through src/history.rs, as PROTOCOL.md tells it to: each
-- reply's `start` is the next request's `before`.
use g2mirror.Prelude.{
  ℕ, zero, suc, ◌+◌, ◌-◌, ◌≤◌, ◌<◌, ◌≡◌, sym, ap, ◌∙◌, true, false, List, [], ◌++◌, none, some,
  arith, length, drop, ◌==◌, ==_iff, Bool-cases, inl, inr, u32_mod, drop_all,
}
use g2mirror.History.{History, HistoryRecord, oldest, fetch_end, fetch}
use g2mirror.History.Log.{Holds, oldest_lem, length-lines-le, lines_drop}
use g2mirror.History.Fetch.{fetch-log}

pub read_back : ℕ → History → ℕ → ℕ → List HistoryRecord → List HistoryRecord
read_back zero h limit before acc = acc
read_back (suc f) h limit before acc = elim (fetch h before limit) [
  | none ↦ acc
  | some (start, rs) ↦ elim (start == oldest h) [
    | true ↦ rs ++ acc
    | false ↦ read_back f h limit start (rs ++ acc)
  ]
]

module _ {log : List HistoryRecord} {h : History} (limit : ℕ) (v : Holds log h) (pos : 0 < limit)
    (u32 : limit < u32_mod) where
  fetch_end_inside :
      (before : ℕ) → oldest h ≤ before → before ≤ length log → fetch_end h before ≡ before
  unfolding fetch_end
  fetch_end_inside before lo hi = omega (arith, v.next_eq)

  read_back-drop :
      (f before : ℕ) (acc : List HistoryRecord)
      → oldest h ≤ before
      → before ≤ length log
      → acc ≡ drop before log
      → before - oldest h < f
      → read_back f h limit before acc ≡ drop (oldest h) log
  unfolding read_back
  read_back-drop zero before acc lo hi e b = absurd (omega arith)
  read_back-drop (suc f) before acc lo hi e b =
      let (start, rs, found, page, low, high, onward) = fetch-log before limit v pos u32 in
      let at_before = fetch_end_inside before lo hi in
      let grown : rs ++ acc ≡ drop start log =
        ap (◌++◌ rs) (e ∙ ap (λ k. drop k log) (sym at_before)) ∙ sym page in
      elim (Bool-cases (start == oldest h)) [
        | inl done ↦
            rw (found, read_back, done)
              (grown ∙ ap (λ k. drop k log) ((==_iff start (oldest h)).0 done))
        | inr more ↦
            let earlier : start < before = ground arith in
            rw (found, read_back, more)
              (read_back-drop f start (rs ++ acc) low (omega arith) grown (omega arith))
      ]

-- For an archive that holds the end of a log, reading back page by page from the end, at any
-- positive limit of 32 bits, gives the whole archive: every retained line once and in order.
pub read_back-lines :
    {log : List HistoryRecord} {h : History} (limit : ℕ)
    → Holds log h
    → 0 < limit
    → limit < u32_mod
    → read_back (length h.lines + 1) h limit h.next [] ≡ h.lines
read_back-lines {log} {h} limit v pos u32 =
    read_back-drop limit v pos u32 (length h.lines + 1) h.next []
      (omega (arith, oldest_lem v, v.next_eq)) (omega (arith, v.next_eq))
      (sym (drop_all h.next log (omega (arith, v.next_eq))))
      (omega (arith, oldest_lem v, v.next_eq, length-lines-le v))
    ∙ sym (lines_drop v)

-- ===== src/Mirror/Archived.antt =====
-- `archive_staged_rows` of src/mirror.rs: the newest staged rows enter the history in their order.
use g2mirror.Prelude.{
  ℕ, zero, suc, ◌+◌, ◌-◌, ◌≤◌, ◌<◌, ◌≡◌, refl, sym, ap, ◌∙◌, subst, min, false, List, [], ◌∷◌, ◌++◌,
  some, map, length, get_elem?, take, drop, drop_all, drop-drop, take-append-drop, get_elem?-drop,
  ltb, Bool-cases, inl, inr, arith,
}
use g2mirror.History.{History, HistoryRecord, push}
use g2mirror.Screen.{Vt100, Row}
use g2mirror.Screen.Serialize.{serialize_row}
use g2mirror.Screen.Laws.{SizeLaws, StagingLaws, newest}
use g2mirror.Mirror.State.{Mirror}
use g2mirror.Mirror.Staging.{
  usize_max, staged, push_all, serialize_rows, archive_loop, archive_staged_rows,
}

abbrev pub records_of : ℕ → List Row → List HistoryRecord
records_of cols = map (λ r. serialize_row r cols)

pub push_all-append :
    (rs ss : List HistoryRecord) (h : History) → push_all (rs ++ ss) h ≡ push_all ss (push_all rs h)
unfolding push_all
push_all-append [] ss h = refl
push_all-append (r ∷ rs) ss h = push_all-append rs ss (push h r)

pub records_of-append :
    (cols : ℕ) (rs ss : List Row)
    → records_of cols (rs ++ ss) ≡ records_of cols rs ++ records_of cols ss
records_of-append cols [] ss = refl
records_of-append cols (r ∷ rs) ss = ap (◌∷◌ (serialize_row r cols)) (records_of-append cols rs ss)

newest_split :
    {A : Type 0} (rs : List A) (n k : ℕ)
    → k ≤ n
    → n ≤ length rs
    → take k (newest n rs) ++ newest (n - k) rs ≡ newest n rs
newest_split rs n k le below =
    let e : length rs - n + k ≡ length rs - (n - k) = omega arith in
    ap (λ ys. take k (newest n rs) ++ ys)
      (sym (drop-drop k (length rs - n) rs ∙ ap (λ j. drop j rs) e))
    ∙ take-append-drop k (newest n rs)

newest_none : {A : Type 0} (rs : List A) → newest 0 rs ≡ []
newest_none rs = drop_all (length rs - 0) rs (omega arith)

module _ (vt : Vt100) where
  -- Rows that are visible from `row` on, as records.
  serialize_rows-take :
      (t : vt.Term) (cols row n : ℕ) (rows : List Row)
      → ((i : ℕ) → i < n → get_elem? rows i ≡ some (vt.row t (row + i)))
      → serialize_rows vt t cols row n ≡ records_of cols (take n rows)
  unfolding serialize_rows
  serialize_rows-take t cols row zero rows h = refl
  serialize_rows-take t cols row (suc n) [] h = absurd (ground (arith, h 0))
  serialize_rows-take t cols row (suc n) (r ∷ rows) h =
      let e : r ≡ vt.row t row = ground (arith, h 0) in
      let next = λ (k : ℕ) (g : get_elem? rows k ≡ some (vt.row t (row + suc k))).
        let e : row + suc k ≡ suc row + k = omega arith in
        subst (λ j. get_elem? rows k ≡ some (vt.row t j)) e g in
      λ i.
        serialize_row (sym e i) cols
        ∷ serialize_rows-take t cols (suc row) n rows (λ k lt. next k (h (suc k) (omega arith))) i

  module _ (laws : SizeLaws vt) (st : StagingLaws vt) where
    -- The window at an offset shows the oldest of that many newest rows.
    window_rows :
        (t : vt.Term) (cols remaining n : ℕ)
        → vt.alternate_screen t ≡ false
        → n ≤ (vt.size t).0
        → n ≤ remaining
        → remaining ≤ length (st.staged_rows t)
        → serialize_rows vt (vt.set_scrollback remaining t) cols 0 n
          ≡ records_of cols (take n (newest remaining (st.staged_rows t)))
    window_rows t cols remaining n a fits le below =
        let t' = vt.set_scrollback remaining t in
        let len = length (st.staged_rows t) in
        let off : vt.scrollback t' ≡ remaining = omega (arith, st.scrollback-set remaining t a) in
        let kept = st.staged_rows-set remaining t in
        let sized = laws.size-set remaining t in
        serialize_rows-take t' cols 0 n (newest remaining (st.staged_rows t)) (λ i lt.
          get_elem?-drop (len - remaining) i (st.staged_rows t)
          ∙ subst (λ k. get_elem? (st.staged_rows t) k ≡ some (vt.row t' (0 + i)))
              (omega (arith, off, ap length kept))
              (subst
                (λ rs.
                  get_elem? rs (length (st.staged_rows t') - vt.scrollback t' + i)
                  ≡ some (vt.row t' (0 + i)))
                kept
                (subst
                  (λ k.
                    get_elem? (st.staged_rows t')
                      (length (st.staged_rows t') - vt.scrollback t' + i)
                    ≡ some (vt.row t' k))
                  (omega arith)
                  (st.row_staged t' i (st.alternate-set remaining t ∙ a) (omega (arith, off))
                    (omega (arith, ap (λ (q : ℕ × ℕ). q.0) sized))))))

    archive_loop_lem :
        (f rows cols remaining : ℕ) (t : vt.Term) (h : History)
        → vt.alternate_screen t ≡ false
        → (vt.size t).0 ≡ rows
        → 0 < rows
        → remaining < f
        → remaining ≤ length (st.staged_rows t)
        → (archive_loop vt f rows cols remaining t h).1
          ≡ push_all (records_of cols (newest remaining (st.staged_rows t))) h
    unfolding archive_loop
    archive_loop_lem zero rows cols remaining t h a s p lt le = elim lt [ ]
    archive_loop_lem (suc f) rows cols remaining t h a s p lt le =
        let all = st.staged_rows t in
        let n = min remaining rows in
        let t' = vt.set_scrollback remaining t in
        let old = records_of cols (take n (newest remaining all)) in
        let new = records_of cols (newest (remaining - n) all) in
        let kept = st.staged_rows-set remaining t in
        let sized = ap (λ (q : ℕ × ℕ). q.0) (laws.size-set remaining t) in
        elim (Bool-cases (ltb 0 remaining)) [
          | inl more ↦ rw more (
              archive_loop_lem f rows cols (remaining - n) t'
                (push_all (serialize_rows vt t' cols 0 n) h) (st.alternate-set remaining t ∙ a)
                (sized ∙ s) p (ground arith) (omega (arith, ap length kept))
              ∙ ap
                  (λ rs.
                    push_all (records_of cols (newest (remaining - n) rs))
                      (push_all (serialize_rows vt t' cols 0 n) h))
                  kept
              ∙ ap (λ rs. push_all new (push_all rs h))
                  (window_rows t cols remaining n a (omega (arith, s)) (omega arith) le)
              ∙ sym (push_all-append old new h)
              ∙ ap (λ rs. push_all rs h)
                  (sym (
                    records_of-append cols (take n (newest remaining all))
                      (newest (remaining - n) all)))
              ∙ ap (λ rs. push_all (records_of cols rs) h)
                  (newest_split all remaining n (omega arith) le))
          | inr done ↦
              let z : remaining ≡ 0 = ground arith in
              rw done (
                ap (λ rs. push_all (records_of cols rs) h)
                  (sym (subst (λ k. newest k all ≡ []) (sym z) (newest_none all))))
        ]

    -- The newest `count` staged rows are archived, if there are so many.
    pub archive-newest :
        (m : Mirror vt) (count : ℕ)
        → vt.alternate_screen m.parser ≡ false
        → 0 < (vt.size m.parser).0
        → count ≤ length (st.staged_rows m.parser)
        → length (st.staged_rows m.parser) ≤ usize_max
        → (archive_staged_rows vt m count).history
          ≡ push_all
              (records_of (vt.size m.parser).1 (newest count (st.staged_rows m.parser)))
              m.history
    unfolding archive_staged_rows
    archive-newest m count a p le small =
        let far = vt.set_scrollback usize_max m.parser in
        let near = vt.set_scrollback 0 far in
        let (rows, cols) = vt.size m.parser in
        let c = min count (staged vt m.parser).1 in
        let kept = st.staged_rows-set 0 far ∙ st.staged_rows-set usize_max m.parser in
        let same : c ≡ count = omega (arith, st.scrollback-set usize_max m.parser a) in
        archive_loop_lem (c + 1) rows cols c near m.history
          (st.alternate-set 0 far ∙ st.alternate-set usize_max m.parser ∙ a)
          (ap (λ (q : ℕ × ℕ). q.0) (laws.size-set 0 far ∙ laws.size-set usize_max m.parser)) p
          (omega arith) (omega (arith, same, ap length kept))
        ∙ ap (λ rs. push_all (records_of cols (newest c rs)) m.history) kept
        ∙ ap (λ k. push_all (records_of cols (newest k (st.staged_rows m.parser))) m.history) same

-- ===== src/Mirror/Harvested.antt =====
-- `park` and `harvest` of src/mirror.rs: the counts, and the state between slices.
use g2mirror.Prelude.{
  ℕ, ◌+◌, ◌-◌, ◌≤◌, ◌<◌, ◌≡◌, refl, sym, ap, ◌∙◌, true, false, List, ◌++◌, length, length-append,
  length-drop, drop, drop_all, drop-drop, drop-append, ltb, if_intro, arith,
}
use g2mirror.Screen.{Vt100, Row}
use g2mirror.Screen.Laws.{SizeLaws, StagingLaws, newest}
use g2mirror.Mirror.State.{Mirror, stage_scrollback}
use g2mirror.Mirror.Staging.{
  usize_max, staged, push_all, park, new_rows, archive_staged_rows, archive_new, harvest,
}
use g2mirror.Mirror.Keeps.{Unmoved, new_rows-Like, archive_new-Keeps}
use g2mirror.Mirror.Archived.{records_of, archive-newest}

module _ (vt : Vt100) (laws : SizeLaws vt) (st : StagingLaws vt) where
  -- Between slices, on the primary screen: nothing waits to be archived.
  pub record IsIdle (m : Mirror vt) : Type 0 where
    pub primary : vt.alternate_screen m.parser ≡ false
    pub not_parked : m.parked ≡ false
    pub seen : m.staged_seen ≡ length (st.staged_rows m.parser)
    pub full : st.capacity m.parser ≡ stage_scrollback
    pub few : length (st.staged_rows m.parser) ≤ stage_scrollback
    pub some_row : 0 < (vt.size m.parser).0

  -- The scrollback's content, and on which screen the terminal is.
  abbrev pub like_staged : Unmoved vt
  like_staged = record {
    Like = λ s t.
        (st.staged_rows s ≡ st.staged_rows t)
        × (vt.alternate_screen s ≡ vt.alternate_screen t)
        × (st.capacity s ≡ st.capacity t)
        × (vt.size s ≡ vt.size t);
    like_refl = λ t. (refl, refl, refl, refl);
    like_trans = λ s t u h k. (h.0 ∙ k.0, h.1 ∙ k.1, h.2 ∙ k.2, h.3 ∙ k.3);
    like-set = λ n t.
        (st.staged_rows-set n t, st.alternate-set n t, st.capacity-set n t, laws.size-set n t);
  }

  pub newest-newest :
      {A : Type 0} (xs : List A) (k n : ℕ) → k ≤ n → newest k (newest n xs) ≡ newest k xs
  newest-newest xs k n le =
      let cut = length xs - n in
      let e : cut + (length (drop cut xs) - k) ≡ length xs - k =
        omega (arith, length-drop cut xs) in
      drop-drop (length (drop cut xs) - k) cut xs ∙ ap (λ j. drop j xs) e

  pub newest-append : {A : Type 0} (xs ys : List A) → newest (length ys) (xs ++ ys) ≡ ys
  newest-append xs ys =
      let e : length (xs ++ ys) - length ys ≡ length xs = omega (arith, length-append xs ys) in
      rw e (
        drop-append (length xs) xs ys (omega arith)
        ∙ ap (λ zs. zs ++ ys) (drop_all (length xs) xs (omega arith)))

  -- After `park`, the offset is one if a row is staged; the mirror is not parked if none is.
  pub record IsParked (m m' : Mirror vt) : Type 0 where
    pub rows_eq : st.staged_rows m'.parser ≡ st.staged_rows m.parser
    pub history_eq : m'.history ≡ m.history
    pub seen_eq : m'.staged_seen ≡ m.staged_seen
    pub at_one :
        m'.parked ≡ true → (vt.scrollback m'.parser ≡ 1) × (0 < length (st.staged_rows m.parser))
    pub none_yet : m'.parked ≡ false → length (st.staged_rows m.parser) ≡ 0

  pub park-IsParked : (m : Mirror vt) → IsIdle m → IsParked m (park vt m)
  unfolding park
  park-IsParked m h =
      let far = vt.set_scrollback usize_max m.parser in
      let few = h.few in
      let len = st.scrollback-set usize_max m.parser h.primary in
      let gone = st.staged_rows-set usize_max m.parser in
      if_intro (IsParked m) (vt.alternate_screen m.parser) _ _
        (λ e. absurd (ground (arith, e, h.primary)))
        (λ _.
          if_intro (IsParked m) m.parked _ _ (λ e. absurd (ground (arith, e, h.not_parked)))
            (λ _.
              if_intro (IsParked m) (ltb 0 (staged vt m.parser).1) _ _
                (λ e. record {
                  rows_eq = st.staged_rows-set 1 far ∙ gone;
                  history_eq = refl;
                  seen_eq = refl;
                  at_one = λ _. (
                    ground (
                      arith,
                      e,
                      len,
                      few,
                      ap length gone,
                      st.scrollback-set 1 far (st.alternate-set usize_max m.parser ∙ h.primary),
                    ),
                    ground (arith, e, len, few),
                  );
                  none_yet = λ f. absurd cc;
                })
                (λ e. record {
                  rows_eq = st.staged_rows-set 0 far ∙ gone;
                  history_eq = refl;
                  seen_eq = refl;
                  at_one = λ f. absurd (ground (arith, f, h.not_parked));
                  none_yet = λ _. ground (arith, e, len, few);
                })))

  -- A harvest that counts `k` rows archives the `k` newest.
  archive_new-newest :
      (m : Mirror vt) (k : ℕ)
      → vt.alternate_screen m.parser ≡ false
      → (new_rows vt m).1 ≡ k
      → k ≤ length (st.staged_rows m.parser)
      → length (st.staged_rows m.parser) ≤ stage_scrollback
      → 0 < (vt.size m.parser).0
      → (archive_new vt m).history
        ≡ push_all (records_of (vt.size m.parser).1 (newest k (st.staged_rows m.parser))) m.history
  unfolding archive_new push_all
  archive_new-newest m k a e le few some_row =
      let t = (new_rows vt m).0 in
      let (rows_eq, alt_eq, cap_eq, size_eq) = new_rows-Like vt like_staged m in
      let pushed = λ (n : ℕ) (rs : List Row) (size : ℕ × ℕ).
        push_all (records_of size.1 (newest n rs)) m.history in
      if_intro
        (λ (r : Mirror vt). r.history ≡ pushed k (st.staged_rows m.parser) (vt.size m.parser))
        (ltb 0 (new_rows vt m).1) _ _
        (λ _.
          archive-newest vt laws st (record m { parser = t; parked = false }) (new_rows vt m).1
            (alt_eq ∙ a) (omega (arith, some_row, ap (λ (q : ℕ × ℕ). q.0) size_eq))
            (omega (arith, e, le, ap length rows_eq)) (omega (arith, few, ap length rows_eq))
          ∙ (λ i. pushed (e i) (rows_eq i) (size_eq i)))
        (λ f. sym (
          ap (λ rs. push_all (records_of (vt.size m.parser).1 rs) m.history)
            (drop_all _ (st.staged_rows m.parser) (ground (arith, f, e)))))

  pub harvest-newest :
      (m : Mirror vt) (k : ℕ)
      → vt.alternate_screen m.parser ≡ false
      → (new_rows vt m).1 ≡ k
      → k ≤ length (st.staged_rows m.parser)
      → length (st.staged_rows m.parser) ≤ stage_scrollback
      → 0 < (vt.size m.parser).0
      → (harvest vt m).history
        ≡ push_all (records_of (vt.size m.parser).1 (newest k (st.staged_rows m.parser))) m.history
  unfolding harvest
  harvest-newest m k a e le few some_row =
      if_intro
        (λ (r : Mirror vt).
          r.history
          ≡ push_all (records_of (vt.size m.parser).1 (newest k (st.staged_rows m.parser)))
              m.history)
        (vt.alternate_screen m.parser) _ _ (λ f. absurd (ground (arith, a, f)))
        (λ _. archive_new-newest m k a e le few some_row)

  not_parked-archive : (m : Mirror vt) → (archive_new vt m).parked ≡ false
  unfolding archive_new archive_staged_rows
  not_parked-archive m = ground arith

  pub harvest-IsIdle :
      (m : Mirror vt)
      → vt.alternate_screen m.parser ≡ false
      → length (st.staged_rows m.parser) ≤ stage_scrollback
      → st.capacity m.parser ≡ stage_scrollback
      → 0 < (vt.size m.parser).0
      → IsIdle (harvest vt m)
  unfolding harvest
  harvest-IsIdle m a few full some_row =
      let t = (archive_new vt m).parser in
      let (rows_eq, alt_eq, cap_eq, size_eq) = (archive_new-Keeps vt like_staged m).like in
      let far = vt.set_scrollback usize_max t in
      let same =
        like_staged.like_trans _ _ _ (like_staged.like-set 0 far)
          (like_staged.like-set usize_max t) in
      if_intro IsIdle (vt.alternate_screen m.parser) _ _ (λ f. absurd (ground (arith, a, f)))
        (λ _. record {
          primary = same.1 ∙ alt_eq ∙ a;
          not_parked = not_parked-archive m;
          seen = omega (
            arith,
            ap length same.0,
            ap length rows_eq,
            few,
            st.scrollback-set usize_max t (alt_eq ∙ a),
          );
          full = same.2 ∙ cap_eq ∙ full;
          few = omega (arith, ap length same.0, ap length rows_eq, few);
          some_row = omega (arith, some_row, ap (λ (q : ℕ × ℕ). q.0) (same.3 ∙ size_eq));
        })

-- ===== src/Mirror/Captured.antt =====
-- The history of src/mirror.rs: every row that scrolls off is archived once, in its order.
use g2mirror.Prelude.{
  some_eq, ℕ, suc, ◌+◌, ◌-◌, ◌≤◌, ◌<◌, ◌≡◌, refl, sym, ap, ◌∙◌, subst, min, List, [], ◌∷◌, ◌++◌,
  Option, none, some, Bytes, length, length-append, length-drop, u64_mod, if_intro, append-nil,
  append_assoc, arith,
}
use g2mirror.History.{History, HistoryRecord, push}
use g2mirror.History.Log.{Holds, push-Holds}
use g2mirror.Screen.{Vt100, Row}
use g2mirror.Screen.Laws.{SizeLaws, StagingLaws, newest}
use g2mirror.Mirror.State.{
  Mirror, parse, stage_scrollback, process_slice, Output, take_bells, take_title_change,
}
use g2mirror.Mirror.Staging.{usize_max, push_all, park, new_rows, harvest}
use g2mirror.Mirror.Process.{
  chunks, pushed_since, process_slices, process_view, pass_through, process_shadow, process,
}
use g2mirror.Session.View.{View}
use g2mirror.Mirror.Valid.{IsValid, process-IsValid}
use g2mirror.Mirror.Keeps.{park-Keeps, harvest-Keeps, taken}
use g2mirror.Mirror.Archived.{records_of, records_of-append, push_all-append}
use g2mirror.Mirror.Harvested.{
  IsIdle, like_staged, park-IsParked, newest-newest, newest-append, harvest-newest, harvest-IsIdle,
}

push_all-Holds :
    (rs log : List HistoryRecord) (h : History)
    → Holds log h
    → length log + length rs < u64_mod
    → Holds (log ++ rs) (push_all rs h)
unfolding push_all
push_all-Holds [] log h v b = rw append-nil v
push_all-Holds (r ∷ rs) log h v b = rw (append_assoc log (r ∷ []) rs) at (
    push_all-Holds rs (log ++ r ∷ []) (push h r) (push-Holds r v (omega arith))
      (omega (arith, length-append log (r ∷ []))))

length-records_of : (cols : ℕ) (rows : List Row) → length (records_of cols rows) ≡ length rows
length-records_of cols [] = refl
length-records_of cols (r ∷ rows) = ap suc (length-records_of cols rows)

module _ (vt : Vt100) (laws : SizeLaws vt) (st : StagingLaws vt) where
  -- The rows that a slice scrolls off.
  abbrev pub rows_off : Mirror vt → Bytes → List Row
  rows_off m slice = st.scrolled (park vt m).parser slice

  abbrev pub after : Mirror vt → Bytes → Mirror vt
  after m slice = harvest vt (parse vt (park vt m) slice)

  -- The rows that slices scroll off, one after the other.
  abbrev pub all_rows_off : Mirror vt → List Bytes → List Row
  all_rows_off m [] = []
  all_rows_off m (slice ∷ slices) = rows_off m slice ++ all_rows_off (after m slice) slices

  -- Each is quiet, and scrolls off fewer rows than the scrollback can stage.
  abbrev pub AllQuiet : Mirror vt → List Bytes → Type 0
  AllQuiet m [] = Unit
  AllQuiet m (slice ∷ slices) =
      st.Quiet (park vt m).parser slice
      × (length (rows_off m slice) < stage_scrollback)
      × AllQuiet (after m slice) slices

  module _ (m : Mirror vt) (slice : Bytes) (idle : IsIdle vt laws st m)
      (quiet : st.Quiet (park vt m).parser slice)
      (room : length (rows_off m slice) < stage_scrollback) where
    abbrev parsed : Mirror vt
    parsed = parse vt (park vt m) slice

    staged_after :
        st.staged_rows parsed.parser
        ≡ newest stage_scrollback (st.staged_rows m.parser ++ rows_off m slice)
    staged_after =
        let like = (park-Keeps vt (like_staged vt laws st) m).like in
        let cap = like.2 ∙ idle.full in
        st.staged_rows-process (park vt m).parser slice quiet
        ∙ (λ i. newest (cap i) (like.0 i ++ rows_off m slice))

    count_after :
        length (st.staged_rows parsed.parser)
        ≡ min stage_scrollback (length (st.staged_rows m.parser) + length (rows_off m slice))
    count_after = omega (
      arith,
      ap length staged_after,
      length-drop (length (st.staged_rows m.parser ++ rows_off m slice) - stage_scrollback)
          (st.staged_rows m.parser ++ rows_off m slice),
      length-append (st.staged_rows m.parser) (rows_off m slice),
    )

    new_rows-exact : (new_rows vt parsed).1 ≡ length (rows_off m slice)
    unfolding new_rows
    new_rows-exact =
        let p = park-IsParked vt laws st m idle in
        let at_one = p.at_one in
        let none_yet = p.none_yet in
        let like = (park-Keeps vt (like_staged vt laws st) m).like in
        let len =
          st.scrollback-set usize_max parsed.parser
            (st.alternate-process (park vt m).parser slice quiet) in
        let follows = st.scrollback-follows (park vt m).parser slice quiet in
        let count = count_after in
        let seen = p.seen_eq ∙ idle.seen in
        if_intro (λ (r : vt.Term × ℕ). r.1 ≡ length (rows_off m slice)) (park vt m).parked _ _
          (λ e.
            let (one, some_row) = at_one e in
            omega (arith, one, some_row, follows (omega (arith, one)), count, room))
          (λ e. omega (arith, none_yet e, len, count, seen, room))

    slice-captured :
        IsIdle vt laws st (after m slice)
        × ((after m slice).history
            ≡ push_all (records_of (vt.size m.parser).1 (rows_off m slice)) m.history)
        × (vt.size (after m slice).parser ≡ vt.size m.parser)
    slice-captured =
        let like = (park-Keeps vt (like_staged vt laws st) m).like in
        let primary = st.alternate-process (park vt m).parser slice quiet in
        let count = count_after in
        let few : length (st.staged_rows parsed.parser) ≤ stage_scrollback = omega (arith, count) in
        let same = laws.size-process (park vt m).parser slice ∙ like.3 in
        let some_row : 0 < (vt.size parsed.parser).0 =
          omega (arith, idle.some_row, ap (λ (q : ℕ × ℕ). q.0) same) in
        let rows = rows_off m slice in
        let all = st.staged_rows m.parser ++ rows in
        let exact : newest (length rows) (st.staged_rows parsed.parser) ≡ rows =
          ap (newest (length rows)) staged_after
          ∙ newest-newest vt laws st all (length rows) stage_scrollback (omega (arith, room))
          ∙ newest-append vt laws st (st.staged_rows m.parser) rows in
        (
          harvest-IsIdle vt laws st parsed primary few
              (st.capacity-process (park vt m).parser slice ∙ like.2 ∙ idle.full) some_row,
          harvest-newest vt laws st parsed (length rows) primary new_rows-exact
                (omega (arith, count, room)) few some_row
              ∙ (λ i.
                  push_all (records_of (same i).1 (exact i))
                    ((park-IsParked vt laws st m idle).history_eq i)),
          (harvest-Keeps vt (like_staged vt laws st) parsed).like.3 ∙ same,
        )

  slices-captured :
      (slices : List Bytes) (m : Mirror vt)
      → IsIdle vt laws st m
      → AllQuiet m slices
      → IsIdle vt laws st (process_slices vt slices m)
        × ((process_slices vt slices m).history
            ≡ push_all (records_of (vt.size m.parser).1 (all_rows_off m slices)) m.history)
  unfolding process_slices push_all
  slices-captured [] m idle q = (idle, refl)
  slices-captured (slice ∷ slices) m idle (quiet, room, q) =
      let (idle', e, same) = slice-captured m slice idle quiet room in
      let (idle'', e') = slices-captured slices (after m slice) idle' q in
      let cols = (vt.size m.parser).1 in
      (
        idle'',
        e'
            ∙ (λ i. push_all (records_of (same i).1 (all_rows_off (after m slice) slices)) (e i))
            ∙ sym (
                push_all-append (records_of cols (rows_off m slice))
                  (records_of cols (all_rows_off (after m slice) slices)) m.history)
            ∙ ap (λ rs. push_all rs m.history)
                (sym (
                  records_of-append cols (rows_off m slice) (all_rows_off (after m slice) slices))),
      )

  -- What the output of a chunk leaves of the mirror.
  record IsLeft (m m' : Mirror vt) : Type 0 where
    parser_eq : m'.parser ≡ m.parser
    history_eq : m'.history ≡ m.history
    parked_eq : m'.parked ≡ m.parked
    seen_eq : m'.staged_seen ≡ m.staged_seen

  taken-IsLeft : (m : Mirror vt) → IsLeft m (taken vt m)
  unfolding take_title_change take_bells
  taken-IsLeft m = record {
    parser_eq = ground arith;
    history_eq = ground arith;
    parked_eq = ground arith;
    seen_eq = ground arith;
  }

  process_shadow-IsLeft :
      (m : Mirror vt) (o : Option View) (s : Option vt.Term) (bytes : Bytes) (n : ℕ)
      (r : Mirror vt × Output)
      → process_shadow vt m o s bytes n ≡ some r
      → IsLeft m r.0
  unfolding process_shadow process_view pass_through
  process_shadow-IsLeft m none s bytes n r e =
      subst (λ (x : Mirror vt × Output). IsLeft m x.0) (some_eq e) (taken-IsLeft m)
  process_shadow-IsLeft m (some w) none bytes n r e = absurd cc
  process_shadow-IsLeft m (some w) (some shadow) bytes n r e =
      let left = taken-IsLeft m in
      subst (λ (x : Mirror vt × Output). IsLeft m x.0) (some_eq e)
        (record {
          parser_eq = left.parser_eq;
          history_eq = left.history_eq;
          parked_eq = left.parked_eq;
          seen_eq = left.seen_eq;
        })

  IsLeft-IsIdle : {m m' : Mirror vt} → IsLeft m m' → IsIdle vt laws st m → IsIdle vt laws st m'
  IsLeft-IsIdle l h = record {
    primary = ap vt.alternate_screen l.parser_eq ∙ h.primary;
    not_parked = l.parked_eq ∙ h.not_parked;
    seen = l.seen_eq ∙ h.seen ∙ sym (ap (λ t. length (st.staged_rows t)) l.parser_eq);
    full = ap st.capacity l.parser_eq ∙ h.full;
    few = omega (arith, h.few, ap (λ t. length (st.staged_rows t)) l.parser_eq);
    some_row = omega (arith, h.some_row, ap (λ t. (vt.size t).0) l.parser_eq);
  }

  -- A valid mirror that is idle on the primary screen, whose archive holds the end of a log,
  -- processes a chunk of output of which no slice resets the terminal, leaves it on the alternate
  -- screen, or scrolls off as many rows as can be staged. It succeeds; then the archive holds the
  -- end of the log continued by the record of every row that scrolls off, each once and in its
  -- order (if those are fewer than 2^64 lines), even when the scrollback is full and drops older
  -- rows; and the mirror is idle again.
  pub process-Holds :
      (m : Mirror vt) (bytes : Bytes) (log : List HistoryRecord)
      → IsValid vt m
      → IsIdle vt laws st m
      → AllQuiet m (chunks process_slice bytes)
      → Holds log m.history
      → length log + length (all_rows_off m (chunks process_slice bytes)) < u64_mod
      → (r : Mirror vt × Output) × (process vt m bytes ≡ some r)
        × IsIdle vt laws st r.0
        × Holds
            (log ++ records_of (vt.size m.parser).1 (all_rows_off m (chunks process_slice bytes)))
            r.0.history
  unfolding process
  process-Holds m bytes log valid idle q holds b =
      let slices = chunks process_slice bytes in
      let m' = process_slices vt slices m in
      let records = records_of (vt.size m.parser).1 (all_rows_off m slices) in
      let (idle', e') = slices-captured slices m idle q in
      let (r, e, valid', same) = process-IsValid vt laws m bytes valid in
      let left =
        process_shadow-IsLeft m' m'.view m'.shadow bytes (pushed_since m.history m'.history) r e in
      (
        r,
        e,
        IsLeft-IsIdle left idle',
        subst (Holds (log ++ records)) (sym (left.history_eq ∙ e')) (
            push_all-Holds records log m.history holds
              (omega (arith, b, length-records_of (vt.size m.parser).1 (all_rows_off m slices)))),
      )

-- ===== src/History/Log.antt =====
-- What the archive of src/history.rs stands for: the log of all lines ever pushed, of which it
-- holds the newest ones.
use g2mirror.Prelude.{
  ℕ, suc, ◌+◌, ◌-◌, ◌≤◌, ◌<◌, ◌≡◌, refl, sym, ap, ◌∙◌, List, [], ◌∷◌, ◌++◌, arith, length, drop,
  ltb, if◌then◌else◌, Bool-cases, inl, inr, u64_mod, length-append, length-drop, drop-drop,
  drop-append, ltb→lt, append-nil, append_assoc, get_elem?, get_elem?-drop,
}
use g2mirror.History.{History, HistoryRecord, new, trim, set_max_lines, push, oldest}

-- `h` holds the end of `log`, and no more than it may.
pub record Holds (log : List HistoryRecord) (h : History) : Type 0 where
  pub next_eq : h.next ≡ length log
  pub lines_eq : h.lines ≡ drop (length log - length h.lines) log
  pub fits : length h.lines ≤ h.max_lines
  pub bounded : length log < u64_mod

pub trim-drop : (m : ℕ) (rs : List HistoryRecord) → trim m rs ≡ drop (length rs - m) rs
unfolding trim
trim-drop m [] = let e : 0 - m ≡ 0 = omega arith in rw e
trim-drop m (r ∷ rs) = elim (Bool-cases (ltb m (length (r ∷ rs)))) [
  | inl over ↦
      let e : suc (length rs) - m ≡ suc (length rs - m) =
        omega (arith, ltb→lt m (suc (length rs)) over) in
      rw (over, e) (trim-drop m rs)
  | inr ok ↦ let e : suc (length rs) - m ≡ 0 = ground arith in rw (ok, e) refl
]

pub length-lines-le :
    {log : List HistoryRecord} {h : History} → Holds log h → length h.lines ≤ length log
length-lines-le {log} {h} v =
    omega (arith, ap length v.lines_eq, length-drop (length log - length h.lines) log)

pub oldest_lem :
    {log : List HistoryRecord} {h : History} → Holds log h → oldest h ≡ length log - length h.lines
unfolding oldest
oldest_lem v = omega (arith, length-lines-le v, v.next_eq, v.bounded)

pub lines_drop :
    {log : List HistoryRecord} {h : History} → Holds log h → h.lines ≡ drop (oldest h) log
lines_drop v = rw (oldest_lem v) v.lines_eq

pub new-Holds : (m : ℕ) → Holds [] (new m)
unfolding new
new-Holds m = record { next_eq = refl; lines_eq = refl; fits = omega arith; bounded = omega arith }

drop-trim :
    (m k : ℕ) (log rs : List HistoryRecord)
    → rs ≡ drop k log
    → k ≤ length log
    → trim m rs ≡ drop (length log - length (trim m rs)) log
drop-trim m k log rs e h =
    let cut = k + (length rs - m) in
    let t : trim m rs ≡ drop cut log =
      trim-drop m rs ∙ ap (drop (length rs - m)) e ∙ drop-drop (length rs - m) k log in
    let n : length log - length (trim m rs) ≡ cut =
      omega (arith, ap length t, ap length e, length-drop k log, length-drop cut log) in
    rw n t

length-trim : (m : ℕ) (rs : List HistoryRecord) → length (trim m rs) ≤ m
length-trim m rs = omega (arith, ap length (trim-drop m rs), length-drop (length rs - m) rs)

-- Pushing appends to the log, and the archive goes on holding its end.
pub push-Holds :
    {log : List HistoryRecord} {h : History} (r : HistoryRecord)
    → Holds log h
    → length log + 1 < u64_mod
    → Holds (log ++ r ∷ []) (push h r)
unfolding push
push-Holds {log} {h} r v b = record {
  next_eq = omega (arith, v.next_eq, length-append log (r ∷ []));
  lines_eq =
      drop-trim h.max_lines (length log - length h.lines) (log ++ r ∷ []) (h.lines ++ r ∷ [])
        (ap (λ ls. ls ++ r ∷ []) v.lines_eq
          ∙ sym (drop-append (length log - length h.lines) log (r ∷ []) (omega arith)))
        (omega (arith, length-append log (r ∷ [])));
  fits = length-trim h.max_lines _;
  bounded = omega (arith, length-append log (r ∷ []));
}

pub set_max_lines-Holds :
    {log : List HistoryRecord} {h : History} (m : ℕ) → Holds log h → Holds log (set_max_lines h m)
unfolding set_max_lines
set_max_lines-Holds {log} {h} m v = record {
  next_eq = v.next_eq;
  lines_eq = drop-trim m (length log - length h.lines) log h.lines v.lines_eq (omega arith);
  fits = length-trim m _;
  bounded = v.bounded;
}

-- One use of the archive, and the log after it.
pub data Use : Type 0 where
  pushes : HistoryRecord → Use
  limits : ℕ → Use

abbrev pub run : History → List Use → History
run h [] = h
run h (pushes r ∷ us) = run (push h r) us
run h (limits m ∷ us) = run (set_max_lines h m) us

abbrev pub pushed : List Use → List HistoryRecord
pushed [] = []
pushed (pushes r ∷ us) = r ∷ pushed us
pushed (limits m ∷ us) = pushed us

run-from-Holds :
    (us : List Use) (log : List HistoryRecord) (h : History)
    → Holds log h
    → length log + length (pushed us) < u64_mod
    → Holds (log ++ pushed us) (run h us)
run-from-Holds [] log h v b = rw append-nil v
run-from-Holds (pushes r ∷ us) log h v b = rw (append_assoc log (r ∷ []) (pushed us)) at (
    run-from-Holds us (log ++ r ∷ []) (push h r) (push-Holds r v (omega arith))
      (omega (arith, length-append log (r ∷ []))))
run-from-Holds (limits m ∷ us) log h v b =
    run-from-Holds us log (set_max_lines h m) (set_max_lines-Holds m v) b

-- The cap that the last change left, of a first cap `m`.
abbrev pub cap_after : ℕ → List Use → ℕ
cap_after m [] = m
cap_after m (pushes r ∷ us) = cap_after m us
cap_after m (limits k ∷ us) = cap_after k us

abbrev pub at_most : ℕ → ℕ → ℕ
at_most m n = if ltb m n then m else n

-- How many lines are retained under the cap `m`, of `n` before the uses: a push adds one, and
-- nothing is evicted but what is over the cap at the time.
abbrev pub retained : ℕ → ℕ → List Use → ℕ
retained m n [] = n
retained m n (pushes r ∷ us) = retained m (at_most m (n + 1)) us
retained m n (limits k ∷ us) = retained k (at_most k n) us

length-trim_eq : (m : ℕ) (rs : List HistoryRecord) → length (trim m rs) ≡ at_most m (length rs)
length-trim_eq m rs =
    let e : length (trim m rs) ≡ length rs - (length rs - m) =
      omega (arith, ap length (trim-drop m rs), length-drop (length rs - m) rs) in
    ground (arith, e)

run-max_lines : (us : List Use) (h : History) → (run h us).max_lines ≡ cap_after h.max_lines us
unfolding push set_max_lines
run-max_lines [] h = refl
run-max_lines (pushes r ∷ us) h = run-max_lines us (push h r)
run-max_lines (limits m ∷ us) h = run-max_lines us (set_max_lines h m)

length-lines-run :
    (us : List Use) (h : History)
    → length (run h us).lines ≡ retained h.max_lines (length h.lines) us
unfolding push set_max_lines
length-lines-run [] h = refl
length-lines-run (pushes r ∷ us) h =
    let e : length (push h r).lines ≡ at_most h.max_lines (length h.lines + 1) =
      length-trim_eq h.max_lines (h.lines ++ r ∷ [])
      ∙ ap (at_most h.max_lines) (length-append h.lines (r ∷ [])) in
    length-lines-run us (push h r) ∙ ap (λ n. retained h.max_lines n us) e
length-lines-run (limits m ∷ us) h =
    length-lines-run us (set_max_lines h m) ∙ ap (λ n. retained m n us) (length-trim_eq m h.lines)

-- After any sequence of pushes (fewer than 2^64) and changes of the cap, the archive of a new
-- session holds the end of everything pushed: `next` counts all lines, the retained ones are the
-- newest, `oldest` is the index of the first of them, and they are no more than the cap that the
-- last change set. They are as many as they can be: a push adds one, and it and a change of the cap
-- evict only what is over the cap at that time.
pub run-new-Holds :
    (m : ℕ) (us : List Use)
    → length (pushed us) < u64_mod
    → Holds (pushed us) (run (new m) us)
      × (oldest (run (new m) us) ≡ length (pushed us) - length (run (new m) us).lines)
      × ((run (new m) us).max_lines ≡ cap_after m us)
      × (length (run (new m) us).lines ≡ retained m 0 us)
unfolding new
run-new-Holds m us b =
    let v = run-from-Holds us [] (new m) (new-Holds m) (omega arith) in
    (v, oldest_lem v, run-max_lines us (new m), length-lines-run us (new m))

-- Evicting lines does not renumber the others: in an archive that holds the end of a log, the line
-- of index `i`, if `i` is not below the oldest, is the `i`th ever pushed.
pub line_index :
    {log : List HistoryRecord} {h : History} (i : ℕ)
    → Holds log h
    → oldest h ≤ i
    → get_elem? h.lines (i - oldest h) ≡ get_elem? log i
line_index {log} {h} i v b =
    let e : oldest h + (i - oldest h) ≡ i = omega arith in
    ap (λ ls. get_elem? ls (i - oldest h)) (lines_drop v)
    ∙ get_elem?-drop (oldest h) (i - oldest h) log
    ∙ ap (get_elem? log) e

-- ===== src/Frames/Chunks.antt =====
-- The lines do not depend on how the reads cut the stream (`next_message` of src/control.rs,
-- `next_line` of src/bin/g2mirror-server.rs).
use g2mirror.Prelude.{
  ℕ, zero, suc, ◌+◌, ◌≤◌, ◌<◌, ◌≡◌, ◌≢◌, refl, sym, ap, ◌∙◌, subst, List, [], ◌∷◌, ◌++◌, append-nil,
  append_assoc, Option, none, some, Bytes, length, length-append, All, ◌==◌, if◌then◌else◌, arith,
  Bool-cases, Option-cases, inl, inr,
}
use g2mirror.Frames.{
  first_line, Popped, line, partial, pop, pop_all, left_of, taken, next_line, all_lines,
}

-- The complete lines of a text that are not empty, `cur` being the part of the first one that is
-- already read.
abbrev emit : Bytes → List Bytes → List Bytes
emit [] ls = ls
emit (c ∷ cs) ls = (c ∷ cs) ∷ ls

pub lines_of : Bytes → Bytes → List Bytes
lines_of cur [] = []
lines_of cur (c ∷ cs) =
    let ended = emit cur (lines_of [] cs) in
    let goes_on = lines_of (cur ++ c ∷ []) cs in if c == b'\n' then ended else goes_on

abbrev pub concat : List Bytes → Bytes
concat [] = []
concat (c ∷ cs) = c ++ concat cs

first_line-none : (buf cur : Bytes) → first_line buf ≡ none → lines_of cur buf ≡ []
unfolding first_line lines_of
first_line-none [] cur e = refl
first_line-none (c ∷ cs) cur e = elim (Option-cases (first_line cs)) [
  | inl n ↦ ground (arith, first_line-none cs (cur ++ c ∷ []) n)
  | inr (p, f) ↦ absurd (ground arith)
]

-- A first line, `p`, and what follows it.
abbrev IsSplit : Bytes → Bytes → Bytes → Bytes × Bytes → Type 0
IsSplit buf cur tail p =
    (lines_of cur (buf ++ tail) ≡ emit (cur ++ p.0) (lines_of [] (p.1 ++ tail)))
    × (length p.1 + length p.0 + 1 ≡ length buf)

some_injective : {A : Type 0} (a b : A) → ◌≡◌ {A = Option A} (some a) (some b) → a ≡ b
some_injective a b e = cc

first_line-IsSplit :
    (buf cur tail : Bytes) (p : Bytes × Bytes) → first_line buf ≡ some p → IsSplit buf cur tail p
unfolding first_line lines_of
first_line-IsSplit [] cur tail p e = absurd cc
first_line-IsSplit (c ∷ cs) cur tail p e = elim (Bool-cases (c == b'\n')) [
  | inl nl ↦
      let at : first_line (c ∷ cs) ≡ some ([], cs) = rw (first_line, nl) refl in
      subst (IsSplit (c ∷ cs) cur tail) (some_injective ([], cs) p (sym at ∙ e)) (
        rw (lines_of, nl) (ap (λ x. emit x (lines_of [] (cs ++ tail))) (sym (append-nil cur))),
        omega arith,
      )
  | inr other ↦ elim (Option-cases (first_line cs)) [
    | inl n ↦
        let nowhere : first_line (c ∷ cs) ≡ none = rw (first_line, other, n) refl in
        absurd (ground (arith, nowhere, e))
    | inr (q, f) ↦
        let at : first_line (c ∷ cs) ≡ some (c ∷ q.0, q.1) = rw (first_line, other, f) refl in
        let (ih, count) = first_line-IsSplit cs (cur ++ c ∷ []) tail q f in
        subst (IsSplit (c ∷ cs) cur tail) (some_injective (c ∷ q.0, q.1) p (sym at ∙ e)) (
          rw (lines_of, other)
              (ih ∙ ap (λ x. emit x (lines_of [] (q.1 ++ tail))) (append_assoc cur (c ∷ []) q.0)),
          omega (arith, count),
        )
  ]
]

-- What popping makes of a buffer: a line, or a rest without one, and the same lines in all.
abbrev Pops : Bytes → Popped → Type 0
Pops buf (line l rest) =
    ((tail : Bytes) → lines_of [] (buf ++ tail) ≡ l ∷ lines_of [] (rest ++ tail))
    × (length rest < length buf)
Pops buf (partial b) =
    ((tail : Bytes) → lines_of [] (buf ++ tail) ≡ lines_of [] (b ++ tail))
    × (lines_of [] b ≡ [])
    × (length b ≤ length buf)

pop-Pops : (f : ℕ) (buf : Bytes) → length buf < f → Pops buf (pop f buf)
unfolding pop
pop-Pops zero buf h = absurd (omega arith)
pop-Pops (suc f) buf h = elim (Option-cases (first_line buf)) [
  | inl n ↦ rw (pop, n) ((λ tail. refl), first_line-none buf [] n, omega arith)
  | inr (([], rest), e) ↦
      let count = (first_line-IsSplit buf [] [] ([], rest) e).1 in
      rw (pop, e)
        (skip rest (pop f rest) (pop-Pops f rest (omega (arith, count)))
          (λ tail. (first_line-IsSplit buf [] tail ([], rest) e).0) (omega (arith, count)))
  | inr ((c ∷ cs, rest), e) ↦
      let count = (first_line-IsSplit buf [] [] (c ∷ cs, rest) e).1 in
      rw (pop, e)
        ((λ tail. (first_line-IsSplit buf [] tail (c ∷ cs, rest) e).0), omega (arith, count))
]
  where
    skip :
        (rest : Bytes) (p : Popped)
        → Pops rest p
        → ((tail : Bytes) → lines_of [] (buf ++ tail) ≡ lines_of [] (rest ++ tail))
        → length rest ≤ length buf
        → Pops buf p
    skip rest (line l r) (same, less) skips h = ((λ tail. skips tail ∙ same tail), omega arith)
    skip rest (partial b) (same, none_left, less) skips h =
        ((λ tail. skips tail ∙ same tail), none_left, omega arith)

-- What a call gives: the first of the lines that the buffer and the chunks hold, or none if they
-- hold none.
abbrev Gives : List Bytes → Bytes → Option (Bytes × Bytes × List Bytes) → Type 0
Gives chunks buf none = lines_of [] (buf ++ concat chunks) ≡ []
Gives chunks buf (some (l, rest, later)) =
    (lines_of [] (buf ++ concat chunks) ≡ l ∷ lines_of [] (rest ++ concat later))
    × (length (rest ++ concat later) < length (buf ++ concat chunks))
    × All (λ c. c ≢ []) later

ends-Gives : (buf : Bytes) (p : Popped) → Pops buf p → Gives [] buf (taken [] none p)
ends-Gives buf (line l rest) (same, less) =
    (same [], omega (arith, length-append rest [], length-append buf []), tt)
ends-Gives buf (partial b) (same, none_left, less) =
    same [] ∙ ap (lines_of []) (append-nil b) ∙ none_left

reads-Gives :
    (chunk : Bytes) (chunks : List Bytes) (buf : Bytes) (more : Option (Bytes × Bytes × List Bytes))
    (p : Popped)
    → All (λ c. c ≢ []) (chunk ∷ chunks)
    → Pops buf p
    → Gives chunks (left_of p ++ chunk) more
    → Gives (chunk ∷ chunks) buf (taken (chunk ∷ chunks) more p)
reads-Gives chunk chunks buf more (line l rest) full (same, less) gives = (
  same (chunk ++ concat chunks),
  omega (
    arith,
    length-append rest (chunk ++ concat chunks),
    length-append buf (chunk ++ concat chunks),
  ),
  full,
)
reads-Gives chunk chunks buf none (partial b) full (same, none_left, less) gives =
    same (chunk ++ concat chunks)
    ∙ ap (lines_of []) (sym (append_assoc b chunk (concat chunks)))
    ∙ gives
reads-Gives chunk chunks buf (some (l, rest, later)) (partial b) full (same, none_left, less)
      (first, shorter, f) =
    (
      same (chunk ++ concat chunks)
          ∙ ap (lines_of []) (sym (append_assoc b chunk (concat chunks)))
          ∙ first,
      omega (
        arith,
        shorter,
        less,
        length-append b (chunk ++ concat chunks),
        length-append buf (chunk ++ concat chunks),
        ap length (append_assoc b chunk (concat chunks)),
      ),
      f,
    )

next_line-Gives :
    (chunks : List Bytes) (buf : Bytes)
    → All (λ c. c ≢ []) chunks
    → Gives chunks buf (next_line chunks buf)
unfolding next_line
next_line-Gives [] buf full =
    ends-Gives buf (pop_all buf) (pop-Pops (length buf + 1) buf (omega arith))
next_line-Gives ([] ∷ chunks) buf (empty, full) = absurd (empty refl)
next_line-Gives ((c ∷ cs) ∷ chunks) buf (one, full) =
    reads-Gives (c ∷ cs) chunks buf (next_line chunks (left_of (pop_all buf) ++ c ∷ cs))
      (pop_all buf) (one, full) (pop-Pops (length buf + 1) buf (omega arith))
      (next_line-Gives chunks (left_of (pop_all buf) ++ c ∷ cs) full)

-- However the reads of a stream cut its bytes, into chunks that are not empty, a reader that calls
-- until the end gets the complete lines that are not empty, each once and in order; one call more
-- than there are bytes is enough.
pub all_lines-lines_of :
    (f : ℕ) (chunks : List Bytes) (buf : Bytes)
    → All (λ c. c ≢ []) chunks
    → length (buf ++ concat chunks) < f
    → all_lines f chunks buf ≡ lines_of [] (buf ++ concat chunks)
unfolding all_lines
all_lines-lines_of zero chunks buf full h = absurd (omega arith)
all_lines-lines_of (suc f) chunks buf full h =
    let gives = next_line-Gives chunks buf full in
    elim (Option-cases (next_line chunks buf)) [
      | inl e ↦ rw (all_lines, e) (sym (subst (Gives chunks buf) e gives))
      | inr ((l, rest, later), e) ↦
          let (first, shorter, nonempty) = subst (Gives chunks buf) e gives in
          rw (all_lines, e)
            (ap (◌∷◌ l) (all_lines-lines_of f later rest nonempty (omega (arith, shorter)))
              ∙ sym first)
    ]

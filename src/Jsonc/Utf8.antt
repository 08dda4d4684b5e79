-- ===== src/Jsonc/Utf8.antt =====
-- The output of src/jsonc.rs is UTF-8 if its input is, so the final `expect` does not panic.
use g2mirror.Prelude.{
  ℕ, ◌≤◌, ◌<◌, ◌≡◌, inl, inr, refl, Bool, true, false, not, ◌&&◌, List, [], ◌∷◌, Option, none, some,
  Bytes, arith, All, within, ltb, ◌==◌, if◌then◌else◌, Bool-cases,
}
use mathlib.Core.Path.{subst}
use g2mirror.Jsonc.{blank, scan, line_comment, block_comment, strip_comments}

-- The ranges in which the next bytes of a character must lie.
abbrev pub Pending : Type 0
Pending = List (ℕ × ℕ)

abbrev tail_byte : ℕ × ℕ
tail_byte = (0x80, 0xbf)

-- The table of well-formed byte sequences (Unicode, table 3-7): what follows a first byte.
unfoldable pub lead : ℕ → Option Pending
lead b =
    if ltb b 0x80
    then some []
    else if ltb b 0xc2
    then none
    else if ltb b 0xe0
    then some (tail_byte ∷ [])
    else if b == 0xe0
    then some ((0xa0, 0xbf) ∷ tail_byte ∷ [])
    else if b == 0xed
    then some ((0x80, 0x9f) ∷ tail_byte ∷ [])
    else if ltb b 0xf0
    then some (tail_byte ∷ tail_byte ∷ [])
    else if b == 0xf0
    then some ((0x90, 0xbf) ∷ tail_byte ∷ tail_byte ∷ [])
    else if ltb b 0xf4
    then some (tail_byte ∷ tail_byte ∷ tail_byte ∷ [])
    else if b == 0xf4
    then some ((0x80, 0x8f) ∷ tail_byte ∷ tail_byte ∷ [])
    else none

abbrev pub next : Pending → ℕ → Option Pending
next [] b = lead b
next ((lo, hi) ∷ p) b = if within lo hi b then some p else none

abbrev pub Valid : Pending → Bytes → Type 0
Valid p [] = p ≡ []
Valid p (b ∷ bs) = (q : Pending) × (next p b ≡ some q) × Valid q bs

-- Later bytes of a character are not ASCII.
abbrev AboveAscii : Pending → Type 0
AboveAscii = All λ r. 0x80 ≤ r.0

abbrev LeadsAboveAscii : Option Pending → Type 0
LeadsAboveAscii none = Unit
LeadsAboveAscii (some q) = AboveAscii q

lead-AboveAscii : (b : ℕ) → LeadsAboveAscii (lead b)
unfolding lead
lead-AboveAscii b = ground arith

next-AboveAscii : (p q : Pending) (b : ℕ) → AboveAscii p → next p b ≡ some q → AboveAscii q
next-AboveAscii [] q b a e = rw e at (lead-AboveAscii b)
next-AboveAscii ((lo, hi) ∷ p) q b a e = ground arith

-- An ASCII byte is a whole character.
next_ascii :
    (p q : Pending) (b : ℕ) → AboveAscii p → b < 0x80 → next p b ≡ some q → (p ≡ []) × (q ≡ [])
unfolding lead
next_ascii [] q b a h e = ground arith
next_ascii ((lo, hi) ∷ p) q b a h e = ground arith

lead_ascii : (b : ℕ) → b < 0x80 → lead b ≡ some []
unfolding lead
lead_ascii b h = ground arith

-- A space, or a newline, for any byte: what follows starts a character.
Valid-blank : (o : ℕ) (os : Bytes) → o < 0x80 → Valid [] os → Valid [] (o ∷ os)
Valid-blank o os h v = ([], lead_ascii o h, v)

-- Behind an ASCII byte no character is open.
Valid-ascii :
    (p : Pending) (b : ℕ) (bs : Bytes)
    → AboveAscii p
    → b < 0x80
    → Valid p (b ∷ bs)
    → (p ≡ []) × Valid [] bs
Valid-ascii p b bs a h (q, e, v) =
    let (x, y) = next_ascii p q b a h e in (x, subst (λ r. Valid r bs) y v)

mutual
  unfolding scan line_comment block_comment

  scan-Valid :
      (in_string : Bool) (bs : Bytes) (p : Pending)
      → AboveAscii p
      → Valid p bs
      → Valid p (scan in_string bs)
  scan-Valid in_string [] p a v = v
  scan-Valid in_string (b ∷ []) p a v = v
  scan-Valid true (b ∷ c ∷ rest) p a (q, e, (r, f, v)) = elim (Bool-cases (b == b'\\')) [
    | inl escape ↦
        let a' = next-AboveAscii p q b a e in
        (q, e, rw escape (r, f, scan-Valid true rest r (next-AboveAscii q r c a' f) v))
    | inr plain ↦ (
      q,
      e,
      rw plain (scan-Valid (not (b == b'"')) (c ∷ rest) q (next-AboveAscii p q b a e) (r, f, v)),
    )
  ]
  scan-Valid false (b ∷ c ∷ rest) p a (q, e, (r, f, v)) =
      let a' = next-AboveAscii p q b a e in
      elim (Bool-cases (b == b'/' && c == b'/')) [
        | inl line ↦
            let (none_open, w) = Valid-ascii p b (c ∷ rest) a (ground arith) (q, e, (r, f, v)) in
            rw (line, none_open, scan)
              (Valid-blank b' ' _ (omega arith) (line_comment-Valid (c ∷ rest) q a' (r, f, v)))
        | inr other ↦ elim (Bool-cases (b == b'/' && c == b'*')) [
          | inl block ↦
              let (none_open, w) = Valid-ascii p b (c ∷ rest) a (ground arith) (q, e, (r, f, v)) in
              rw (other, block, none_open, scan)
                (Valid-blank b' ' (b' ' ∷ block_comment rest) (omega arith) (
                  Valid-blank b' ' (block_comment rest) (omega arith)
                    (block_comment-Valid rest r (next-AboveAscii q r c a' f) v)))
          | inr code ↦
              rw (other, code, scan) (q, e, scan-Valid (b == b'"') (c ∷ rest) q a' (r, f, v))
        ]
      ]

  line_comment-Valid :
      (bs : Bytes) (p : Pending) → AboveAscii p → Valid p bs → Valid [] (line_comment bs)
  line_comment-Valid [] p a v = refl
  line_comment-Valid (b ∷ bs) p a (q, e, v) = elim (Bool-cases (b == b'\n')) [
    | inl end ↦
        let (_, w) = Valid-ascii p b bs a (ground arith) (q, e, v) in
        rw (end, line_comment) (Valid-blank b _ (ground arith) (scan-Valid false bs [] tt w))
    | inr more ↦
        rw (more, line_comment)
          (Valid-blank b' ' _ (omega arith) (line_comment-Valid bs q (next-AboveAscii p q b a e) v))
  ]

  block_comment-Valid :
      (bs : Bytes) (p : Pending) → AboveAscii p → Valid p bs → Valid [] (block_comment bs)
  block_comment-Valid [] p a v = refl
  block_comment-Valid (b ∷ []) p a v = Valid-blank (blank b) [] (ground arith) refl
  block_comment-Valid (b ∷ c ∷ rest) p a (q, e, v) = elim (Bool-cases (b == b'*' && c == b'/')) [
    | inl end ↦
        let w = Valid-ascii q c rest (next-AboveAscii p q b a e) (ground arith) v in
        rw (end, block_comment)
          (Valid-blank b' ' (b' ' ∷ scan false rest) (omega arith)
            (Valid-blank b' ' (scan false rest) (omega arith) (scan-Valid false rest [] tt w.1)))
    | inr more ↦
        rw (more, block_comment)
          (Valid-blank (blank b) _ (ground arith)
            (block_comment-Valid (c ∷ rest) q (next-AboveAscii p q b a e) v))
  ]

-- If the input is UTF-8, so is the output.
pub strip_comments-Valid : (text : Bytes) → Valid [] text → Valid [] (strip_comments text)
unfolding strip_comments
strip_comments-Valid text v = scan-Valid false text [] tt v

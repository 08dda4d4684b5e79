-- ===== src/Jsonc.antt =====
-- `strip_comments` of src/jsonc.rs. The index `i` is the list of the bytes that are left.
pub mod Layout
pub mod Utf8
pub mod Pieces
mod Tests
use g2mirror.Prelude.{ℕ, Bool, true, false, not, ◌&&◌, List, [], ◌∷◌, Bytes, ◌==◌, if◌then◌else◌}

-- `if bytes[i] == b'\n' { b'\n' } else { b' ' }`
abbrev blank : ℕ → ℕ
blank b = if b == b'\n' then b'\n' else b' '

mutual
  -- The outer loop. In a string, a backslash takes the next byte with it, if there is one.
  pub scan : Bool → Bytes → Bytes
  scan in_string [] = []
  scan in_string (b ∷ []) = b ∷ []
  scan true (b ∷ c ∷ rest) =
      b
      ∷ elim (b == b'\\') [ true ↦ c ∷ scan true rest | false ↦ scan (not (b == b'"')) (c ∷ rest) ]
  scan false (b ∷ c ∷ rest) = elim (b == b'/' && c == b'/') [
    | true ↦ b' ' ∷ line_comment (c ∷ rest)
    | false ↦ elim (b == b'/' && c == b'*') [
      | true ↦ b' ' ∷ b' ' ∷ block_comment rest
      | false ↦ b ∷ scan (b == b'"') (c ∷ rest)
    ]
  ]

  -- The loop over a `//` comment, whose first round, at the slash, `scan` has made. It leaves the
  -- newline to the outer loop, which copies it.
  pub line_comment : Bytes → Bytes
  line_comment [] = []
  line_comment (b ∷ bs) = elim (b == b'\n') [
    | true ↦ b ∷ scan false bs
    | false ↦ b' ' ∷ line_comment bs
  ]

  -- The loop over a `/*` comment, behind its opening.
  pub block_comment : Bytes → Bytes
  block_comment [] = []
  block_comment (b ∷ []) = blank b ∷ []
  block_comment (b ∷ c ∷ rest) = elim (b == b'*' && c == b'/') [
    | true ↦ b' ' ∷ b' ' ∷ scan false rest
    | false ↦ blank b ∷ block_comment (c ∷ rest)
  ]

unfoldable pub strip_comments : Bytes → Bytes
unfolding scan line_comment block_comment
strip_comments = scan false

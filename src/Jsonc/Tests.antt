-- ===== src/Jsonc/Tests.antt =====
-- Runs of src/jsonc.rs on inputs of its tests, and the theorems at concrete inputs.
use Prim.Native.Char.{code as char_code}
use Prim.Native.String.{String}
use g2mirror.Prelude.{◌≡◌, refl, List, [], ◌∷◌, Bytes, arith}
use g2mirror.Jsonc.{strip_comments}
use g2mirror.Jsonc.Utf8.{Valid, lead}
use g2mirror.Jsonc.Pieces.{
  plain, escaped, Piece, code, text, line, block, render, render_blank, strip_comments-render,
}

-- The bytes of an ASCII text.
abbrev codes : String → Bytes
codes String.[] = []
codes (String.◌∷◌ c s) = char_code c ∷ codes s

trailing :
    strip_comments (codes "{\"a\": 1, // x\n\"b\": /* y */ 2}")
    ≡ codes "{\"a\": 1,     \n\"b\":         2}"
unfolding strip_comments
trailing = refl

in_strings :
    strip_comments (codes "\"http://x/*y*/\\\"//\" a/b") ≡ codes "\"http://x/*y*/\\\"//\" a/b"
unfolding strip_comments
in_strings = refl

dangling : strip_comments (codes "{} /* dangling") ≡ codes "{}            "
unfolding strip_comments
dangling = refl

abbrev pieces : List Piece
pieces =
    code b'['
    ∷ text (plain b'/' ∷ plain b'/' ∷ escaped b'"' ∷ [])
    ∷ block (b'/' ∷ b'*' ∷ b'\n' ∷ [])
    ∷ line (b'"' ∷ [])
    ∷ []

strip_comments-render_example : strip_comments (render pieces) ≡ render_blank pieces
strip_comments-render_example = strip_comments-render pieces (ground arith)

-- An accented letter in a comment.
abbrev accented : Bytes
accented = b'/' ∷ b'/' ∷ 0xc3 ∷ 0xa9 ∷ b'\n' ∷ 0xc3 ∷ 0xa9 ∷ []

accented-Valid : Valid [] accented
unfolding lead
accented-Valid =
    ([], refl, ([], refl, (_, refl, ([], refl, ([], refl, (_, refl, ([], refl, refl)))))))

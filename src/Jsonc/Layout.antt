-- ===== src/Jsonc/Layout.antt =====
-- The output of src/jsonc.rs has the layout of its input.
use g2mirror.Prelude.{◌≡◌, ◌≢◌, ◌⊎◌, inl, refl, Bool, true, false, not, [], ◌∷◌, Bytes, arith, ◌==◌}
use g2mirror.Jsonc.{scan, line_comment, block_comment, strip_comments}

-- Byte by byte, the output is the input or a space in place of something that is no newline.
abbrev pub Masks : Bytes → Bytes → Type 0
Masks [] [] = Unit
Masks [] (o ∷ os) = ⊥
Masks (b ∷ bs) [] = ⊥
Masks (b ∷ bs) (o ∷ os) = ((o ≡ b) ⊎ ((o ≡ b' ') × (b ≢ b'\n'))) × Masks bs os

mutual
  unfolding scan line_comment block_comment

  scan-Masks : (in_string : Bool) (bs : Bytes) → Masks bs (scan in_string bs)
  scan-Masks in_string [] = tt
  scan-Masks in_string (b ∷ []) = (inl refl, tt)
  scan-Masks true (b ∷ c ∷ rest) =
      ground (arith, scan-Masks true rest, scan-Masks (not (b == b'"')) (c ∷ rest))
  scan-Masks false (b ∷ c ∷ rest) = ground (
    arith,
    line_comment-Masks (c ∷ rest),
    block_comment-Masks rest,
    scan-Masks (b == b'"') (c ∷ rest),
  )

  line_comment-Masks : (bs : Bytes) → Masks bs (line_comment bs)
  line_comment-Masks [] = tt
  line_comment-Masks (b ∷ bs) = ground (arith, scan-Masks false bs, line_comment-Masks bs)

  block_comment-Masks : (bs : Bytes) → Masks bs (block_comment bs)
  block_comment-Masks [] = tt
  block_comment-Masks (b ∷ []) = ground arith
  block_comment-Masks (b ∷ c ∷ rest) =
      ground (arith, scan-Masks false rest, block_comment-Masks (c ∷ rest))

-- Each byte is kept or becomes one space, and newlines are kept: positions in the output are
-- positions in the input.
pub strip_comments-Masks : (text : Bytes) → Masks text (strip_comments text)
unfolding strip_comments
strip_comments-Masks text = scan-Masks false text

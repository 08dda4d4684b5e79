-- ===== src/Jsonc/Pieces.antt =====
-- What src/jsonc.rs does to a text that is put together from code, strings and comments.
use g2mirror.Prelude.{
  ℕ, ◌≡◌, ◌≢◌, ◌⊎◌, refl, ap, ◌∙◌, true, false, List, [], ◌∷◌, ◌++◌, map, Bytes, arith, All,
}
use g2mirror.Jsonc.{blank, scan, line_comment, block_comment, strip_comments}

-- What a string holds: a byte that is neither a quote nor a backslash, or an escaped one.
pub data Item : Type 0 where
  plain : ℕ → Item
  escaped : ℕ → Item

-- A comment carries what stands between its marks; a line comment ends with a newline.
pub data Piece : Type 0 where
  code : ℕ → Piece
  text : List Item → Piece
  line : Bytes → Piece
  block : Bytes → Piece

abbrev pub item_bytes : List Item → Bytes
item_bytes [] = []
item_bytes (plain b ∷ is) = b ∷ item_bytes is
item_bytes (escaped b ∷ is) = b'\\' ∷ b ∷ item_bytes is

abbrev pub render : List Piece → Bytes
render [] = []
render (code b ∷ ps) = b ∷ render ps
render (text is ∷ ps) = b'"' ∷ (item_bytes is ++ b'"' ∷ render ps)
render (line bs ∷ ps) = b'/' ∷ b'/' ∷ (bs ++ b'\n' ∷ render ps)
render (block bs ∷ ps) = b'/' ∷ b'*' ∷ (bs ++ b'*' ∷ b'/' ∷ render ps)

-- The same with each comment, its marks included, replaced by spaces.
abbrev pub render_blank : List Piece → Bytes
render_blank [] = []
render_blank (code b ∷ ps) = b ∷ render_blank ps
render_blank (text is ∷ ps) = b'"' ∷ (item_bytes is ++ b'"' ∷ render_blank ps)
render_blank (line bs ∷ ps) = b' ' ∷ b' ' ∷ (map (λ b. b' ') bs ++ b'\n' ∷ render_blank ps)
render_blank (block bs ∷ ps) = b' ' ∷ b' ' ∷ (map blank bs ++ b' ' ∷ b' ' ∷ render_blank ps)

abbrev pub IsItem : Item → Type 0
IsItem (plain b) = (b ≢ b'"') × (b ≢ b'\\')
IsItem (escaped b) = Unit

-- No `*/` inside, and none that would end with the closing mark.
abbrev NoClose : Bytes → Type 0
NoClose [] = Unit
NoClose (b ∷ []) = b ≢ b'*'
NoClose (b ∷ c ∷ bs) = ((b ≢ b'*') ⊎ (c ≢ b'/')) × NoClose (c ∷ bs)

abbrev pub IsPiece : Piece → Type 0
IsPiece (code b) = (b ≢ b'"') × (b ≢ b'/')
IsPiece (text is) = All IsItem is
IsPiece (line bs) = All (λ b. b ≢ b'\n') bs
IsPiece (block bs) = NoClose bs

scan_code :
    (b : ℕ) (rest : Bytes) → b ≢ b'"' → b ≢ b'/' → scan false (b ∷ rest) ≡ b ∷ scan false rest
unfolding scan
scan_code b [] q s = refl
scan_code b (c ∷ rest) q s = ground arith

scan_plain :
    (b : ℕ) (rest : Bytes) → b ≢ b'"' → b ≢ b'\\' → scan true (b ∷ rest) ≡ b ∷ scan true rest
unfolding scan
scan_plain b [] q s = refl
scan_plain b (c ∷ rest) q s = ground arith

scan_open : (rest : Bytes) → scan false (b'"' ∷ rest) ≡ b'"' ∷ scan true rest
unfolding scan
scan_open [] = refl
scan_open (c ∷ rest) = refl

scan-item_bytes :
    (is : List Item) (rest : Bytes)
    → All IsItem is
    → scan true (item_bytes is ++ b'"' ∷ rest) ≡ item_bytes is ++ b'"' ∷ scan false rest
unfolding scan
scan-item_bytes [] [] h = refl
scan-item_bytes [] (c ∷ rest) h = refl
scan-item_bytes (plain b ∷ is) rest (h, t) =
    scan_plain b (item_bytes is ++ b'"' ∷ rest) h.0 h.1 ∙ ap (◌∷◌ b) (scan-item_bytes is rest t)
scan-item_bytes (escaped b ∷ is) rest (h, t) = ap (λ x. b'\\' ∷ b ∷ x) (scan-item_bytes is rest t)

line_comment-append :
    (bs rest : Bytes)
    → All (λ b. b ≢ b'\n') bs
    → line_comment (bs ++ b'\n' ∷ rest) ≡ map (λ b. b' ') bs ++ b'\n' ∷ scan false rest
unfolding line_comment
line_comment-append [] rest h = refl
line_comment-append (b ∷ bs) rest (h, t) = ground (arith, line_comment-append bs rest t)

block_comment-append :
    (bs rest : Bytes)
    → NoClose bs
    → block_comment (bs ++ b'*' ∷ b'/' ∷ rest) ≡ map blank bs ++ b' ' ∷ b' ' ∷ scan false rest
unfolding block_comment
block_comment-append [] rest h = refl
block_comment-append (b ∷ []) rest h = ground arith
block_comment-append (b ∷ c ∷ bs) rest (h, t) = ground (arith, block_comment-append (c ∷ bs) rest t)

scan-render : (ps : List Piece) → All IsPiece ps → scan false (render ps) ≡ render_blank ps
unfolding scan
scan-render [] h = refl
scan-render (code b ∷ ps) ((q, s), t) = scan_code b (render ps) q s ∙ ap (◌∷◌ b) (scan-render ps t)
scan-render (text is ∷ ps) (h, t) =
    scan_open (item_bytes is ++ b'"' ∷ render ps)
    ∙ ap (◌∷◌ b'"')
        (scan-item_bytes is (render ps) h ∙ ap (λ x. item_bytes is ++ b'"' ∷ x) (scan-render ps t))
scan-render (line bs ∷ ps) (h, t) =
    ap (λ x. b' ' ∷ b' ' ∷ x)
      (line_comment-append bs (render ps) h
        ∙ ap (λ x. map (λ b. b' ') bs ++ b'\n' ∷ x) (scan-render ps t))
scan-render (block bs ∷ ps) (h, t) =
    ap (λ x. b' ' ∷ b' ' ∷ x)
      (block_comment-append bs (render ps) h
        ∙ ap (λ x. map blank bs ++ b' ' ∷ b' ' ∷ x) (scan-render ps t))

-- For a text that is put together from code bytes, strings and comments, each of them well formed
-- (IsPiece), code and strings come through untouched, whatever the strings hold, and every comment
-- turns into spaces.
pub strip_comments-render :
    (ps : List Piece) → All IsPiece ps → strip_comments (render ps) ≡ render_blank ps
unfolding strip_comments
strip_comments-render ps h = scan-render ps h

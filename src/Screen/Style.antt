-- ===== src/Screen/Style.antt =====
-- Cell styles and the SGR sequences that select them: `CellStyle`, `emit_sgr` and `emit_color` of
-- src/mirror.rs.
use g2mirror.Prelude.{
  ℕ, ◌+◌, Bool, true, false, not, ◌&&◌, [], ◌∷◌, ◌++◌, Bytes, ltb, ◌==◌, if◌then◌else◌,
}
use g2mirror.Prelude.Decimal.{decimal}
use g2mirror.Screen.{Color, Cell}

pub record CellStyle : Type 0 where
  pub fg : Color
  pub bg : Color
  pub bold : Bool
  pub dim : Bool
  pub italic : Bool
  pub underline : Bool
  pub inverse : Bool

abbrev pub default_style : CellStyle
default_style = record {
  fg = Color.default;
  bg = Color.default;
  bold = false;
  dim = false;
  italic = false;
  underline = false;
  inverse = false;
}

abbrev pub style_of : Cell → CellStyle
style_of c = record {
  fg = c.fgcolor;
  bg = c.bgcolor;
  bold = c.bold;
  dim = c.dim;
  italic = c.italic;
  underline = c.underline;
  inverse = c.inverse;
}

abbrev pub same_bool : Bool → Bool → Bool
same_bool true b = b
same_bool false b = not b

abbrev pub same_color : Color → Color → Bool
same_color Color.default Color.default = true
same_color Color.default (Color.idx j) = false
same_color Color.default (Color.rgb r g b) = false
same_color (Color.idx i) Color.default = false
same_color (Color.idx i) (Color.idx j) = i == j
same_color (Color.idx i) (Color.rgb r g b) = false
same_color (Color.rgb r g b) Color.default = false
same_color (Color.rgb r g b) (Color.idx j) = false
same_color (Color.rgb r g b) (Color.rgb x y z) = r == x && g == y && b == z

-- The derived `==` of `CellStyle`.
abbrev pub same_style : CellStyle → CellStyle → Bool
same_style s t =
    same_color s.fg t.fg
    && same_color s.bg t.bg
    && same_bool s.bold t.bold
    && same_bool s.dim t.dim
    && same_bool s.italic t.italic
    && same_bool s.underline t.underline
    && same_bool s.inverse t.inverse

abbrev pub is_default : Color → Bool
is_default Color.default = true
is_default (Color.idx i) = false
is_default (Color.rgb r g b) = false

-- A blank cell of the style shows nothing.
abbrev pub blank_is_invisible : CellStyle → Bool
blank_is_invisible s = is_default s.bg && not s.inverse

-- `format!(";{}", n)`
abbrev pub param : ℕ → Bytes
param n = b';' ∷ decimal n

unfoldable pub emit_color : Color → Bool → Bytes
emit_color Color.default background = []
emit_color (Color.idx i) background =
    let base : ℕ = if background then 10 else 0 in
    if ltb i 8
    then param (30 + base + i)
    else (if ltb i 16
        then param (82 + base + i)
        else param (38 + base) ++ b';' ∷ b'5' ∷ b';' ∷ decimal i)
emit_color (Color.rgb r g b) background =
    let base : ℕ = if background then 10 else 0 in
    param (38 + base) ++ b';' ∷ b'2' ∷ param r ++ param g ++ param b

-- A full reset, then the attributes and the colours that differ from the default.
unfoldable pub emit_sgr : CellStyle → Bytes
unfolding emit_color
emit_sgr s =
    0x1b ∷ b'[' ∷ b'0' ∷ (if s.bold then b';' ∷ b'1' ∷ [] else [])
    ++ (if s.dim then b';' ∷ b'2' ∷ [] else [])
    ++ (if s.italic then b';' ∷ b'3' ∷ [] else [])
    ++ (if s.underline then b';' ∷ b'4' ∷ [] else [])
    ++ (if s.inverse then b';' ∷ b'7' ∷ [] else [])
    ++ emit_color s.fg false
    ++ emit_color s.bg true
    ++ b'm' ∷ []

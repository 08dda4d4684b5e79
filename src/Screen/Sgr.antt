-- ===== src/Screen/Sgr.antt =====
-- What the sequences of `emit_sgr` (src/mirror.rs) mean to a terminal: the parameters of SGR as
-- ECMA-48 and xterm give them.
use g2mirror.Prelude.{
  ℕ, ◌+◌, ◌-◌, ◌≡◌, refl, sym, ap, ◌∙◌, Bool, true, false, List, [], ◌∷◌, ◌++◌, Bytes, append_assoc,
  append-nil, ltb, ◌==◌, within, if◌then◌else◌, Bool-cases, inl, inr, arith,
}
use g2mirror.Prelude.Decimal.{decimal, digits}
use g2mirror.Screen.{Color}
use g2mirror.Screen.Style.{CellStyle, default_style, param, emit_color, emit_sgr}

-- What the next parameter is: `true` is the background.
pub data Expects : Type 0 where
  any_code : Expects
  kind : Bool → Expects
  index : Bool → Expects
  red : Bool → Expects
  green : Bool → ℕ → Expects
  blue : Bool → ℕ → ℕ → Expects

abbrev pub set_color : Bool → Color → CellStyle → CellStyle
set_color false c s = record s { fg = c }
set_color true c s = record s { bg = c }

-- A code that starts an attribute.
abbrev pub select : ℕ → CellStyle → Expects × CellStyle
select n s =
    if n == 0
    then (any_code, default_style)
    else (if n == 1
        then (any_code, record s { bold = true })
        else (if n == 2
            then (any_code, record s { dim = true })
            else (if n == 3
                then (any_code, record s { italic = true })
                else (if n == 4
                    then (any_code, record s { underline = true })
                    else (if n == 7
                        then (any_code, record s { inverse = true })
                        else (if within 30 37 n
                            then (any_code, record s { fg = Color.idx (n - 30) })
                            else (if n == 38
                                then (kind false, s)
                                else (if within 40 47 n
                                    then (any_code, record s { bg = Color.idx (n - 40) })
                                    else (if n == 48
                                        then (kind true, s)
                                        else (if within 90 97 n
                                            then (
                                              any_code,
                                              record s { fg = Color.idx (n - 90 + 8) },
                                            )
                                            else (if within 100 107 n
                                                then (
                                                  any_code,
                                                  record s { bg = Color.idx (n - 100 + 8) },
                                                )
                                                else (any_code, s))))))))))))

abbrev pub read_code : Expects → CellStyle → ℕ → Expects × CellStyle
read_code any_code s n = select n s
read_code (kind background) s n =
    if n == 5
    then (index background, s)
    else (if n == 2 then (red background, s) else (any_code, s))
read_code (index background) s n = (any_code, set_color background (Color.idx n) s)
read_code (red background) s n = (green background n, s)
read_code (green background r) s n = (blue background r n, s)
read_code (blue background r g) s n = (any_code, set_color background (Color.rgb r g n) s)

pub read_codes : Expects × CellStyle → List ℕ → Expects × CellStyle
read_codes (e, s) [] = (e, s)
read_codes (e, s) (n ∷ ns) = read_codes (read_code e s n) ns

-- Further parameters, each after its separator.
abbrev pub parameters : List ℕ → Bytes
parameters [] = []
parameters (n ∷ ns) = param n ++ parameters ns

-- The control sequence of these parameters.
abbrev pub sgr : ℕ → List ℕ → Bytes
sgr n ns = 0x1b ∷ b'[' ∷ decimal n ++ parameters ns ++ b'm' ∷ []

read-append :
    (e : Expects) (s : CellStyle) (ms ns : List ℕ)
    → read_codes (e, s) (ms ++ ns) ≡ read_codes (read_codes (e, s) ms) ns
unfolding read_codes
read-append e s [] ns = refl
read-append e s (m ∷ ms) ns = read-append (read_code e s m).0 (read_code e s m).1 ms ns

parameters-append : (ms ns : List ℕ) → parameters (ms ++ ns) ≡ parameters ms ++ parameters ns
parameters-append [] ns = refl
parameters-append (m ∷ ms) ns =
    ap (◌++◌ (param m)) (parameters-append ms ns)
    ∙ sym (append_assoc (param m) (parameters ms) (parameters ns))

abbrev flag : Bool → ℕ → List ℕ
flag b n = if b then n ∷ [] else []

abbrev color_codes : Color → Bool → List ℕ
color_codes Color.default background = []
color_codes (Color.idx i) background =
    let base : ℕ = if background then 10 else 0 in
    if ltb i 8
    then (30 + base + i) ∷ []
    else (if ltb i 16 then (82 + base + i) ∷ [] else (38 + base) ∷ 5 ∷ i ∷ [])
color_codes (Color.rgb r g b) background =
    let base : ℕ = if background then 10 else 0 in (38 + base) ∷ 2 ∷ r ∷ g ∷ b ∷ []

-- The parameters after the reset.
abbrev codes : CellStyle → List ℕ
codes s =
    flag s.bold 1
    ++ (flag s.dim 2
        ++ (flag s.italic 3
            ++ (flag s.underline 4
                ++ (flag s.inverse 7 ++ (color_codes s.fg false ++ color_codes s.bg true)))))

emit_color-codes : (c : Color) (b : Bool) → emit_color c b ≡ parameters (color_codes c b)
unfolding emit_color decimal digits
emit_color-codes Color.default b = refl
emit_color-codes (Color.idx i) b =
    let base : ℕ = if b then 10 else 0 in
    elim (Bool-cases (ltb i 8)) [
      | inl low ↦ rw low (sym (append-nil (param (30 + base + i))))
      | inr more ↦ elim (Bool-cases (ltb i 16)) [
        | inl bright ↦ rw (more, bright) (sym (append-nil (param (82 + base + i))))
        | inr rest ↦
            rw (more, rest)
              (ap (λ ds. param (38 + base) ++ b';' ∷ b'5' ∷ b';' ∷ ds)
                (sym (append-nil (decimal i))))
      ]
    ]
emit_color-codes (Color.rgb r g b') b = simp (append_assoc, append-nil)

select-low :
    (b : Bool) (i : ℕ) (s : CellStyle)
    → ltb i 8 ≡ true
    → select (30 + (if b then 10 else 0) + i) s ≡ (any_code, set_color b (Color.idx i) s)
select-low false i s h = ground arith
select-low true i s h = ground arith

select-bright :
    (b : Bool) (i : ℕ) (s : CellStyle)
    → ltb i 8 ≡ false
    → ltb i 16 ≡ true
    → select (82 + (if b then 10 else 0) + i) s ≡ (any_code, set_color b (Color.idx i) s)
select-bright false i s h k = ground arith
select-bright true i s h k = ground arith

select-indexed :
    (b : Bool) (i : ℕ) (s : CellStyle) (ns : List ℕ)
    → read_codes (any_code, s) ((38 + (if b then 10 else 0)) ∷ 5 ∷ i ∷ ns)
      ≡ read_codes (any_code, set_color b (Color.idx i) s) ns
unfolding read_codes
select-indexed false i s ns = refl
select-indexed true i s ns = refl

read_color :
    (c : Color) (b : Bool) (s : CellStyle) (ns : List ℕ)
    → (b ≡ false → s.fg ≡ Color.default)
    → (b ≡ true → s.bg ≡ Color.default)
    → read_codes (any_code, s) (color_codes c b ++ ns) ≡ read_codes (any_code, set_color b c s) ns
unfolding read_codes
read_color Color.default false s ns f g = λ i. read_codes (any_code, record s { fg = f refl i }) ns
read_color Color.default true s ns f g = λ i. read_codes (any_code, record s { bg = g refl i }) ns
read_color (Color.rgb r g' b') false s ns f g = refl
read_color (Color.rgb r g' b') true s ns f g = refl
read_color (Color.idx i) b s ns f g = elim (Bool-cases (ltb i 8)) [
  | inl low ↦ rw low (ap (λ p. read_codes p ns) (select-low b i s low))
  | inr more ↦ elim (Bool-cases (ltb i 16)) [
    | inl bright ↦ rw (more, bright) (ap (λ p. read_codes p ns) (select-bright b i s more bright))
    | inr rest ↦ rw (more, rest) (select-indexed b i s ns)
  ]
]

read_bold :
    (b : Bool) (s : CellStyle) (ns : List ℕ)
    → s.bold ≡ false
    → read_codes (any_code, s) (flag b 1 ++ ns) ≡ read_codes (any_code, record s { bold = b }) ns
unfolding read_codes
read_bold true s ns e = refl
read_bold false s ns e = λ i. read_codes (any_code, record s { bold = e i }) ns

read_dim :
    (b : Bool) (s : CellStyle) (ns : List ℕ)
    → s.dim ≡ false
    → read_codes (any_code, s) (flag b 2 ++ ns) ≡ read_codes (any_code, record s { dim = b }) ns
unfolding read_codes
read_dim true s ns e = refl
read_dim false s ns e = λ i. read_codes (any_code, record s { dim = e i }) ns

read_italic :
    (b : Bool) (s : CellStyle) (ns : List ℕ)
    → s.italic ≡ false
    → read_codes (any_code, s) (flag b 3 ++ ns) ≡ read_codes (any_code, record s { italic = b }) ns
unfolding read_codes
read_italic true s ns e = refl
read_italic false s ns e = λ i. read_codes (any_code, record s { italic = e i }) ns

read_underline :
    (b : Bool) (s : CellStyle) (ns : List ℕ)
    → s.underline ≡ false
    → read_codes (any_code, s) (flag b 4 ++ ns)
      ≡ read_codes (any_code, record s { underline = b }) ns
unfolding read_codes
read_underline true s ns e = refl
read_underline false s ns e = λ i. read_codes (any_code, record s { underline = e i }) ns

read_inverse :
    (b : Bool) (s : CellStyle) (ns : List ℕ)
    → s.inverse ≡ false
    → read_codes (any_code, s) (flag b 7 ++ ns) ≡ read_codes (any_code, record s { inverse = b }) ns
unfolding read_codes
read_inverse true s ns e = refl
read_inverse false s ns e = λ i. read_codes (any_code, record s { inverse = e i }) ns

flag-parameters :
    (b : Bool) (n d : ℕ)
    → decimal n ≡ d ∷ []
    → (if b then b';' ∷ d ∷ [] else []) ≡ parameters (flag b n)
flag-parameters true n d e = rw e refl
flag-parameters false n d e = refl

zero_text : decimal 0 ≡ b'0' ∷ []
unfolding decimal digits
zero_text = refl

emit_sgr-codes : (s : CellStyle) → emit_sgr s ≡ sgr 0 (codes s)
unfolding emit_sgr
emit_sgr-codes s =
    rw
      (
        flag-parameters s.bold 1 b'1' (unfold decimal digits in refl),
        flag-parameters s.dim 2 b'2' (unfold decimal digits in refl),
        flag-parameters s.italic 3 b'3' (unfold decimal digits in refl),
        flag-parameters s.underline 4 b'4' (unfold decimal digits in refl),
        flag-parameters s.inverse 7 b'7' (unfold decimal digits in refl),
        emit_color-codes s.fg false,
        emit_color-codes s.bg true,
      )
      (simp (append_assoc, parameters-append, zero_text))

read-codes : (s t : CellStyle) → read_codes (any_code, t) (0 ∷ codes s) ≡ (any_code, s)
unfolding read_codes
read-codes s t =
    read_bold s.bold default_style _ refl
    ∙ read_dim s.dim (record default_style { bold = s.bold }) _ refl
    ∙ read_italic s.italic (record default_style { bold = s.bold; dim = s.dim }) _ refl
    ∙ read_underline s.underline
        (record default_style { bold = s.bold; dim = s.dim; italic = s.italic }) _ refl
    ∙ read_inverse s.inverse
        (record default_style {
          bold = s.bold;
          dim = s.dim;
          italic = s.italic;
          underline = s.underline;
        })
        _ refl
    ∙ read_color s.fg false (record s { fg = Color.default; bg = Color.default })
        (color_codes s.bg true) (λ _. refl) (λ f. absurd cc)
    ∙ ap (read_codes (any_code, record s { bg = Color.default }))
        (sym (append-nil (color_codes s.bg true)))
    ∙ read_color s.bg true (record s { bg = Color.default }) [] (λ f. absurd cc) (λ _. refl)

-- What `emit_sgr` writes for a style is one SGR sequence. To a terminal that reads its parameters
-- by ECMA-48 and xterm's extensions (the bright colours, 256 colours, direct colours), whatever
-- style it has before, the sequence means exactly that style, and no parameter is left pending.
pub emit_sgr-read :
    (s : CellStyle)
    → (ns : List ℕ) × (emit_sgr s ≡ sgr 0 ns)
      × ((t : CellStyle) → read_codes (any_code, t) (0 ∷ ns) ≡ (any_code, s))
emit_sgr-read s = (codes s, emit_sgr-codes s, read-codes s)

-- ===== src/Server/Splice/Tokens.antt =====
-- The text of a config as `insert_token_text` of src/bin/g2mirror-server.rs ought to read it:
-- strings, brackets and other bytes, and how deep the brackets are.
use g2mirror.Prelude.{
  ℕ, ◌+◌, ◌%◌, ◌≡◌, ◌≢◌, ◌⊎◌, List, [], ◌∷◌, ◌++◌, Bytes, All, ascii, arith, ◌==◌, Bool-cases, inl,
  inr, true, false, ◌-◌, ◌^◌, subst,
}
use g2mirror.Jsonc.Pieces.{Item, item_bytes, IsItem}
use g2mirror.Server.Splice.{opens, closes, indented}

pub data Token : Type 0 where
  string : List Item → Token
  up : ℕ → Token
  down : ℕ → Token
  other : ℕ → Token

abbrev pub token_bytes : Token → Bytes
token_bytes (string items) = b'"' ∷ (item_bytes items ++ b'"' ∷ [])
token_bytes (up b) = b ∷ []
token_bytes (down b) = b ∷ []
token_bytes (other b) = b ∷ []

abbrev pub render : List Token → Bytes
render [] = []
render (t ∷ ts) = token_bytes t ++ render ts

abbrev pub IsUp : ℕ → Type 0
IsUp b = (b ≡ b'{') ⊎ (b ≡ b'[')

abbrev pub IsDown : ℕ → Type 0
IsDown b = (b ≡ b'}') ⊎ (b ≡ b']')

abbrev pub IsToken : Token → Type 0
IsToken (string items) = All IsItem items
IsToken (up b) = IsUp b
IsToken (down b) = IsDown b
IsToken (other b) = (b ≢ b'"') × (b ≢ b'{') × (b ≢ b'[') × (b ≢ b'}') × (b ≢ b']')

-- The depth behind a token, and behind several, as 32 bits.
abbrev pub turn : ℕ → Token → ℕ
turn d (string items) = d
turn d (up b) = (d + 1) % 2 ^ 32
turn d (down b) = (d + (2 ^ 32 - 1)) % 2 ^ 32
turn d (other b) = d

abbrev pub level : ℕ → List Token → ℕ
level d [] = d
level d (t ∷ ts) = level (turn d t) ts

-- No bracket on the way closes the outermost one.
abbrev pub Stays : ℕ → List Token → Type 0
Stays d [] = Unit
Stays d (string items ∷ ts) = Stays d ts
Stays d (up b ∷ ts) = Stays (turn d (up b)) ts
Stays d (down b ∷ ts) = (turn d (down b) ≢ 0) × Stays (turn d (down b)) ts
Stays d (other b ∷ ts) = Stays d ts

pub opens-IsUp : (b : ℕ) → opens b ≡ true → IsUp b
opens-IsUp b h = elim (Bool-cases (b == b'{')) [
  | inl brace ↦ inl (ground (arith, brace))
  | inr bracket ↦ inr (ground (arith, h, bracket))
]

pub closes-IsDown : (b : ℕ) → closes b ≡ true → IsDown b
closes-IsDown b h = elim (Bool-cases (b == b'}')) [
  | inl brace ↦ inl (ground (arith, brace))
  | inr bracket ↦ inr (ground (arith, h, bracket))
]

pub other-IsToken :
    (b : ℕ) → (b == b'"') ≡ false → opens b ≡ false → closes b ≡ false → IsToken (other b)
other-IsToken b q o c = (
  λ e. absurd (ground (arith, q, e)),
  λ e. absurd (ground (arith, o, e)),
  λ e. absurd (ground (arith, o, e)),
  λ e. absurd (ground (arith, c, e)),
  λ e. absurd (ground (arith, c, e)),
)

-- The second text is the first with four spaces behind each newline.
pub data Indents : Bytes → Bytes → Type 0 where
  ends : Indents [] []
  breaks : (rest out : Bytes) → Indents rest out → Indents (b'\n' ∷ rest) (ascii "\n    " ++ out)
  keeps : (c : ℕ) (rest out : Bytes) → c ≢ b'\n' → Indents rest out → Indents (c ∷ rest) (c ∷ out)

pub indented-Indents : (bs : Bytes) → Indents bs (indented bs)
indented-Indents [] = ends
indented-Indents (b ∷ bs) = elim (Bool-cases (b == b'\n')) [
  | inl line ↦
      let e : b'\n' ≡ b = ground (arith, line) in
      rw line (
        subst (λ c. Indents (c ∷ bs) (ascii "\n    " ++ indented bs)) e
          (breaks bs (indented bs) (indented-Indents bs)))
  | inr plain ↦
      rw plain
        (keeps b bs (indented bs) (λ e. absurd (ground (arith, plain, e))) (indented-Indents bs))
]

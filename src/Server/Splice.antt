-- ===== src/Server/Splice.antt =====
-- `insert_token_text` and `skip_string` of src/bin/g2mirror-server.rs, on the bytes of the text.
-- JSON printing is a parameter: `entry` is the token as serde_json prints it.
pub mod Tokens
pub mod Strings
pub mod Found
pub mod Closed
pub mod Placed
pub mod Kept
pub mod Fuel
mod Tests
use g2mirror.Prelude.{
  ℕ, zero, suc, ◌+◌, ◌-◌, ◌%◌, Bool, true, false, ◌&&◌, ◌||◌, List, [], ◌∷◌, ◌++◌, Option, none,
  some, ◌>>=◌, Bytes, length, get_elem?, take, drop, ltb, within, ◌==◌, if◌then◌else◌, same, ascii,
  u32_mod,
}
use g2mirror.Prelude.Results.{Result, ok, err}
use g2mirror.Jsonc.{strip_comments}

-- The rest of a string, from index `i` on: the index behind its closing quote.
unfoldable pub skip_from : Bytes → ℕ → ℕ
skip_from [] i = i
skip_from (b ∷ []) i = if b == b'\\' then i + 2 else i + 1
skip_from (b ∷ c ∷ rest) i = elim (b == b'\\') [
  | true ↦ skip_from rest (i + 2)
  | false ↦ elim (b == b'"') [ true ↦ i + 1 | false ↦ skip_from (c ∷ rest) (i + 1) ]
]

unfoldable pub skip_string : Bytes → ℕ → ℕ
unfolding skip_from
skip_string bytes i = skip_from (drop (i + 1) bytes) (i + 1)

-- `is_ascii_whitespace`
abbrev pub is_blank : ℕ → Bool
is_blank b = b == b' ' || b == 9 || b == b'\n' || b == 12 || b == b'\r'

-- `is_whitespace`, for ASCII
abbrev pub is_whitespace : ℕ → Bool
is_whitespace b = b == b' ' || within 9 13 b

abbrev pub blanks : Bytes → ℕ
blanks [] = 0
blanks (b ∷ bs) = if is_blank b then suc (blanks bs) else 0

-- The index of the first byte from `i` on that is no white space.
abbrev pub skip_blanks : Bytes → ℕ → ℕ
skip_blanks bytes i = i + blanks (drop i bytes)

abbrev pub is_at : Bytes → ℕ → ℕ → Bool
is_at bytes i b = elim (get_elem? bytes i) [ none ↦ false | some c ↦ c == b ]

abbrev pub opens : ℕ → Bool
opens b = b == b'{' || b == b'['

abbrev pub closes : ℕ → Bool
closes b = b == b'}' || b == b']'

-- The depth is an i32, as its bits.
abbrev pub deeper : ℕ → ℕ
deeper depth = (depth + 1) % u32_mod

abbrev pub shallower : ℕ → ℕ
shallower depth = (depth + u32_mod - 1) % u32_mod

-- The first loop, on fuel: the index behind the colon of the key, if there is one. `none`: the
-- slice panics.
unfoldable pub find_key : ℕ → Bytes → ℕ → ℕ → Option (Option ℕ)
unfolding skip_string
find_key zero bytes i depth = some none
find_key (suc f) bytes i depth = elim (get_elem? bytes i) [
  | none ↦ some none
  | some b ↦ elim (b == b'"') [
    | true ↦
        let end = skip_string bytes i in
        let colon = skip_blanks bytes end in
        elim (depth == 1 && ltb (length bytes) end) [
          | true ↦ none
          | false ↦
              elim (depth == 1
                && same (take (end - i) (drop i bytes)) (ascii "\"auth_tokens\"")
                && is_at bytes colon b':') [
                  | true ↦ some (some (colon + 1))
                  | false ↦ find_key f bytes end depth
                ]
        ]
    | false ↦ elim (opens b) [
      | true ↦ find_key f bytes (i + 1) (deeper depth)
      | false ↦ elim (closes b) [
        | true ↦ find_key f bytes (i + 1) (shallower depth)
        | false ↦ find_key f bytes (i + 1) depth
      ]
    ]
  ]
]

-- The second loop, on fuel: the index of the bracket that closes the array. `none`: there is none.
unfoldable pub find_close : ℕ → Bytes → ℕ → ℕ → Option ℕ
unfolding skip_string
find_close zero bytes i depth = none
find_close (suc f) bytes i depth = elim (get_elem? bytes i) [
  | none ↦ none
  | some b ↦ elim (b == b'"') [
    | true ↦ find_close f bytes (skip_string bytes i) depth
    | false ↦ elim (opens b) [
      | true ↦ find_close f bytes (i + 1) (deeper depth)
      | false ↦ elim (closes b) [
        | true ↦ elim (shallower depth == 0) [
          | true ↦ some i
          | false ↦ find_close f bytes (i + 1) (shallower depth)
        ]
        | false ↦ find_close f bytes (i + 1) depth
      ]
    ]
  ]
]

-- `rfind(|c| !c.is_whitespace())`: the offset of the last byte that is no white space, and the byte.
unfoldable pub last_solid : Bytes → Option (ℕ × ℕ)
last_solid [] = none
last_solid (b ∷ bs) = elim (last_solid bs) [
  | none ↦ if is_whitespace b then none else some (0, b)
  | some (off, c) ↦ some (suc off, c)
]

-- `replace('\n', "\n    ")`
abbrev pub indented : Bytes → Bytes
indented [] = []
indented (b ∷ bs) = if b == b'\n' then ascii "\n    " ++ indented bs else b ∷ indented bs

abbrev pub only_element : Bytes → Bytes
only_element entry = ascii "\n    " ++ indented entry ++ ascii "\n  "

abbrev pub next_element : Bytes → Bytes
next_element entry = ascii ",\n    " ++ indented entry

-- Where the entry goes, and what is put there, for an array whose brackets are at `start` and
-- `close`. `none`: the text would be cut within a character; what parses has only ASCII there.
unfoldable pub place_entry : Bytes → ℕ → ℕ → Bytes → Option (ℕ × Bytes)
unfolding last_solid
place_entry stripped start close entry =
    elim (last_solid (take (close - (start + 1)) (drop (start + 1) stripped))) [
      | none ↦ some (start + 1, only_element entry)
      | some (off, c) ↦ if ltb c 128 then some (start + 1 + off + 1, next_element entry) else none
    ]

pub data SpliceError : Type 0 where
  unterminated : SpliceError

abbrev pub Spliced : Type 0
Spliced = Option (Result SpliceError (Option Bytes))

-- Behind the key's colon.
unfoldable pub splice_at : Bytes → Bytes → Bytes → ℕ → Spliced
unfolding find_close place_entry
splice_at text stripped entry key =
    let start = skip_blanks stripped key in
    if is_at stripped start b'['
    then (elim (find_close (length stripped + 1) stripped start 0) [
      | none ↦ some (err unterminated)
      | some close ↦ elim (place_entry stripped start close entry) [
        | none ↦ none
        | some (at, insert) ↦ some (ok (some (take at text ++ insert ++ drop at text)))
      ]
    ])
    else some (ok none)

-- `none`: a panic, which a text that parses does not cause.
unfoldable pub insert_token_text : Bytes → Bytes → Spliced
unfolding find_key splice_at
insert_token_text text entry =
    let stripped = strip_comments text in
    find_key (length stripped + 1) stripped 0 0 >>= λ found. elim found [
      | none ↦ some (ok none)
      | some key ↦ splice_at text stripped entry key
    ]

-- ===== src/Server/Splice/Strings.antt =====
-- The strings and the white space that `insert_token_text` of src/bin/g2mirror-server.rs skips.
use g2mirror.Prelude.{
  ℕ, suc, ◌+◌, ◌≤◌, ◌<◌, ◌≡◌, ◌⊎◌, refl, sym, ap, ◌∙◌, true, List, [], ◌∷◌, ◌++◌, some, Bytes, All,
  length, get_elem?, take, drop, drop_step, drop_all, drop-drop, length-drop, length-append,
  take-append-drop, append_assoc, ◌==◌, Bool-cases, Option-cases, inl, inr, arith,
}
use g2mirror.Jsonc.Pieces.{Item, plain, escaped, item_bytes, IsItem}
use g2mirror.Server.Splice.{skip_from, skip_string, is_blank, blanks, skip_blanks, is_at}
use g2mirror.Server.Splice.Tokens.{string, token_bytes}

-- A string ends behind its first quote that is not escaped, if there is one.
skip_from-items :
    (bs : Bytes) (i : ℕ)
    → (i + length bs ≤ skip_from bs i)
      ⊎ ((items : List Item) × (rest : Bytes) × All IsItem items
          × (bs ≡ item_bytes items ++ b'"' ∷ rest)
          × (skip_from bs i + length rest ≡ i + length bs))
unfolding skip_from
skip_from-items [] i = inl (ground arith)
skip_from-items (b ∷ []) i = inl (ground arith)
skip_from-items (b ∷ c ∷ rest) i = elim (Bool-cases (b == b'\\')) [
  | inl slash ↦
      let e : b ≡ b'\\' = ground (arith, slash) in
      elim (skip_from-items rest (i + 2)) [
        | inl far ↦ inl (ground (arith, slash, far))
        | inr (items, after, good, split, n) ↦ inr (
          escaped c ∷ items,
          after,
          (tt, good),
          (λ j. e j ∷ c ∷ split j),
          ground (arith, slash, n),
        )
      ]
  | inr bare ↦ elim (Bool-cases (b == b'"')) [
    | inl quote ↦
        let e : b ≡ b'"' = ground (arith, quote) in
        inr ([], c ∷ rest, tt, (λ j. e j ∷ c ∷ rest), ground (arith, bare, quote))
    | inr inside ↦ elim (skip_from-items (c ∷ rest) (i + 1)) [
      | inl far ↦ inl (ground (arith, bare, inside, far))
      | inr (items, after, good, split, n) ↦ inr (
        plain b ∷ items,
        after,
        ((λ e. absurd (ground (arith, inside, e)), λ e. absurd (ground (arith, bare, e))), good),
        (λ j. b ∷ split j),
        ground (arith, bare, inside, n),
      )
    ]
  ]
]

pub step_drop :
    (xs : Bytes) (i : ℕ) {x : ℕ} → get_elem? xs i ≡ some x → drop i xs ≡ x ∷ drop (i + 1) xs
step_drop xs i {x} e =
    let n : suc i ≡ i + 1 = omega arith in drop_step xs i e ∙ ap (λ k. x ∷ drop k xs) n

drop-length : (xs ys : Bytes) → drop (length xs) (xs ++ ys) ≡ ys
drop-length [] ys = refl
drop-length (x ∷ xs) ys = drop-length xs ys

drop_behind :
    (m k : ℕ) (bs xs ys : Bytes) → drop m bs ≡ xs ++ ys → m + length xs ≡ k → drop k bs ≡ ys
drop_behind m k bs xs ys e n =
    ap (λ j. drop j bs) (sym n)
    ∙ sym (drop-drop (length xs) m bs)
    ∙ ap (drop (length xs)) e
    ∙ drop-length xs ys

-- A string ends behind where it starts.
le-skip_from : (bs : Bytes) (i : ℕ) → i ≤ skip_from bs i
unfolding skip_from
le-skip_from [] i = omega arith
le-skip_from (b ∷ []) i = ground arith
le-skip_from (b ∷ c ∷ rest) i =
    ground (arith, le-skip_from rest (i + 2), le-skip_from (c ∷ rest) (i + 1))

pub lt-skip_string : (bs : Bytes) (i : ℕ) → i < skip_string bs i
unfolding skip_string
lt-skip_string bs i = omega (arith, le-skip_from (drop (i + 1) bs) (i + 1))

-- The string at a quote, if it ends within the text.
pub string_step :
    (bytes : Bytes) (i : ℕ) {b : ℕ}
    → get_elem? bytes i ≡ some b
    → b ≡ b'"'
    → (drop (skip_string bytes i) bytes ≡ [])
      ⊎ ((items : List Item) × All IsItem items
          × (drop i bytes ≡ token_bytes (string items) ++ drop (skip_string bytes i) bytes))
unfolding skip_string
string_step bytes i {b} at q = elim (skip_from-items (drop (i + 1) bytes) (i + 1)) [
  | inl far ↦
      inl (drop_all (skip_string bytes i) bytes (omega (arith, far, length-drop (i + 1) bytes)))
  | inr (items, rest, good, split, n) ↦
      let body = item_bytes items ++ b'"' ∷ [] in
      let whole : drop (i + 1) bytes ≡ body ++ rest =
        split ∙ sym (append_assoc (item_bytes items) (b'"' ∷ []) rest) in
      let end : i + 1 + length body ≡ skip_string bytes i =
        omega (arith, n, ap length whole, length-append body rest) in
      let behind = drop_behind (i + 1) (skip_string bytes i) bytes body rest whole end in
      inr (
        items,
        good,
        step_drop bytes i at ∙ (λ j. q j ∷ whole j) ∙ ap (λ r. b'"' ∷ (body ++ r)) (sym behind),
      )
]

-- The rest of the text from the first byte on that is no white space.
pub skip_blanks-split :
    (bytes : Bytes) (i : ℕ)
    → (gap : Bytes) × All (λ b. is_blank b ≡ true) gap
      × (drop i bytes ≡ gap ++ drop (skip_blanks bytes i) bytes)
skip_blanks-split bytes i =
    let bs = drop i bytes in
    (
      take (blanks bs) bs,
      take_blanks bs,
      sym (take-append-drop (blanks bs) bs)
          ∙ ap (λ r. take (blanks bs) bs ++ r) (drop-drop (blanks bs) i bytes),
    )
  where
    take_blanks : (bs : Bytes) → All (λ b. is_blank b ≡ true) (take (blanks bs) bs)
    take_blanks [] = tt
    take_blanks (b ∷ bs) = elim (Bool-cases (is_blank b)) [
      | inl blank ↦ rw blank (blank, take_blanks bs)
      | inr solid ↦ rw solid tt
    ]

pub opening_at : (bytes : Bytes) (i b : ℕ) → is_at bytes i b ≡ true → get_elem? bytes i ≡ some b
opening_at bytes i b h = elim (Option-cases (get_elem? bytes i)) [
  | inl n ↦ absurd (ground (arith, h, n))
  | inr (c, e) ↦ let f : c ≡ b = ground (arith, h, e) in e ∙ ap some f
]

-- ===== src/Server/Splice/Found.antt =====
-- What the two loops of `insert_token_text` of src/bin/g2mirror-server.rs find.
use g2mirror.Prelude.{
  ℕ, zero, suc, ◌+◌, ◌-◌, ◌%◌, ◌^◌, u32_mod, ◌≡◌, ◌⊎◌, sym, ap, ◌∙◌, subst, true, ◌&&◌, List, [],
  ◌∷◌, ◌++◌, some, some_eq, Bytes, All, length, get_elem?, take, drop, drop-drop, length-append,
  take-append-drop, append_assoc, same, same→eq, ascii, ltb, ◌==◌, Bool-cases, Option-cases, inl,
  inr, arith,
}
use g2mirror.Jsonc.Pieces.{Item, IsItem}
use g2mirror.Server.Splice.{
  skip_string, is_blank, skip_blanks, is_at, opens, closes, shallower, find_key,
}
use g2mirror.Server.Splice.Tokens.{
  Token, string, up, down, other, token_bytes, render, IsToken, turn, level, opens-IsUp,
  closes-IsDown, other-IsToken,
}
use g2mirror.Server.Splice.Strings.{
  step_drop, lt-skip_string, string_step, skip_blanks-split, opening_at,
}

-- In the text, at the depth 1 of one that starts at the depth `d`, stands the key with its colon,
-- and the index `k` is behind that.
pub record HasKey (bytes text : Bytes) (d k : ℕ) : Type 0 where
  pub before : List Token
  pub gap : Bytes
  pub tokens : All IsToken before
  pub layout : text ≡ render before ++ (ascii "\"auth_tokens\"" ++ (gap ++ b':' ∷ drop k bytes))
  pub at_top : level d before ≡ 1
  pub blank : All (λ b. is_blank b ≡ true) gap

HasKey-cons :
    (t : Token) (bytes text rest : Bytes) (d k : ℕ)
    → text ≡ token_bytes t ++ rest
    → IsToken t
    → HasKey bytes rest (turn d t) k
    → HasKey bytes text d k
HasKey-cons t bytes text rest d k e good h = record {
  before = t ∷ h.before;
  gap = h.gap;
  tokens = (good, h.tokens);
  layout =
      e
      ∙ ap (λ r. token_bytes t ++ r) h.layout
      ∙ sym (append_assoc (token_bytes t) (render h.before) _);
  at_top = h.at_top;
  blank = h.blank;
}

-- An empty text has no key.
HasKey-nil : {bytes : Bytes} {d k : ℕ} → HasKey bytes [] d k → (n : ℕ) → n ≡ 0
HasKey-nil {bytes} {d} {k} h n = absurd (
    omega (
      arith,
      ap length h.layout,
      length-append (render h.before) (ascii "\"auth_tokens\"" ++ (h.gap ++ b':' ∷ drop k bytes)),
    ))

pub lower : (d : ℕ) → shallower d ≡ (d + (2 ^ 32 - 1)) % 2 ^ 32
lower d = let e : d + u32_mod - 1 ≡ d + (2 ^ 32 - 1) = omega arith in ap (λ n. n % 2 ^ 32) e

-- The key is the string at `i`, and a colon follows.
key_here :
    (bytes : Bytes) (i d : ℕ)
    → d ≡ 1
    → same (take (skip_string bytes i - i) (drop i bytes)) (ascii "\"auth_tokens\"") ≡ true
    → is_at bytes (skip_blanks bytes (skip_string bytes i)) b':' ≡ true
    → HasKey bytes (drop i bytes) d (skip_blanks bytes (skip_string bytes i) + 1)
key_here bytes i d top key colon =
    let end = skip_string bytes i in
    let (gap, blank, split) = skip_blanks-split bytes end in
    let there = step_drop bytes _ (opening_at bytes (skip_blanks bytes end) b':' colon) in
    let past : i + (end - i) ≡ end = omega (arith, lt-skip_string bytes i) in
    record {
      before = [];
      gap = gap;
      tokens = tt;
      layout =
          sym (take-append-drop (end - i) (drop i bytes))
          ∙ ap (λ r. r ++ drop (end - i) (drop i bytes)) (same→eq _ _ key)
          ∙ ap (λ r. ascii "\"auth_tokens\"" ++ r)
              (drop-drop (end - i) i bytes
                ∙ ap (λ n. drop n bytes) past
                ∙ split
                ∙ ap (λ r. gap ++ r) there);
      at_top = top;
      blank = blank;
    }

-- The key is behind the string at `i`.
key_later :
    {bytes : Bytes} (i : ℕ) {d k : ℕ}
    → (drop (skip_string bytes i) bytes ≡ [])
      ⊎ ((items : List Item) × All IsItem items
          × (drop i bytes ≡ token_bytes (string items) ++ drop (skip_string bytes i) bytes))
    → HasKey bytes (drop (skip_string bytes i) bytes) d k
    → HasKey bytes (drop i bytes) d k
key_later {bytes} i {d} {k} (inl past) h =
    absurd
      (let e : 1 ≡ 0 = HasKey-nil (subst (λ r. HasKey bytes r d k) past h) 1 in omega (arith, e))
key_later {bytes} i {d} {k} (inr (items, good, split)) h =
    HasKey-cons (string items) bytes (drop i bytes) (drop (skip_string bytes i) bytes) d k split
      good h

-- What the first loop finds.
pub find_key-HasKey :
    (f : ℕ) (bytes : Bytes) (i d k : ℕ)
    → find_key f bytes i d ≡ some (some k)
    → HasKey bytes (drop i bytes) d k
unfolding find_key
find_key-HasKey zero bytes i d k = λ h. absurd cc
find_key-HasKey (suc f) bytes i d k = elim (Option-cases (get_elem? bytes i)) [
  | inl n ↦ rw (find_key, n) (λ h. absurd cc)
  | inr (b, at) ↦
      let end = skip_string bytes i in
      let next = step_drop bytes i at in
      let named =
        d == 1
        && same (take (end - i) (drop i bytes)) (ascii "\"auth_tokens\"")
        && is_at bytes (skip_blanks bytes end) b':' in
      rw (find_key, at)
        (elim (Bool-cases (b == b'"')) [
          | inl q ↦ rw q (elim (Bool-cases (d == 1 && ltb (length bytes) end)) [
            | inl p ↦ rw p (λ h. absurd cc)
            | inr p ↦ rw p (elim (Bool-cases named) [
              | inl m ↦ rw m (λ h.
                  let colon : skip_blanks bytes end + 1 ≡ k = some_eq (some_eq h) in
                  subst (HasKey bytes (drop i bytes) d) colon (
                    key_here bytes i d (ground (arith, m)) (ground (arith, m)) (ground (arith, m))))
              | inr m ↦ rw m (λ h.
                  key_later i (string_step bytes i at (ground (arith, q)))
                    (find_key-HasKey f bytes end d k h))
            ])
          ])
          | inr q ↦ rw q (elim (Bool-cases (opens b)) [
            | inl o ↦ rw o (λ h.
                HasKey-cons (up b) bytes (drop i bytes) (drop (i + 1) bytes) d k next
                  (opens-IsUp b o) (find_key-HasKey f bytes (i + 1) _ k h))
            | inr o ↦ rw o (elim (Bool-cases (closes b)) [
              | inl c ↦ rw c (λ h.
                  HasKey-cons (down b) bytes (drop i bytes) (drop (i + 1) bytes) d k next
                    (closes-IsDown b c)
                    (subst (λ n. HasKey bytes (drop (i + 1) bytes) n k) (lower d)
                      (find_key-HasKey f bytes (i + 1) _ k h)))
              | inr c ↦ rw c (λ h.
                  HasKey-cons (other b) bytes (drop i bytes) (drop (i + 1) bytes) d k next
                    (other-IsToken b q o c) (find_key-HasKey f bytes (i + 1) d k h))
            ])
          ])
        ])
]

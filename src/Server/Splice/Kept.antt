-- ===== src/Server/Splice/Kept.antt =====
-- What `insert_token_text` of src/bin/g2mirror-server.rs leaves as it was, and where its text goes.
use g2mirror.Prelude.{
  ℕ, zero, suc, ◌+◌, ◌-◌, ◌≤◌, All, [], ◌∷◌, length-drop, length-append, ◌≡◌, inl, inr, refl, sym,
  ap, ◌∙◌, subst, true, ◌++◌, Option, none, some, bind_some, some_eq, Bytes, length, get_elem?,
  take, drop, take-append-drop, length-take, Bool-cases, Option-cases, arith,
}
use g2mirror.Prelude.Results.{ok, ok_injective}
use g2mirror.Jsonc.{strip_comments}
use g2mirror.Jsonc.Layout.{strip_comments-Masks}
use g2mirror.Server.Splice.Tokens.{render}
use g2mirror.Server.Splice.Strings.{step_drop, skip_blanks-split, opening_at}
use g2mirror.Server.Splice.Found.{HasKey, find_key-HasKey}
use g2mirror.Server.Splice.Closed.{HasClose, find_close-HasClose}
use g2mirror.Server.Splice.Placed.{
  ClosesAt, find_close-ClosesAt, length-Masks, le-get_elem?, IsBetween, place_entry-IsBetween,
}
use g2mirror.Server.Splice.{
  is_blank, skip_blanks, is_at, find_key, find_close, place_entry, splice_at, insert_token_text,
}

-- The bracket that closes an array is behind the one that opens it.
array-ClosesAt :
    (f : ℕ) (bytes : Bytes) (start close : ℕ)
    → get_elem? bytes start ≡ some b'['
    → find_close f bytes start 0 ≡ some close
    → ClosesAt bytes (start + 1) close
unfolding find_close
array-ClosesAt zero bytes start close e = λ h. absurd cc
array-ClosesAt (suc f) bytes start close e =
    rw (find_close, e) (λ h. find_close-ClosesAt f bytes (start + 1) _ close h)

array-HasClose :
    (n : ℕ) (bytes : Bytes) (start close : ℕ)
    → get_elem? bytes start ≡ some b'['
    → find_close (n + 1) bytes start 0 ≡ some close
    → HasClose bytes (drop (start + 1) bytes) 1 close
unfolding find_close
array-HasClose n bytes start close e h =
    let fuel : n + 1 ≡ suc n = omega arith in
    opened (subst (λ f. find_close f bytes start 0 ≡ some close) fuel h)
  where
    opened :
        find_close (suc n) bytes start 0 ≡ some close
        → HasClose bytes (drop (start + 1) bytes) 1 close
    opened = rw (find_close, e) (λ h. find_close-HasClose n bytes (start + 1) 1 close h)

take-length : (xs ys : Bytes) → take (length xs) (xs ++ ys) ≡ xs
take-length [] ys = refl
take-length (x ∷ xs) ys = ap (◌∷◌ x) (take-length xs ys)

-- Where a piece goes in the text without its comments: at the depth 1 stands the string
-- `"auth_tokens"`, and behind it, with white space between, a colon and an array. Its brackets are
-- the one at `start` and the next one that closes as many as are open, apart from those in strings.
-- The piece goes right behind the opening one if there is only white space between them, and else
-- right behind the last byte between them that is none.
pub record IsPlaced (stripped entry : Bytes) (at : ℕ) (insert : Bytes) : Type 0 where
  pub key : ℕ
  pub start : ℕ
  pub close : ℕ
  pub has_key : HasKey stripped stripped 0 key
  pub key_gap : Bytes
  pub blank : All (λ b. is_blank b ≡ true) key_gap
  pub opening : drop key stripped ≡ key_gap ++ b'[' ∷ drop (start + 1) stripped
  pub has_close : HasClose stripped (drop (start + 1) stripped) 1 close
  pub placed : IsBetween stripped entry (render has_close.inner) close at insert

-- What is cut out between the brackets is what the tokens between them are written as.
between_inner :
    (stripped : Bytes) (start close : ℕ)
    → start + 1 ≤ close
    → close ≤ length stripped
    → (h : HasClose stripped (drop (start + 1) stripped) 1 close)
    → take (close - (start + 1)) (drop (start + 1) stripped) ≡ render h.inner
between_inner stripped start close lt le h =
    let rest = h.bracket ∷ drop (close + 1) stripped in
    let n : length (render h.inner) ≡ close - (start + 1) = omega (
      arith,
      lt,
      le,
      length-drop (start + 1) stripped,
      ap length (sym (step_drop stripped close h.found)),
      length-drop close stripped,
      ap length h.layout,
      length-append (render h.inner) rest,
    ) in
    ap (take (close - (start + 1))) h.layout
    ∙ ap (λ k. take k (render h.inner ++ rest)) (sym n)
    ∙ take-length (render h.inner) rest

-- The text with a piece inserted.
abbrev pub Splices : Bytes → Bytes → Bytes → Type 0
Splices text entry out =
    (before : Bytes) × (insert : Bytes) × (after : Bytes) × (text ≡ before ++ after)
    × (out ≡ before ++ insert ++ after)
    × IsPlaced (strip_comments text) entry (length before) insert

cut :
    (text entry : Bytes) (at : ℕ) (insert : Bytes)
    → IsPlaced (strip_comments text) entry at insert
    → Splices text entry (take at text ++ insert ++ drop at text)
cut text entry at insert p =
    let same = length-Masks text (strip_comments text) (strip_comments-Masks text) in
    let here : at ≡ length (take at text) =
      omega (arith, length-take at text, p.placed.within_text, same) in
    (
      take at text,
      insert,
      drop at text,
      sym (take-append-drop at text),
      refl,
      subst (λ n. IsPlaced (strip_comments text) entry n insert) here p,
    )

-- The piece for the array whose bracket is at the first byte behind the key's white space.
array-IsPlaced :
    (stripped entry : Bytes) (key close at : ℕ) (insert : Bytes)
    → HasKey stripped stripped 0 key
    → get_elem? stripped (skip_blanks stripped key) ≡ some b'['
    → find_close (length stripped + 1) stripped (skip_blanks stripped key) 0 ≡ some close
    → place_entry stripped (skip_blanks stripped key) close entry ≡ some (at, insert)
    → IsPlaced stripped entry at insert
array-IsPlaced stripped entry key close at insert has_key opening f p =
    let start = skip_blanks stripped key in
    let fuel = length stripped in
    let (gap, blank, split) = skip_blanks-split stripped key in
    let (lt, (c, e, _)) = array-ClosesAt (fuel + 1) stripped start close opening f in
    let le = le-get_elem? stripped close e in
    let has_close = array-HasClose fuel stripped start close opening f in
    record {
      key = key;
      start = start;
      close = close;
      has_key = has_key;
      key_gap = gap;
      blank = blank;
      opening = split ∙ ap (λ r. gap ++ r) (step_drop stripped start opening);
      has_close = has_close;
      placed =
          subst (λ inner. IsBetween stripped entry inner close at insert)
            (between_inner stripped start close lt le has_close)
            (place_entry-IsBetween stripped entry start close lt le at insert p);
    }

splice_at-Splices :
    (text entry out : Bytes) (key : ℕ)
    → HasKey (strip_comments text) (strip_comments text) 0 key
    → splice_at text (strip_comments text) entry key ≡ some (ok (some out))
    → Splices text entry out
unfolding splice_at
splice_at-Splices text entry out key has_key =
    let stripped = strip_comments text in
    let start = skip_blanks stripped key in
    elim (Bool-cases (is_at stripped start b'[')) [
      | inr n ↦ rw (splice_at, n) (λ h. absurd cc)
      | inl a ↦ elim (Option-cases (find_close (length stripped + 1) stripped start 0)) [
        | inl n ↦ rw (splice_at, a, n) (λ h. absurd cc)
        | inr (close, f) ↦ elim (Option-cases (place_entry stripped start close entry)) [
          | inl n ↦ rw (splice_at, a, f, n) (λ h. absurd cc)
          | inr ((at, insert), p) ↦
              let opening = opening_at stripped start b'[' a in
              let placed = array-IsPlaced stripped entry key close at insert has_key opening f p in
              rw (splice_at, a, f, p)
                (λ h.
                  subst (Splices text entry) (some_eq (ok_injective (some_eq h)))
                    (cut text entry at insert placed))
        ]
      ]
    ]

found-Splices :
    (text entry out : Bytes) (found : Option ℕ)
    → ((k : ℕ) → found ≡ some k → HasKey (strip_comments text) (strip_comments text) 0 k)
    → (elim found [
      | none ↦ some (ok none)
      | some key ↦ splice_at text (strip_comments text) entry key
    ])
      ≡ some (ok (some out))
    → Splices text entry out
found-Splices text entry out none k h = absurd cc
found-Splices text entry out (some key) k h = splice_at-Splices text entry out key (k key refl) h

-- If `insert_token_text` gives a text, that is the given one, byte for byte, with one piece
-- inserted, which is the entry with its lines indented. In the text without its comments, read as
-- strings, brackets and other bytes, the piece goes into the array that stands as the value of the
-- string `"auth_tokens"` at the depth 1: right behind its opening bracket, if there is only white
-- space up to the bracket that closes it, or, with a comma, right behind the last byte in front of
-- that bracket that is no white space.
pub insert_token_text-splices :
    (text entry out : Bytes)
    → insert_token_text text entry ≡ some (ok (some out))
    → Splices text entry out
unfolding insert_token_text
insert_token_text-splices text entry out h =
    let stripped = strip_comments text in
    let (found, finds, h1) = bind_some (find_key (length stripped + 1) stripped 0 0) _ h in
    found-Splices text entry out found
      (λ k e. find_key-HasKey (length stripped + 1) stripped 0 0 k (finds ∙ ap some e)) h1

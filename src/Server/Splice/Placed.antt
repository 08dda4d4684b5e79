-- ===== src/Server/Splice/Placed.antt =====
-- Where `insert_token_text` of src/bin/g2mirror-server.rs puts its text.
use g2mirror.Prelude.{
  ℕ, zero, suc, ◌+◌, ◌-◌, ◌≤◌, ◌<◌, ◌≡◌, ◌⊎◌, inl, inr, refl, sym, ap, ◌∙◌, subst, true, false, [],
  ◌∷◌, ◌++◌, none, some, some_eq, Bytes, All, ascii, length, get_elem?, take, drop,
  take-append-drop, drop-append, length-take, ltb, ◌==◌, Bool-cases, Option-cases, arith,
}
use g2mirror.Server.Splice.Strings.{lt-skip_string}
use g2mirror.Server.Splice.Tokens.{Indents, indented-Indents}
use g2mirror.Jsonc.Layout.{Masks}
use g2mirror.Server.Splice.{
  skip_string, is_whitespace, opens, closes, shallower, find_close, last_solid, indented,
  place_entry,
}

-- The bracket that is found is a closing one, and not before the start.
abbrev pub ClosesAt : Bytes → ℕ → ℕ → Type 0
ClosesAt bytes i close =
    (i ≤ close) × ((c : ℕ) × (get_elem? bytes close ≡ some c) × (closes c ≡ true))

later : (bytes : Bytes) (i j close : ℕ) → i ≤ j → ClosesAt bytes j close → ClosesAt bytes i close
later bytes i j close h (l, c) = (omega (arith, h, l), c)

pub find_close-ClosesAt :
    (f : ℕ) (bytes : Bytes) (i depth close : ℕ)
    → find_close f bytes i depth ≡ some close
    → ClosesAt bytes i close
unfolding find_close
find_close-ClosesAt zero bytes i depth close = λ h. absurd cc
find_close-ClosesAt (suc f) bytes i depth close = elim (Option-cases (get_elem? bytes i)) [
  | inl n ↦ rw (find_close, n) (λ h. absurd cc)
  | inr (b, e) ↦
      rw (find_close, e)
        (elim (Bool-cases (b == b'"')) [
          | inl q ↦
              let past : i ≤ skip_string bytes i = omega (arith, lt-skip_string bytes i) in
              rw q (λ h. later bytes i _ close past (find_close-ClosesAt f bytes _ depth close h))
          | inr q ↦ rw q (elim (Bool-cases (opens b)) [
            | inl o ↦
                rw o (λ h.
                  later bytes i _ close (omega arith) (find_close-ClosesAt f bytes _ _ close h))
            | inr o ↦ rw o (elim (Bool-cases (closes b)) [
              | inl c ↦ rw c (elim (Bool-cases (shallower depth == 0)) [
                | inl z ↦ rw z (λ h. subst (ClosesAt bytes i) (some_eq h) (omega arith, (b, e, c)))
                | inr z ↦ rw z (λ h.
                    later bytes i _ close (omega arith) (find_close-ClosesAt f bytes _ _ close h))
              ])
              | inr c ↦ rw c (λ h.
                  later bytes i _ close (omega arith) (find_close-ClosesAt f bytes _ _ close h))
            ])
          ])
        ])
]

-- White space.
abbrev pub AreBlank : Bytes → Type 0
AreBlank = All (λ b. is_whitespace b ≡ true)

last_solid-none : (bs : Bytes) → last_solid bs ≡ none → AreBlank bs
unfolding last_solid
last_solid-none [] h = tt
last_solid-none (b ∷ bs) h = elim (Option-cases (last_solid bs)) [
  | inl n ↦ (ground (arith, h, n), last_solid-none bs n)
  | inr (r, e) ↦ absurd (ground (arith, h, e))
]

abbrev Last : Bytes → ℕ → ℕ → Type 0
Last bs off c =
    (get_elem? bs off ≡ some c)
    × (off < length bs)
    × (is_whitespace c ≡ false)
    × AreBlank (drop (suc off) bs)

last_solid-some : (bs : Bytes) (off c : ℕ) → last_solid bs ≡ some (off, c) → Last bs off c
unfolding last_solid
last_solid-some [] off c = λ h. absurd cc
last_solid-some (b ∷ bs) off c = elim (Option-cases (last_solid bs)) [
  | inl n ↦ rw n (elim (Bool-cases (is_whitespace b)) [
    | inl w ↦ rw w (λ h. absurd cc)
    | inr w ↦ rw w (λ h.
        subst (λ (r : ℕ × ℕ). Last (b ∷ bs) r.0 r.1) (some_eq h)
          (refl, omega arith, w, last_solid-none bs n))
  ])
  | inr ((o, d), e) ↦ rw e (λ h.
      let (at, lt, w, rest) = last_solid-some bs o d e in
      subst (λ (r : ℕ × ℕ). Last (b ∷ bs) r.0 r.1) (some_eq h) (at, omega (arith, lt), w, rest))
]

pub length-Masks : (bs os : Bytes) → Masks bs os → length os ≡ length bs
length-Masks [] [] h = refl
length-Masks [] (o ∷ os) h = elim h [ ]
length-Masks (b ∷ bs) [] h = elim h [ ]
length-Masks (b ∷ bs) (o ∷ os) h = ap suc (length-Masks bs os h.1)

-- What is dropped in two steps.
drop-drop : (m n k : ℕ) (xs : Bytes) → m + n ≡ k → drop n (drop m xs) ≡ drop k xs
drop-drop zero n k xs e = let f : n ≡ k = omega (arith, e) in ap (λ j. drop j xs) f
drop-drop (suc m) n zero xs e = absurd (omega arith)
drop-drop (suc m) zero (suc k) [] e = refl
drop-drop (suc m) (suc n) (suc k) [] e = refl
drop-drop (suc m) n (suc k) (x ∷ xs) e = drop-drop m n k xs (omega (arith, e))

pub le-get_elem? : (xs : Bytes) (i : ℕ) {b : ℕ} → get_elem? xs i ≡ some b → i ≤ length xs
le-get_elem? [] i e = absurd cc
le-get_elem? (x ∷ xs) zero e = omega arith
le-get_elem? (x ∷ xs) (suc i) e = omega (arith, le-get_elem? xs i e)

take_step :
    (bs : Bytes) (i : ℕ) {c : ℕ} → get_elem? bs i ≡ some c → take (suc i) bs ≡ take i bs ++ c ∷ []
take_step [] i e = absurd cc
take_step (b ∷ bs) zero e = ap (λ x. x ∷ []) (some_eq e)
take_step (b ∷ bs) (suc i) e = ap (◌∷◌ b) (take_step bs i e)

-- What is between the brackets is `solid`, which ends with a byte that is no white space if it is
-- not empty, and white space behind it. The insert goes between the two: with nothing in `solid`
-- it is the only element, on a line of its own, and otherwise the one behind a comma.
pub record IsBetween (stripped entry inner : Bytes) (close at : ℕ) (insert : Bytes) : Type 0 where
  pub solid : Bytes
  pub gap : Bytes
  pub middle : Bytes
  pub whole : solid ++ gap ≡ inner
  pub blank : AreBlank gap
  pub ahead : drop at stripped ≡ gap ++ drop close stripped
  pub within_text : at ≤ length stripped
  pub indents : Indents entry middle
  pub behind :
      ((solid ≡ []) × (insert ≡ ascii "\n    " ++ middle ++ ascii "\n  "))
      ⊎ ((front : Bytes) × (c : ℕ) × (solid ≡ front ++ c ∷ [])
          × (is_whitespace c ≡ false)
          × (insert ≡ ascii ",\n    " ++ middle))

module _ (stripped entry : Bytes) (start close : ℕ) (lt : start + 1 ≤ close)
    (le : close ≤ length stripped) where
  abbrev pub between : Bytes
  between = take (close - (start + 1)) (drop (start + 1) stripped)

  between-tail : drop (start + 1) stripped ≡ between ++ drop close stripped
  between-tail =
      sym (take-append-drop (close - (start + 1)) (drop (start + 1) stripped))
      ∙ ap (λ t. between ++ t)
          (drop-drop (start + 1) (close - (start + 1)) close stripped (omega (arith, lt)))

  abbrev Placed : ℕ × Bytes → Type 0
  Placed (at, insert) = IsBetween stripped entry between close at insert

  pub place_entry-IsBetween :
      (at : ℕ) (insert : Bytes)
      → place_entry stripped start close entry ≡ some (at, insert)
      → IsBetween stripped entry between close at insert
  unfolding place_entry
  place_entry-IsBetween at insert = elim (Option-cases (last_solid between)) [
    | inl n ↦
        rw (place_entry, n)
          (λ h. subst Placed (some_eq h) (record {
            solid = [];
            gap = between;
            middle = indented entry;
            whole = refl;
            blank = last_solid-none between n;
            ahead = between-tail;
            within_text = omega (arith, lt, le);
            indents = indented-Indents entry;
            behind = inl (refl, refl);
          }))
    | inr ((off, c), e) ↦
        let (there, small, solid, blank) = last_solid-some between off c e in
        rw (place_entry, e)
          (elim (Bool-cases (ltb c 128)) [
            | inr t ↦ rw t (λ h. absurd cc)
            | inl t ↦ rw t (λ h. subst Placed (some_eq h) (record {
              solid = take (suc off) between;
              gap = drop (suc off) between;
              middle = indented entry;
              whole = take-append-drop (suc off) between;
              blank = blank;
              ahead =
                  sym (drop-drop (start + 1) (suc off) (start + 1 + off + 1) stripped (omega arith))
                  ∙ ap (drop (suc off)) between-tail
                  ∙ drop-append (suc off) between (drop close stripped) (omega (arith, small));
              within_text = omega (
                arith,
                lt,
                le,
                small,
                length-take (close - (start + 1)) (drop (start + 1) stripped),
              );
              indents = indented-Indents entry;
              behind = inr (take off between, c, take_step between off there, solid, refl);
            }))
          ])
  ]

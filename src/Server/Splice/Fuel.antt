-- ===== src/Server/Splice/Fuel.antt =====
-- The fuel of the loops of `insert_token_text` (src/bin/g2mirror-server.rs) is enough: each round
-- goes on by a byte at least.
use g2mirror.Prelude.{
  ◌-◌, ◌&&◌, take, drop, ltb, same, ascii, ℕ, zero, suc, ◌+◌, ◌≤◌, ◌<◌, ◌≡◌, refl, [], ◌∷◌, none,
  Bytes, length, get_elem?, ◌==◌, Bool-cases, Option-cases, inl, inr, arith,
}
use g2mirror.Server.Splice.{
  find_key, is_at, skip_blanks, skip_string, opens, closes, shallower, deeper, find_close,
}
use g2mirror.Server.Splice.Strings.{lt-skip_string}

get_elem?-none : (xs : Bytes) (i : ℕ) → length xs ≤ i → get_elem? xs i ≡ none
get_elem?-none [] i h = refl
get_elem?-none (x ∷ xs) zero h = absurd (omega arith)
get_elem?-none (x ∷ xs) (suc i) h = get_elem?-none xs i (omega arith)

-- With more fuel than there are bytes left, one more round changes nothing.
pub find_close_fuel :
    (f : ℕ) (bytes : Bytes) (i depth : ℕ)
    → length bytes < i + f
    → find_close (suc f) bytes i depth ≡ find_close f bytes i depth
unfolding find_close
find_close_fuel zero bytes i depth h =
    rw (find_close, get_elem?-none bytes i (omega (arith, h))) refl
find_close_fuel (suc f) bytes i depth h = elim (Option-cases (get_elem? bytes i)) [
  | inl n ↦ rw (find_close, n) refl
  | inr (b, e) ↦
      let string =
        find_close_fuel f bytes (skip_string bytes i) depth
          (omega (arith, h, lt-skip_string bytes i)) in
      let next = λ (d : ℕ). find_close_fuel f bytes (i + 1) d (omega (arith, h)) in
      rw (find_close, e)
        (elim (Bool-cases (b == b'"')) [
          | inl q ↦ rw q string
          | inr q ↦ rw q (elim (Bool-cases (opens b)) [
            | inl o ↦ rw o (next (deeper depth))
            | inr o ↦ rw o (elim (Bool-cases (closes b)) [
              | inl c ↦ rw c (elim (Bool-cases (shallower depth == 0)) [
                | inl z ↦ rw z refl
                | inr z ↦ rw z (next (shallower depth))
              ])
              | inr c ↦ rw c (next depth)
            ])
          ])
        ])
]

pub find_key_fuel :
    (f : ℕ) (bytes : Bytes) (i depth : ℕ)
    → length bytes < i + f
    → find_key (suc f) bytes i depth ≡ find_key f bytes i depth
unfolding find_key
find_key_fuel zero bytes i depth h = rw (find_key, get_elem?-none bytes i (omega (arith, h))) refl
find_key_fuel (suc f) bytes i depth h = elim (Option-cases (get_elem? bytes i)) [
  | inl n ↦ rw (find_key, n) refl
  | inr (b, e) ↦
      let end = skip_string bytes i in
      let next = λ (d : ℕ). find_key_fuel f bytes (i + 1) d (omega (arith, h)) in
      let named =
        depth == 1
        && same (take (end - i) (drop i bytes)) (ascii "\"auth_tokens\"")
        && is_at bytes (skip_blanks bytes end) b':' in
      rw (find_key, e)
        (elim (Bool-cases (b == b'"')) [
          | inl q ↦ rw q (elim (Bool-cases (depth == 1 && ltb (length bytes) end)) [
            | inl p ↦ rw p refl
            | inr p ↦ rw p (elim (Bool-cases named) [
              | inl k ↦ rw k refl
              | inr k ↦
                  rw k (find_key_fuel f bytes end depth (omega (arith, h, lt-skip_string bytes i)))
            ])
          ])
          | inr q ↦ rw q (elim (Bool-cases (opens b)) [
            | inl o ↦ rw o (next (deeper depth))
            | inr o ↦ rw o (elim (Bool-cases (closes b)) [
              | inl c ↦ rw c (next (shallower depth))
              | inr c ↦ rw c (next depth)
            ])
          ])
        ])
]

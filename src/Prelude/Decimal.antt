-- ===== src/Prelude/Decimal.antt =====
-- Rust's decimal format and parse of unsigned integers: `{n}` and `str::parse`.
use Prim.Native.Nat.{ℕ, zero, suc, ◌+◌, ◌-◌, ◌*◌, ◌/◌, ◌%◌, ◌^◌, ◌≤◌, ◌<◌}
use mathlib.Core.Path.{◌≡◌, refl, ◌∙◌}
use mathlib.Core.Logic.{inl, inr}
use mathlib.Core.Bool.{Bool, true, ◌&&◌}
use mathlib.Core.List.{[], ◌∷◌}
use mathlib.Core.Option.{Option, none, some}
use native.Mathlib.Omega.{arith}
use native.Mathlib.Nat.{pow-suc}
use g2mirror.Prelude.Tests.{ltb, within, ◌==◌, if◌then◌else◌, Bool-cases}
use g2mirror.Prelude.Lists.{Bytes, length, All}

abbrev pub is_digit : ℕ → Bool
is_digit c = within b'0' b'9' c

-- The digits of `n`, in front of `rest`.
unfoldable pub digits : ℕ → ℕ → Bytes → Bytes
digits zero n rest = rest
digits (suc f) n rest =
    let more = digits f (n / 10) ((b'0' + n % 10) ∷ rest) in
    if ltb n 10 then (b'0' + n) ∷ rest else more

unfoldable pub decimal : ℕ → Bytes
unfolding digits
decimal n = digits (n + 1) n []

-- The digit loop of `parse`, for a type of `bound` values: each step is checked for overflow.
unfoldable pub parse_digits : ℕ → ℕ → Bytes → Option ℕ
parse_digits bound acc [] = some acc
parse_digits bound acc (c ∷ cs) =
    let rest = parse_digits bound (acc * 10 + (c - b'0')) cs in
    if is_digit c && ltb (acc * 10 + (c - b'0')) bound then rest else none

-- An empty text is refused, and so is a lone sign; one leading `+` is skipped.
unfoldable pub parse : ℕ → Bytes → Option ℕ
unfolding parse_digits
parse bound [] = none
parse bound (c ∷ []) = parse_digits bound 0 (c ∷ [])
parse bound (c ∷ d ∷ cs) =
    if c == b'+' then parse_digits bound 0 (d ∷ cs) else parse_digits bound 0 (c ∷ d ∷ cs)

parse_digit :
    (bound acc c n : ℕ) (rest : Bytes)
    → is_digit c ≡ true
    → acc * 10 + (c - b'0') ≡ n
    → n < bound
    → parse_digits bound acc (c ∷ rest) ≡ parse_digits bound n rest
unfolding parse_digits
parse_digit bound acc c n rest d e b = rw e (ground arith)

pub parse_digits-digits :
    (bound f n : ℕ) (rest : Bytes)
    → n < f
    → n < bound
    → parse_digits bound 0 (digits f n rest) ≡ parse_digits bound n rest
unfolding digits parse_digits
parse_digits-digits bound zero n rest h b = absurd (omega arith)
parse_digits-digits bound (suc f) n rest h b = elim (Bool-cases (ltb n 10)) [
  | inl small ↦ rw small (parse_digit bound 0 (b'0' + n) n rest (ground arith) (omega arith) b)
  | inr large ↦ rw large (
      parse_digits-digits bound f (n / 10) ((b'0' + n % 10) ∷ rest) (ground arith) (omega arith)
      ∙ parse_digit bound (n / 10) (b'0' + n % 10) n rest (ground arith) (omega arith) b)
]

pub digits-All :
    (f n : ℕ) (rest : Bytes)
    → All (λ c. is_digit c ≡ true) rest
    → All (λ c. is_digit c ≡ true) (digits f n rest)
unfolding digits
digits-All zero n rest h = h
digits-All (suc f) n rest h = elim (Bool-cases (ltb n 10)) [
  | inl small ↦ rw small (ground arith, h)
  | inr large ↦ rw large (digits-All f (n / 10) ((b'0' + n % 10) ∷ rest) (ground arith, h))
]

-- A number below ten to the `k` has at most `k` digits.
pub length-digits :
    (f n k : ℕ) (rest : Bytes) → n < 10 ^ k → 0 < k → length (digits f n rest) ≤ k + length rest
unfolding digits
length-digits zero n k rest h p = omega arith
length-digits (suc f) n zero rest h p = absurd (omega arith)
length-digits (suc f) n (suc zero) rest h p = ground arith
length-digits (suc f) n (suc (suc k)) rest h p =
    let shorter =
      length-digits f (n / 10) (suc k) ((b'0' + n % 10) ∷ rest) (omega (arith, pow-suc 10 (suc k)))
        (omega arith) in
    ground (arith, shorter)

-- A text that starts with a digit has no sign.
parse-is_digit :
    (bound c : ℕ) (cs : Bytes)
    → is_digit c ≡ true
    → parse bound (c ∷ cs) ≡ parse_digits bound 0 (c ∷ cs)
unfolding parse
parse-is_digit bound c [] d = refl
parse-is_digit bound c (e ∷ cs) d = ground arith

parse-All :
    (bound : ℕ) (cs : Bytes)
    → All (λ c. is_digit c ≡ true) cs
    → 0 < length cs
    → parse bound cs ≡ parse_digits bound 0 cs
parse-All bound [] h p = absurd (omega arith)
parse-All bound (c ∷ cs) (d, h) p = parse-is_digit bound c cs d

digits_pos : (f n : ℕ) (rest : Bytes) → n < f → 0 < length (digits f n rest)
unfolding digits
digits_pos zero n rest h = absurd (omega arith)
digits_pos (suc f) n rest h = ground (arith, length-digits-le f (n / 10) ((b'0' + n % 10) ∷ rest))
  where
    length-digits-le : (f n : ℕ) (rest : Bytes) → length rest ≤ length (digits f n rest)
    length-digits-le zero n rest = omega arith
    length-digits-le (suc f) n rest =
        ground (arith, length-digits-le f (n / 10) ((b'0' + n % 10) ∷ rest))

-- Reading back what is written gives the number.
pub parse-decimal : (bound n : ℕ) → n < bound → parse bound (decimal n) ≡ some n
unfolding decimal
parse-decimal bound n b =
    parse-All bound (digits (n + 1) n []) (digits-All (n + 1) n [] tt)
      (digits_pos (n + 1) n [] (omega arith))
    ∙ parse_digits-digits bound (n + 1) n [] (omega arith) b
    ∙ (unfold parse_digits in refl)

pub decimal-All : (n : ℕ) → All (λ c. is_digit c ≡ true) (decimal n)
unfolding decimal
decimal-All n = digits-All (n + 1) n [] tt

pub length-decimal : (n k : ℕ) → n < 10 ^ k → 0 < k → length (decimal n) ≤ k
unfolding decimal
length-decimal n k h p = omega (arith, length-digits (n + 1) n k [] h p)

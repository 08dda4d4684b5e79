-- ===== src/Prelude/Bits.antt =====
-- The bit operations on bytes that the sources use, checked at every pair of values.
use Prim.Native.Nat.{ℕ, zero, suc, ◌<◌, bit_or, bit_xor}
use native.Mathlib.Omega.{arith}
use mathlib.Core.Logic.{inl, inr}
use mathlib.Core.Path.{◌≡◌, refl}
use mathlib.Core.Bool.{Bool, true, false, not, ◌&&◌, ◌||◌}
use g2mirror.Prelude.Tests.{ltb, ◌==◌, if◌then◌else◌, Bool-cases}

-- A test passes at all values under a bound, the greatest first.
passes_under : (ℕ → Bool) → ℕ → Bool
passes_under test zero = true
passes_under test (suc top) =
    let others = passes_under test top in if test top then others else false

passes_at :
    (test : ℕ → Bool) (bound : ℕ)
    → passes_under test bound ≡ true
    → (value : ℕ) → value < bound
    → test value ≡ true
unfolding passes_under
passes_at test zero passed value under = elim under [ ]
passes_at test (suc top) passed value under = elim (Bool-cases (value == top)) [
  | inl here ↦ ground (arith, here, passed)
  | inr below ↦ passes_at test top (ground (arith, passed)) value (ground (arith, below, under))
]

abbrev agrees : ℕ → ℕ → Bool
agrees a b =
    ltb (bit_or a b) 256
    && ltb (bit_xor a b) 256
    && (not (bit_or a b == 0) || (a == 0 && b == 0))
    && (not (bit_xor a b == 0) || a == b)
    && (not (a == b) || bit_xor a b == 0)

table : passes_under (λ a. passes_under (agrees a) 256) 256 ≡ true
unfolding passes_under
table = refl

-- The two bytes of which `agrees` is known.
agrees_at : (a b : ℕ) → a < 256 → b < 256 → agrees a b ≡ true
agrees_at a b h k =
    passes_at (agrees a) 256 (passes_at (λ x. passes_under (agrees x) 256) 256 table a h) b k

module _ (a b : ℕ) (h : a < 256) (k : b < 256) where
  pub or-lt : bit_or a b < 256
  or-lt = ground (arith, agrees_at a b h k)

  pub xor-lt : bit_xor a b < 256
  xor-lt = ground (arith, agrees_at a b h k)

  pub or_zero : bit_or a b ≡ 0 → (a ≡ 0) × (b ≡ 0)
  or_zero e = ground (arith, agrees_at a b h k)

  pub xor_zero : bit_xor a b ≡ 0 → a ≡ b
  xor_zero e = ground (arith, agrees_at a b h k)

  pub xor_same : a ≡ b → bit_xor a b ≡ 0
  xor_same e = ground (arith, agrees_at a b h k)

-- ===== src/Attach/Args/Named.antt =====
-- How the detach key is named: `parse_detach_key` of src/attach.rs.
use g2mirror.Prelude.{
  ℕ, ◌-◌, ◌<◌, ◌≡◌, true, [], ◌∷◌, ◌++◌, Option, none, some, Bytes, within, ascii, Bool-cases, inl,
  inr, arith,
}
use g2mirror.Prelude.Results.{ok}
use g2mirror.Attach.Args.{control_key, same_ignoring_case, behind_prefix, parse_detach_key}

control_key-named :
    (s : Bytes) (c : ℕ)
    → within b'@' b'_' c ≡ true
    → control_key s (some (c ∷ [])) ≡ ok (some (c - 64))
unfolding control_key
control_key-named s c h = ground arith

control_key-lt : (s : Bytes) (o : Option Bytes) (k : ℕ) → control_key s o ≡ ok (some k) → k < 32
unfolding control_key
control_key-lt s none k e = absurd cc
control_key-lt s (some []) k e = absurd cc
control_key-lt s (some (c ∷ [])) k e = ground (arith, e)
control_key-lt s (some (c ∷ d ∷ ds)) k e = absurd cc

-- Each control character is named by its letter or sign behind `ctrl-`, `ctrl+`, `C-` and `^`.
pub parse_detach_key-names :
    (c : ℕ)
    → within b'@' b'_' c ≡ true
    → (parse_detach_key (ascii "ctrl-" ++ c ∷ []) ≡ ok (some (c - 64)))
      × (parse_detach_key (ascii "ctrl+" ++ c ∷ []) ≡ ok (some (c - 64)))
      × (parse_detach_key (ascii "C-" ++ c ∷ []) ≡ ok (some (c - 64)))
      × (parse_detach_key (ascii "^" ++ c ∷ []) ≡ ok (some (c - 64)))
unfolding parse_detach_key
parse_detach_key-names c h = (
  control_key-named (ascii "ctrl-" ++ c ∷ []) c h,
  control_key-named (ascii "ctrl+" ++ c ∷ []) c h,
  control_key-named (ascii "C-" ++ c ∷ []) c h,
  control_key-named (ascii "^" ++ c ∷ []) c h,
)

-- Nothing else than a control character is ever taken for the key.
pub parse_detach_key-lt : (s : Bytes) (k : ℕ) → parse_detach_key s ≡ ok (some k) → k < 32
unfolding parse_detach_key
parse_detach_key-lt s k e = elim (Bool-cases (same_ignoring_case s (ascii "none"))) [
  | inl none_named ↦ absurd (ground (arith, e, none_named))
  | inr other ↦ control_key-lt s (behind_prefix s) k (rw other at e)
]

-- ===== src/Attach/Choice/Within.antt =====
-- Where a pattern stands in what is shown of a session (`probe_matches` of src/attach.rs).
use g2mirror.Prelude.{
  ◌≡◌, refl, true, List, [], ◌∷◌, Option, none, some, Bytes, All, Bool, Bool-cases, inl, inr, ap,
  ◌++◌, ◌⊎◌, any, arith,
}
use g2mirror.Prelude.Decimal.{decimal}
use g2mirror.Attach.Choice.{Probe, starts_with, contains_text, optional}

starts_with-prefix :
    (pattern text : Bytes)
    → starts_with pattern text ≡ true
    → (after : Bytes) × (text ≡ pattern ++ after)
starts_with-prefix [] text h = (text, refl)
starts_with-prefix (p ∷ ps) [] h = absurd cc
starts_with-prefix (p ∷ ps) (c ∷ cs) h =
    let (after, e) = starts_with-prefix ps cs (ground (arith, h)) in
    let q : c ≡ p = ground (arith, h) in (after, λ i. q i ∷ e i)

-- The pattern stands somewhere in the text.
abbrev pub Within : Bytes → Bytes → Type 0
Within pattern text = (before : Bytes) × (after : Bytes) × (text ≡ before ++ pattern ++ after)

pub contains_text-Within :
    (pattern text : Bytes) → contains_text pattern text ≡ true → Within pattern text
unfolding contains_text
contains_text-Within [] [] h = ([], [], refl)
contains_text-Within (p ∷ ps) [] h = absurd cc
contains_text-Within pattern (c ∷ cs) h = elim (Bool-cases (starts_with pattern (c ∷ cs))) [
  | inl here ↦ let (after, e) = starts_with-prefix pattern (c ∷ cs) here in ([], after, e)
  | inr later ↦
      let (before, after, e) = contains_text-Within pattern cs (ground (arith, h, later)) in
      (c ∷ before, after, ap (◌∷◌ c) e)
]

pub any-All :
    (Q : Bytes → Type 0) (test : Bytes → Bool) (fs : List Bytes)
    → All Q fs
    → any test fs ≡ true
    → (f : Bytes) × Q f × (test f ≡ true)
any-All Q test [] h e = absurd cc
any-All Q test (f ∷ fs) (q, h) e = elim (Bool-cases (test f)) [
  | inl has ↦ (f, q, has)
  | inr lacks ↦ any-All Q test fs h (ground (arith, e, lacks))
]

pub optional-All :
    (Q : Bytes → Type 0) (o : Option Bytes) (fs : List Bytes)
    → ((f : Bytes) → o ≡ some f → Q f)
    → All Q fs
    → All Q (optional o ++ fs)
optional-All Q none fs q h = h
optional-All Q (some f) fs q h = (q f refl, h)

-- What is shown of a session.
abbrev pub IsField : Probe → Bytes → Type 0
IsField p f =
    (f ≡ decimal p.pid)
    ⊎ ((f ≡ p.cwd) ⊎ ((f ≡ p.command) ⊎ ((p.title ≡ some f) ⊎ (p.launched ≡ some f))))

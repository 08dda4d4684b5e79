-- ===== src/Prelude/Maps.antt =====
-- Maps keyed by texts, as association lists. An update keeps one entry to a key.
use mathlib.Core.Path.{◌≡◌, refl, ap}
use mathlib.Core.Logic.{inl, inr}
use mathlib.Core.Bool.{Bool, false}
use mathlib.Core.List.{List, [], ◌∷◌}
use mathlib.Core.Option.{Option, none, some}
use native.Mathlib.Omega.{arith}
use g2mirror.Prelude.Tests.{if◌then◌else◌, Bool-cases}
use g2mirror.Prelude.Lists.{Bytes}
use g2mirror.Prelude.Options.{is_some}
use g2mirror.Prelude.Texts.{same, same_refl, same→eq}

abbrev pub Map : Type 0 → Type 0
Map A = List (Bytes × A)

module _ {A : Type 0} where
  abbrev pub lookup : Map A → Bytes → Option A
  lookup [] key = none
  lookup ((k, a) ∷ m) key = if same k key then some a else lookup m key

  abbrev pub contains_key : Map A → Bytes → Bool
  contains_key m key = is_some (lookup m key)

  -- `*m.entry(key).or_insert(d) = f(…)`
  abbrev pub entry : Map A → Bytes → A → (A → A) → Map A
  entry [] key d f = (key, f d) ∷ []
  entry ((k, a) ∷ m) key d f = if same k key then (k, f a) ∷ m else (k, a) ∷ entry m key d f

  -- `m.retain(|k, _| p(k))`
  abbrev pub retain : (Bytes → Bool) → Map A → Map A
  retain p [] = []
  retain p ((k, a) ∷ m) = if p k then (k, a) ∷ retain p m else retain p m

  abbrev pub get_or : Map A → Bytes → A → A
  get_or m key d = elim (lookup m key) [ none ↦ d | some a ↦ a ]

  -- An update is seen under its key,
  pub lookup-entry :
      (m : Map A) (key : Bytes) (d : A) (f : A → A)
      → lookup (entry m key d f) key ≡ some (f (get_or m key d))
  lookup-entry [] key d f = rw (same_refl key) refl
  lookup-entry ((k, a) ∷ m) key d f = elim (Bool-cases (same k key)) [
    | inl e ↦ ground arith
    | inr e ↦ ground (arith, lookup-entry m key d f)
  ]

  -- and under no other.
  pub lookup-entry_other :
      (m : Map A) (key other : Bytes) (d : A) (f : A → A)
      → same key other ≡ false
      → lookup (entry m key d f) other ≡ lookup m other
  lookup-entry_other [] key other d f h = rw h refl
  lookup-entry_other ((k, a) ∷ m) key other d f h = elim (Bool-cases (same k key)) [
    | inl e ↦ let u : same k other ≡ false = rw (same→eq k key e) h in rw (e, u) refl
    | inr e ↦ rw e (ground (arith, lookup-entry_other m key other d f h))
  ]

  pub lookup-retain :
      (p : Bytes → Bool) (m : Map A) (key : Bytes)
      → lookup (retain p m) key ≡ (if p key then lookup m key else none)
  lookup-retain p [] key = ground arith
  lookup-retain p ((k, a) ∷ m) key = elim (Bool-cases (same k key)) [
    | inl e ↦ let u : p k ≡ p key = ap p (same→eq k key e) in ground (arith, lookup-retain p m key)
    | inr e ↦ ground (arith, lookup-retain p m key)
  ]

-- ===== src/Server/Config/Sees.antt =====
-- What a filter of src/bin/g2mirror-server.rs lets through, apart from how it is tested.
use g2mirror.Prelude.{
  ℕ, suc, ◌≡◌, ◌⊎◌, refl, true, List, [], ◌∷◌, Option, none, some, Bytes, any, get_elem?,
  Bool-cases, inl, inr, arith,
}
use g2mirror.Server.Config.{RegexEngine, CompiledRule, part_matches, rule_matches, filter_allows}

module _ (engine : RegexEngine) where
  -- A part of a rule that is not given fits everything; one that is given fits a value that is
  -- there and that its pattern matches.
  abbrev pub Fits : Option engine.Regex → Option Bytes → Type 0
  Fits none value = Unit
  Fits (some re) none = ⊥
  Fits (some re) (some value) = engine.is_match re value ≡ true

  -- One of the rules fits the directory with its path and the title with its window title, or
  -- there are no rules.
  abbrev pub Sees : List (CompiledRule engine) → Option Bytes → Option Bytes → Type 0
  Sees rules cwd title =
      (rules ≡ [])
      ⊎ ((i : ℕ) × (rule : CompiledRule engine) × (get_elem? rules i ≡ some rule)
          × Fits rule.path cwd
          × Fits rule.windowtitle title)

  part_matches-Fits :
      (part : Option engine.Regex) (value : Option Bytes)
      → part_matches engine part value ≡ true
      → Fits part value
  part_matches-Fits none value h = tt
  part_matches-Fits (some re) none h = absurd cc
  part_matches-Fits (some re) (some value) h = h

  any-Fits :
      (rules : List (CompiledRule engine)) (cwd title : Option Bytes)
      → any (rule_matches engine cwd title) rules ≡ true
      → (i : ℕ) × (rule : CompiledRule engine) × (get_elem? rules i ≡ some rule)
        × Fits rule.path cwd
        × Fits rule.windowtitle title
  any-Fits [] cwd title h = absurd cc
  any-Fits (rule ∷ rules) cwd title h = elim (Bool-cases (rule_matches engine cwd title rule)) [
    | inl fits ↦ (
      0,
      rule,
      refl,
      part_matches-Fits rule.path cwd (ground (arith, fits)),
      part_matches-Fits rule.windowtitle title (ground (arith, fits)),
    )
    | inr other ↦
        let (i, found, at, fits, fits_title) =
          any-Fits rules cwd title (ground (arith, h, other)) in
        (suc i, found, at, fits, fits_title)
  ]

  pub filter_allows-Sees :
      (rules : List (CompiledRule engine)) (cwd title : Option Bytes)
      → filter_allows engine rules cwd title ≡ true
      → Sees rules cwd title
  unfolding filter_allows
  filter_allows-Sees [] cwd title h = inl refl
  filter_allows-Sees (rule ∷ rules) cwd title h = inr (any-Fits (rule ∷ rules) cwd title h)

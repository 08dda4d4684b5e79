-- ===== src/Attach/Choice/Claimable.antt =====
-- The session that `--attach` (src/attach.rs) ends with is one that it may claim.
use g2mirror.Prelude.{
  ℕ, zero, suc, ◌<◌, ◌≡◌, refl, true, ◌&&◌, ◌||◌, List, [], ◌∷◌, Option, none, some, Bytes, All,
  length, get_elem?, get_elem?_lt, some_eq, subst, Bool-cases, inl, inr, is_empty, false, ◌++◌, ◌⊎◌,
  keep, append-nil, ◌==◌, arith,
}
use g2mirror.Prelude.Decimal.{decimal}
use g2mirror.Attach.Args.{AttachOpts}
use g2mirror.Attach.Choice.{
  Probe, contains_text, optional, probe_matches, wanted, claimable, precedes, insert, candidates,
  claimed_count, sort_from, Picking, press, arrow, press_all, pick_from, Chosen, refuses, cancels,
  attaches, chosen, choose, attach_choice,
}
use g2mirror.Attach.Choice.Within.{Within, contains_text-Within, any-All, optional-All, IsField}

module _ (P : Probe → Type 0) where
  abbrev Fine : Option Probe → Type 0
  Fine none = Unit
  Fine (some p) = P p

  abbrev FineDone : Option (Option Probe) → Type 0
  FineDone none = Unit
  FineDone (some r) = Fine r

  module _ (cs : List Probe) (all : All P cs) (some_one : 0 < length cs) where
    abbrev FinePicking : Picking → Type 0
    FinePicking s = (s.0 < length cs) × FineDone s.1

    abbrev Picks : Option Picking → Type 0
    Picks r = (s : Picking) × (r ≡ some s) × FinePicking s

    at : (cs : List Probe) (i : ℕ) {p : Probe} → All P cs → get_elem? cs i ≡ some p → P p
    at [] i h e = absurd cc
    at (c ∷ cs) zero h e = subst P (some_eq e) h.0
    at (c ∷ cs) (suc i) h e = at cs i h.1 e

    press-Fine : (s : Picking) (b : ℕ) → FinePicking s → Picks (press cs s b)
    unfolding press
    press-Fine (i, fate) b (lt, fine) = elim (Bool-cases (b == 0x03 || b == 0x04 || b == b'q')) [
      | inl e ↦ rw e (_, refl, (lt, tt))
      | inr e ↦ rw e (elim (Bool-cases (b == b'\r' || b == b'\n')) [
        | inl e ↦ let (p, q) = get_elem?_lt cs i lt in rw (e, q) (_, refl, (lt, at cs i all q))
        | inr e ↦ rw e (elim (Bool-cases (b == b'k')) [
          | inl e ↦ rw e (_, refl, (omega (arith, lt), fine))
          | inr e ↦ rw e (elim (Bool-cases (b == b'j')) [
            | inl e ↦ rw e (_, refl, (omega (arith, lt), fine))
            | inr e ↦ rw e (_, refl, (lt, fine))
          ])
        ])
      ])
    ]

    arrow-Fine : (s : Picking) (b : ℕ) → FinePicking s → FinePicking (arrow cs s b)
    unfolding arrow
    arrow-Fine (i, fate) b (lt, fine) = elim (Bool-cases (b == b'A')) [
      | inl e ↦ rw e (omega (arith, lt), fine)
      | inr e ↦ rw e (elim (Bool-cases (b == b'B')) [
        | inl e ↦ rw e (omega (arith, lt), fine)
        | inr e ↦ rw e (lt, fine)
      ])
    ]

    press_all-Fine : (s : Picking) (bytes : Bytes) → FinePicking s → Picks (press_all cs s bytes)
    unfolding press_all
    press_all-Fine s [] h = (s, refl, h)
    press_all-Fine s (b ∷ []) h = press-Fine s b h
    press_all-Fine s (b ∷ c ∷ []) h =
        let (s', e, h') = press-Fine s b h in rw e (press-Fine s' c h')
    press_all-Fine s (b ∷ c ∷ d ∷ bytes) h =
        elim (Bool-cases (b == 0x1b && (c == b'[' || c == b'O'))) [
          | inl e ↦ rw e (press_all-Fine (arrow cs s d) bytes (arrow-Fine s d h))
          | inr e ↦
              let (s', p, h') = press-Fine s b h in rw (e, p) (press_all-Fine s' (c ∷ d ∷ bytes) h')
        ]

    -- What follows a read, given how the loop goes on.
    settle :
        (o : Option (Option Probe)) (rest : Option (Option Probe))
        → ((r : Option Probe) × (rest ≡ some r) × Fine r)
        → FineDone o
        → (r : Option Probe) × (elim o [ none ↦ rest | some r ↦ some r ] ≡ some r) × Fine r
    settle none rest h fine = h
    settle (some r) rest h fine = (r, refl, fine)

    pick_from-Fine :
        (i : ℕ) (reads : List Bytes)
        → i < length cs
        → (r : Option Probe) × (pick_from cs i reads ≡ some r) × Fine r
    unfolding pick_from
    pick_from-Fine i [] lt = (none, refl, tt)
    pick_from-Fine i (bytes ∷ reads) lt = elim (Bool-cases (is_empty bytes)) [
      | inl e ↦ rw e (none, refl, tt)
      | inr e ↦
          let (s, p, fine) = press_all-Fine (i, none) bytes (lt, tt) in
          rw (e, p) (settle s.1 (pick_from cs s.0 reads) (pick_from-Fine s.0 reads fine.0) fine.1)
    ]

  abbrev pub FineChosen : Chosen → Type 0
  FineChosen (refuses n) = Unit
  FineChosen cancels = Unit
  FineChosen (attaches p) = P p

  chosen-Fine : (r : Option Probe) → Fine r → FineChosen (chosen r)
  chosen-Fine none f = tt
  chosen-Fine (some p) f = f

  choose-Fine :
      (cs : List Probe) (n : ℕ) (reads : List Bytes)
      → All P cs
      → (r : Chosen) × (choose cs n reads ≡ some r) × FineChosen r
  unfolding choose
  choose-Fine [] n reads h = (_, refl, tt)
  choose-Fine (p ∷ []) n reads h = (_, refl, h.0)
  choose-Fine (p ∷ q ∷ cs) n reads h =
      let (r, e, f) = pick_from-Fine (p ∷ q ∷ cs) h (omega arith) 0 reads (omega arith) in
      rw e (chosen r, refl, chosen-Fine r f)

  insert-All : (p : Probe) (ps : List Probe) → P p → All P ps → All P (insert p ps)
  unfolding insert
  insert-All p [] h hs = (h, tt)
  insert-All p (q ∷ qs) h hs = elim (Bool-cases (precedes p q)) [
    | inl e ↦ rw e (h, hs)
    | inr e ↦ rw e (hs.0, insert-All p qs h hs.1)
  ]

  sort_from-All : (sorted ps : List Probe) → All P sorted → All P ps → All P (sort_from sorted ps)
  unfolding sort_from
  sort_from-All sorted [] h hs = h
  sort_from-All sorted (p ∷ ps) h hs =
      sort_from-All (insert p sorted) ps (insert-All p sorted hs.0 h) hs.1

module _ (P : Probe → Type 0) (lower : Bytes → Bytes) (opts : AttachOpts) where
  -- A pattern stands in one of the fields, both in lower case.
  abbrev pub Matches : Option Bytes → Probe → Type 0
  Matches none p = Unit
  Matches (some pattern) p = (f : Bytes) × IsField p f × Within (lower pattern) (lower f)

  -- What holds of every probe, and that the probe may be claimed.
  abbrev pub IsClaimable : Probe → Type 0
  IsClaimable p =
      P p
      × (((opts.force ≡ true) × (p.headless ≡ true)) ⊎ ((opts.force ≡ false) × (p.detached ≡ true)))
      × Matches opts.pattern p

  wanted-Matches : (o : Option Bytes) (p : Probe) → wanted lower o p ≡ true → Matches o p
  unfolding probe_matches
  wanted-Matches none p h = tt
  wanted-Matches (some pattern) p h =
      let launched : All (IsField p) (optional p.launched) =
        rw append-nil at
          (optional-All (IsField p) p.launched [] (λ f e. inr (inr (inr (inr e)))) tt) in
      let (f, field, within) =
        any-All (IsField p) (λ f. contains_text (lower pattern) (lower f))
          (decimal p.pid ∷ p.cwd ∷ p.command ∷ [] ++ optional p.title ++ optional p.launched)
          (
            inl refl,
            (
              inr (inl refl),
              (
                inr (inr (inl refl)),
                optional-All (IsField p) p.title _ (λ f e. inr (inr (inr (inl e)))) launched,
              ),
            ),
          )
          h in
      (f, field, contains_text-Within (lower pattern) (lower f) within)

  claimable-IsClaimable : (p : Probe) → P p → claimable lower opts p ≡ true → IsClaimable p
  claimable-IsClaimable p h e =
      let matching = wanted-Matches opts.pattern p (ground (arith, e)) in
      elim (Bool-cases opts.force) [
        | inl force ↦ (h, inl (force, ground (arith, e, force)), matching)
        | inr idle ↦ (h, inr (idle, ground (arith, e, idle)), matching)
      ]

  keep-All : (ps : List Probe) → All P ps → All IsClaimable (keep (claimable lower opts) ps)
  keep-All [] h = tt
  keep-All (p ∷ ps) h = elim (Bool-cases (claimable lower opts p)) [
    | inl e ↦ rw (All, e) (claimable-IsClaimable p h.0 e, keep-All ps h.1)
    | inr e ↦ rw (All, e) (keep-All ps h.1)
  ]

  -- Whatever is read from the keyboard, the choice ends without a panic, and the session that is
  -- attached, if any, is one of those probed: what holds of them all holds of it. With `--force`
  -- it is headless, without it is detached, and a pattern that is given stands, both in lower case,
  -- in its pid, directory, command, title or launch name.
  pub attach_choice-IsClaimable :
      (probes : List Probe) (reads : List Bytes)
      → All P probes
      → (r : Chosen) × (attach_choice lower opts probes reads ≡ some r) × FineChosen IsClaimable r
  unfolding attach_choice candidates
  attach_choice-IsClaimable probes reads h =
      let sorted = sort_from [] probes in
      choose-Fine IsClaimable (candidates lower opts sorted) (claimed_count lower opts sorted) reads
        (keep-All sorted (sort_from-All P [] probes tt h))

-- ===== src/Session/View/Decided.antt =====
-- The size of the view that `refresh_view` of src/main.rs decides, and what its viewers then see.
use g2mirror.Prelude.{
  ℕ, ◌≡◌, ◌≤◌, ◌<◌, ◌⊎◌, refl, Bool, true, false, not, ◌&&◌, ◌||◌, List, Option, is_some, All,
  arith, Bool-cases, Option-cases, if_intro, leb, inl, inr,
}
use g2mirror.Session.Client.{Client, is_live_viewing}
use g2mirror.Session.View.{
  MirrorModel, Host, Refreshed, next_outcome, best, size_for, differs, is_real, show, hide,
  refresh_view,
}
use g2mirror.Session.View.Best.{IsFirst, rank_of, effective_rank-rank_of, best-IsFirst}
use g2mirror.Session.View.Synced.{IsSyncedBut, Shows, Hides, refresh_view-Shows}

-- The rows and columns for the client `b`: its own height and width in a headless session, or if
-- its rank is not behind the host's; otherwise the rows and columns of the host's terminal.
abbrev pub Decides : ℕ × ℕ → ℕ → Bool → Client → ℕ → ℕ → Type 0
Decides host_size r headless b rows cols =
    (((headless ≡ true) ⊎ (rank_of r b ≤ r)) × (rows ≡ b.height) × (cols ≡ b.width))
    ⊎ ((headless ≡ false) × (r < rank_of r b) × (rows ≡ host_size.0) × (cols ≡ host_size.1))

module _ (mm : MirrorModel) where
  size_for-Decides :
      (m : mm.Mirror) (r : ℕ) (headless : Bool) (b : Client)
      → Decides
          (mm.host_size m)
          r
          headless
          b
          (size_for mm m r headless b).0
          (size_for mm m r headless b).1
  unfolding size_for
  size_for-Decides m r headless b =
      let rank = effective_rank-rank_of r b in
      elim (Bool-cases headless) [
        | inl alone ↦ inl (inl alone, ground (arith, alone), ground (arith, alone))
        | inr hosted ↦ elim (Bool-cases (leb (rank_of r b) r)) [
          | inl first ↦ inl (
            inr (ground (arith, first)),
            ground (arith, rank, first),
            ground (arith, rank, first),
          )
          | inr behind ↦ inr (
            hosted,
            ground (arith, behind),
            ground (arith, rank, hosted, behind),
            ground (arith, rank, hosted, behind),
          )
        ]
      ]

  -- A refresh fails only if the transition cannot be applied.
  abbrev pub FailsOnly : Host → Refreshed mm → Type 0
  FailsOnly h r = (r.works ≡ true) ⊎ ((next_outcome h.outcomes).0 ≡ false)

  outcome : (b : Bool) → (b ≡ true) ⊎ (b ≡ false)
  outcome true = inl refl
  outcome false = inr refl

  show-FailsOnly :
      (cs : List Client) (m : mm.Mirror) (force_for : Option ℕ) (h : Host) (rows cols : ℕ)
      → FailsOnly h (show mm cs m force_for h rows cols)
  unfolding show
  show-FailsOnly cs m force_for h rows cols =
      if_intro (FailsOnly h) (differs mm (mm.view m) rows cols || is_some force_for) _ _
        (λ _. outcome (next_outcome h.outcomes).0) (λ _. inl refl)

  hide-FailsOnly :
      (cs : List Client) (m : mm.Mirror) (headless : Bool) (h : Host)
      → FailsOnly h (hide mm cs m headless h)
  unfolding hide
  hide-FailsOnly cs m headless h =
      if_intro (FailsOnly h) (not headless && is_real mm (mm.view m)) _ _
        (λ _. outcome (next_outcome h.outcomes).0) (λ _. inl refl)

  refresh_view-FailsOnly :
      (cs : List Client) (m : mm.Mirror) (r : ℕ) (headless : Bool) (force_for : Option ℕ) (h : Host)
      → FailsOnly h (refresh_view mm cs m r headless force_for h)
  unfolding refresh_view
  refresh_view-FailsOnly cs m r headless force_for h = elim (Option-cases (best r cs)) [
    | inl e ↦ rw (refresh_view, e) (hide-FailsOnly cs m headless h)
    | inr (b, e) ↦
        rw (refresh_view, e)
          (show-FailsOnly cs m force_for h (size_for mm m r headless b).0
            (size_for mm m r headless b).1)
  ]

  -- What `refresh_view` leaves of viewers that were synced with the view, but for the one that
  -- asks. It fails only if the transition cannot be applied. Either no client views: then no client changes and, with a host terminal, no real view is
  -- left. Or some client views: then, if no transition fails, the view is a real one and every live
  -- viewing client has a snapshot of its size, which is the height and width of the first viewing
  -- client if the session is headless or that client's rank is not behind the host's, and the size
  -- of the host's terminal otherwise.
  pub refresh_view-IsDecided :
      (cs : List Client) (m : mm.Mirror) (r : ℕ) (headless : Bool) (force_for : Option ℕ) (h : Host)
      → IsSyncedBut mm force_for (mm.view m) cs
      → FailsOnly h (refresh_view mm cs m r headless force_for h)
        × ((All (λ c. is_live_viewing c ≡ false) cs
              × Hides mm cs headless (refresh_view mm cs m r headless force_for h))
            ⊎ ((b : Client) × (rows : ℕ) × (cols : ℕ) × IsFirst r b cs
                × Decides (mm.host_size m) r headless b rows cols
                × Shows mm rows cols (refresh_view mm cs m r headless force_for h)))
  refresh_view-IsDecided cs m r headless force_for h synced =
      let (shows, hides) = refresh_view-Shows mm cs m r headless force_for h synced in
      (
        refresh_view-FailsOnly cs m r headless force_for h,
        elim (best-IsFirst r cs) [
          | inl (e, idle) ↦ inl (idle, hides e)
          | inr (b, e, first) ↦
              let (rows, cols) = size_for mm m r headless b in
              inr (b, _, _, first, size_for-Decides m r headless b, shows b e)
        ],
      )

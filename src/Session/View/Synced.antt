-- ===== src/Session/View/Synced.antt =====
-- What the viewers see after `refresh_view` of src/main.rs: a stream of the size of their last
-- snapshot.
use g2mirror.Prelude.{
  length, Option-cases, inl, inr, subst, ℕ, suc, ◌≡◌, refl, ap, Bool, true, false, not, ◌&&◌, ◌||◌,
  List, [], ◌∷◌, Option, none, some, is_some, if_intro, All, arith, Bytes,
}
use g2mirror.Session.Client.{
  Client, FromSession, connect, snapshot, output, bell, activity, title, exit, host_changed,
  history_lines, error, deliver, is_live_viewing,
}
use g2mirror.Session.Client.Deliver.{deliver-sent}
use g2mirror.Session.View.{
  View, MirrorModel, Host, next_outcome, best, is_index, broadcast, size_for, differs, is_real,
  Refreshed, show, hide, refresh_view,
}

-- The width and the height of the last snapshot.
abbrev pub last_snapshot : List FromSession → Option (ℕ × ℕ)
last_snapshot [] = none
last_snapshot (snapshot bytes width height next ∷ sent) = some (width, height)
last_snapshot (connect greeting ∷ sent) = last_snapshot sent
last_snapshot (output bytes ∷ sent) = last_snapshot sent
last_snapshot (bell at ∷ sent) = last_snapshot sent
last_snapshot (activity at ∷ sent) = last_snapshot sent
last_snapshot (title t ∷ sent) = last_snapshot sent
last_snapshot (exit status ∷ sent) = last_snapshot sent
last_snapshot (host_changed attached ∷ sent) = last_snapshot sent
last_snapshot (history_lines start oldest next lines ∷ sent) = last_snapshot sent
last_snapshot (error e ∷ sent) = last_snapshot sent

-- A client that views has a snapshot of this size.
abbrev pub IsSynced : ℕ → ℕ → Client → Type 0
IsSynced rows cols c = is_live_viewing c ≡ true → last_snapshot c.sent ≡ some (cols, rows)

-- All clients have the property, except the one of index `force_for`, counted from `i`.
abbrev pub Others : (Client → Type 0) → Option ℕ → ℕ → List Client → Type 0
Others P force_for i [] = Unit
Others P force_for i (c ∷ cs) = (is_index force_for i ≡ false → P c) × Others P force_for (suc i) cs

deliver-IsSynced :
    (bytes : Bytes) (next rows cols : ℕ) (c : Client)
    → IsSynced rows cols (deliver (snapshot bytes cols rows next) c)
deliver-IsSynced bytes next rows cols c live =
    ap last_snapshot (deliver-sent (snapshot bytes cols rows next) c (ground arith))

broadcast-IsSynced :
    (changed : Bool) (force_for : Option ℕ) (bytes : Bytes) (next rows cols i : ℕ)
    (cs : List Client)
    → (changed ≡ false → Others (IsSynced rows cols) force_for i cs)
    → All (IsSynced rows cols) (broadcast changed force_for (snapshot bytes cols rows next) i cs)
unfolding broadcast
broadcast-IsSynced changed force_for bytes next rows cols i [] h = tt
broadcast-IsSynced changed force_for bytes next rows cols i (c ∷ cs) h = (
  if_intro (IsSynced rows cols) (is_live_viewing c && (changed || is_index force_for i)) _ _
      (λ _. deliver-IsSynced bytes next rows cols c)
      (λ kept live. (h (ground arith)).0 (ground arith) live),
  broadcast-IsSynced changed force_for bytes next rows cols (suc i) cs (λ e. (h e).1),
)

All-Others : (P : Client → Type 0) (i : ℕ) (cs : List Client) → Others P none i cs → All P cs
All-Others P i [] h = tt
All-Others P i (c ∷ cs) (p, h) = (p refl, All-Others P (suc i) cs h)

is_none-eq : {A : Type 0} (o : Option A) → is_some o ≡ false → o ≡ none
is_none-eq none h = refl
is_none-eq (some a) h = absurd cc

module _ (mm : MirrorModel) where
  -- The clients of a view are synced with it. A simulated view has no clients.
  abbrev pub IsSyncedWith : Option View → List Client → Type 0
  IsSyncedWith none cs = Unit
  IsSyncedWith (some v) cs = v.simulated ≡ false → All (IsSynced v.rows v.cols) cs

  -- The same, of all clients but the one that asked for the view.
  abbrev pub IsSyncedBut : Option ℕ → Option View → List Client → Type 0
  IsSyncedBut force_for none cs = Unit
  IsSyncedBut force_for (some v) cs =
      v.simulated ≡ false → Others (IsSynced v.rows v.cols) force_for 0 cs

  not_differs :
      (force_for : Option ℕ) (o : Option View) (rows cols : ℕ) (cs : List Client)
      → IsSyncedBut force_for o cs
      → differs mm o rows cols ≡ false
      → (o ≡ some (record { rows = rows; cols = cols; simulated = false }))
        × Others (IsSynced rows cols) force_for 0 cs
  not_differs force_for none rows cols cs h d = absurd cc
  not_differs force_for (some v) rows cols cs h d =
      let r : v.rows ≡ rows = ground arith in
      let k : v.cols ≡ cols = ground arith in
      let s : v.simulated ≡ false = ground arith in
      let e : v ≡ record { rows = rows; cols = cols; simulated = false } =
        λ i. record { rows = r i; cols = k i; simulated = s i } in
      (
        ap some e,
        subst (λ a. Others (IsSynced a cols) force_for 0 cs) r
            (subst (λ b. Others (IsSynced v.rows b) force_for 0 cs) k (h s)),
      )

  -- The view has the size, and its clients are synced with it.
  abbrev pub Shows : ℕ → ℕ → Refreshed mm → Type 0
  Shows rows cols r =
      r.works ≡ true
      → (mm.view r.mirror ≡ some (record { rows = rows; cols = cols; simulated = false }))
        × All (IsSynced rows cols) r.viewers

  show-Shows :
      (cs : List Client) (m : mm.Mirror) (force_for : Option ℕ) (h : Host) (rows cols : ℕ)
      → IsSyncedBut force_for (mm.view m) cs
      → Shows rows cols (show mm cs m force_for h rows cols)
  unfolding show
  show-Shows cs m force_for h rows cols synced =
      if_intro (Shows rows cols) (differs mm (mm.view m) rows cols || is_some force_for) _ _
        (λ again works. (
          mm.view-start m _,
          if_intro (All (IsSynced rows cols)) (next_outcome h.outcomes).0 _ _
              (λ _.
                broadcast-IsSynced (differs mm (mm.view m) rows cols) force_for _ _ rows cols 0 cs
                  (λ e. (not_differs force_for (mm.view m) rows cols cs synced e).1))
              (λ f. absurd (ground (arith, works, f))),
        ))
        (λ kept works.
          let (there, others) =
            not_differs force_for (mm.view m) rows cols cs synced (ground (arith, kept)) in
          let nobody : force_for ≡ none = is_none-eq force_for (ground (arith, kept)) in
          (
            there,
            All-Others (IsSynced rows cols) 0 cs
                (subst (λ f. Others (IsSynced rows cols) f 0 cs) nobody others),
          ))

  -- No client changes, and with a host terminal no real view is left.
  abbrev pub Hides : List Client → Bool → Refreshed mm → Type 0
  Hides cs headless r =
      (r.viewers ≡ cs) × (headless ≡ false → is_real mm (mm.view r.mirror) ≡ false)

  hide-Hides :
      (cs : List Client) (m : mm.Mirror) (headless : Bool) (h : Host)
      → Hides cs headless (hide mm cs m headless h)
  unfolding hide
  hide-Hides cs m headless h =
      if_intro (Hides cs headless) (not headless && is_real mm (mm.view m)) _ _
        (λ _. (refl, λ _. ap (is_real mm) (mm.view-end m))) (λ k. (refl, λ e. ground (arith, k, e)))

  -- For clients that were synced but for the one that asks: the arm of a best client, and that of
  -- none.
  pub refresh_view-Shows :
      (cs : List Client) (m : mm.Mirror) (host_rank : ℕ) (headless : Bool) (force_for : Option ℕ)
      (h : Host)
      → IsSyncedBut force_for (mm.view m) cs
      → ((b : Client)
          → best host_rank cs ≡ some b
          → Shows
              (size_for mm m host_rank headless b).0
              (size_for mm m host_rank headless b).1
              (refresh_view mm cs m host_rank headless force_for h))
        × (best host_rank cs ≡ none
            → Hides cs headless (refresh_view mm cs m host_rank headless force_for h))
  unfolding refresh_view
  refresh_view-Shows cs m host_rank headless force_for h synced = (
    λ b e.
        rw (refresh_view, e)
          (show-Shows cs m force_for h (size_for mm m host_rank headless b).0
            (size_for mm m host_rank headless b).1 synced),
    λ e. rw (refresh_view, e) (hide-Hides cs m headless h),
  )

  length-broadcast :
      (changed : Bool) (force_for : Option ℕ) (message : FromSession) (i : ℕ) (cs : List Client)
      → length (broadcast changed force_for message i cs) ≡ length cs
  unfolding broadcast
  length-broadcast changed force_for message i [] = refl
  length-broadcast changed force_for message i (c ∷ cs) =
      ap suc (length-broadcast changed force_for message (suc i) cs)

  length-show :
      (cs : List Client) (m : mm.Mirror) (force_for : Option ℕ) (h : Host) (rows cols : ℕ)
      → length (show mm cs m force_for h rows cols).viewers ≡ length cs
  unfolding show
  length-show cs m force_for h rows cols =
      if_intro (λ (r : Refreshed mm). length r.viewers ≡ length cs)
        (differs mm (mm.view m) rows cols || is_some force_for) _ _
        (λ _.
          if_intro (λ (v : List Client). length v ≡ length cs) (next_outcome h.outcomes).0 _ _
            (λ _. length-broadcast (differs mm (mm.view m) rows cols) force_for _ 0 cs) (λ _. refl))
        (λ _. refl)

  -- `refresh_view` removes no viewer: indices stay valid.
  pub length-refresh_view :
      (cs : List Client) (m : mm.Mirror) (host_rank : ℕ) (headless : Bool) (force_for : Option ℕ)
      (h : Host)
      → length (refresh_view mm cs m host_rank headless force_for h).viewers ≡ length cs
  unfolding refresh_view
  length-refresh_view cs m host_rank headless force_for h =
      elim (Option-cases (best host_rank cs)) [
        | inl e ↦ rw (refresh_view, e) (ap length (hide-Hides cs m headless h).0)
        | inr (b, e) ↦
            rw (refresh_view, e)
              (length-show cs m force_for h (size_for mm m host_rank headless b).0
                (size_for mm m host_rank headless b).1)
      ]

  -- With no client at all, a headless session is left as it is.
  pub refresh_view-nobody :
      (m : mm.Mirror) (host_rank : ℕ) (h : Host)
      → ((refresh_view mm [] m host_rank true none h).viewers ≡ [])
        × ((refresh_view mm [] m host_rank true none h).works ≡ true)
  unfolding refresh_view best hide
  refresh_view-nobody m host_rank h = (refl, refl)

-- ===== src/Session/Sweep/Clean.antt =====
-- What `sweep_and_refresh` of src/main.rs leaves.
use g2mirror.Prelude.{
  ℕ, zero, suc, ◌+◌, ◌≤◌, ◌<◌, ◌≡◌, refl, sym, ap, ◌∙◌, subst, Bool, true, false, List, [], ◌∷◌,
  Option, none, some, keep, any, all, length, All, if◌then◌else◌, if_intro, arith, Bool-cases,
  Option-cases, inl, inr,
}
use g2mirror.Session.Client.{
  is_viewing, awaiting_init, ready, viewing, Client, FromSession, host_changed, deliver,
  is_live_viewing, is_live_host,
}
use g2mirror.Session.Client.Deliver.{deliver-sent, deliver-role, deliver-dead}
use g2mirror.Session.View.{View, MirrorModel, Host, refresh_view, best, is_real}
use g2mirror.Session.View.Synced.{
  last_snapshot, IsSynced, Others, IsSyncedWith, IsSyncedBut, refresh_view-Shows,
  length-refresh_view,
}
use g2mirror.Session.View.Best.{best-none}
use g2mirror.Session.Sweep.{
  same_bool, Clients, announce, lives, notice, refreshed, sweep_loop, sweep_and_refresh,
}

-- How many live.
abbrev pub live_count : List Client → ℕ
live_count cs = length (keep lives cs)

live_count_cons :
    (c : Client) (cs : List Client)
    → live_count (c ∷ cs) ≡ (if c.dead then live_count cs else suc (live_count cs))
live_count_cons c cs = elim (Bool-cases c.dead) [
  | inl d ↦ rw (live_count, d) refl
  | inr l ↦ rw (live_count, l) refl
]

announce-live_count :
    (message : FromSession) (cs : List Client) → live_count (announce message cs) ≤ live_count cs
unfolding announce
announce-live_count message [] = omega arith
announce-live_count message (c ∷ cs) =
    let ih = announce-live_count message cs in
    let before = live_count_cons c cs in
    let after = live_count_cons (deliver message c) (announce message cs) in
    let same = live_count_cons c (announce message cs) in
    if_intro (λ (x : Client). live_count (x ∷ announce message cs) ≤ live_count (c ∷ cs)) c.dead _ _
      (λ d. ground (arith, ih, before, same, d)) (λ l. ground (arith, ih, before, after, l))

live_count-le-length : (cs : List Client) → live_count cs ≤ length cs
live_count-le-length [] = omega arith
live_count-le-length (c ∷ cs) = ground (arith, live_count-le-length cs, live_count_cons c cs)

live_count-lt-length : (cs : List Client) → all lives cs ≡ false → live_count cs < length cs
live_count-lt-length [] h = absurd cc
live_count-lt-length (c ∷ cs) h = elim (Bool-cases c.dead) [
  | inl d ↦ ground (arith, live_count-le-length cs, live_count_cons c cs)
  | inr l ↦
      let later : all lives cs ≡ false = ground (arith, h, l) in
      ground (arith, live_count-lt-length cs later, live_count_cons c cs)
]

deliver-IsSynced :
    (attached : Bool) (rows cols : ℕ) (c : Client)
    → IsSynced rows cols c
    → IsSynced rows cols (deliver (host_changed attached) c)
deliver-IsSynced attached rows cols c s live =
    let message = host_changed attached in
    let alive : (deliver message c).dead ≡ false = ground (arith, live) in
    let viewed : is_viewing (deliver message c) ≡ is_viewing c =
      ap (λ st. elim st [ awaiting_init ↦ false | ready ↦ false | viewing ↦ true ])
        (deliver-role message c).1 in
    ap last_snapshot (deliver-sent message c alive)
    ∙ s (ground (arith, live, viewed, deliver-dead message c alive))

announce-IsSynced :
    (attached : Bool) (rows cols : ℕ) (cs : List Client)
    → All (IsSynced rows cols) cs
    → All (IsSynced rows cols) (announce (host_changed attached) cs)
unfolding announce
announce-IsSynced attached rows cols [] h = tt
announce-IsSynced attached rows cols (c ∷ cs) (s, h) = (
  if_intro (IsSynced rows cols) c.dead _ _ (λ _. s) (λ _. deliver-IsSynced attached rows cols c s),
  announce-IsSynced attached rows cols cs h,
)

All-kept :
    (P : Client → Type 0) (p : Client → Bool) (cs : List Client) → All P cs → All P (keep p cs)
All-kept P p [] h = tt
All-kept P p (c ∷ cs) (x, h) =
    if_intro (All P) (p c) _ _ (λ _. (x, All-kept P p cs h)) (λ _. All-kept P p cs h)

All→Others : (P : Client → Type 0) (i : ℕ) (cs : List Client) → All P cs → Others P none i cs
All→Others P i [] h = tt
All→Others P i (c ∷ cs) (x, h) = (λ _. x, All→Others P (suc i) cs h)

idle-IsSynced :
    (rows cols : ℕ) (cs : List Client)
    → All (λ c. is_live_viewing c ≡ false) cs
    → All (IsSynced rows cols) cs
idle-IsSynced rows cols [] h = tt
idle-IsSynced rows cols (c ∷ cs) (idle, h) =
    (λ live. absurd (ground (arith, idle, live)), idle-IsSynced rows cols cs h)

module _ (mm : MirrorModel) where
  abbrev pub IsSyncedState : Clients mm → Type 0
  IsSyncedState s = IsSyncedWith mm (mm.view s.mirror) s.viewers

  IsSyncedWith-map :
      (o : Option View) (cs ds : List Client)
      → ((rows cols : ℕ) → All (IsSynced rows cols) cs → All (IsSynced rows cols) ds)
      → IsSyncedWith mm o cs
      → IsSyncedWith mm o ds
  IsSyncedWith-map none cs ds f h = tt
  IsSyncedWith-map (some v) cs ds f h = λ real. f v.rows v.cols (h real)

  IsSyncedWith→But :
      (o : Option View) (cs : List Client) → IsSyncedWith mm o cs → IsSyncedBut mm none o cs
  IsSyncedWith→But none cs h = tt
  IsSyncedWith→But (some v) cs h = λ real. All→Others (IsSynced v.rows v.cols) 0 cs (h real)

  notice-kept :
      (s : Clients mm)
      → (live_count (notice mm s).viewers ≤ live_count s.viewers)
        × ((rows cols : ℕ)
            → All (IsSynced rows cols) s.viewers
            → All (IsSynced rows cols) (notice mm s).viewers)
        × ((notice mm s).mirror ≡ s.mirror)
  unfolding notice
  notice-kept s =
      if_intro
        (λ (n : Clients mm).
          (live_count n.viewers ≤ live_count s.viewers)
          × ((rows cols : ℕ)
              → All (IsSynced rows cols) s.viewers
              → All (IsSynced rows cols) n.viewers)
          × (n.mirror ≡ s.mirror))
        (same_bool (any is_live_host s.viewers) s.host_attached) _ _
        (λ _. (omega arith, (λ r k h. h), refl))
        (λ _. (
          announce-live_count (host_changed (any is_live_host s.viewers)) s.viewers,
          (λ r k h. announce-IsSynced (any is_live_host s.viewers) r k s.viewers h),
          refl,
        ))

  -- A real view is on if anyone views, and those who view have a snapshot of its size.
  abbrev pub IsShown : mm.Mirror → List Client → Type 0
  IsShown m cs =
      IsSyncedWith mm (mm.view m) cs
      × (any is_live_viewing cs ≡ true → is_real mm (mm.view m) ≡ true)

  idle-any :
      (cs : List Client) → All (λ c. is_live_viewing c ≡ false) cs → any is_live_viewing cs ≡ false
  idle-any [] h = refl
  idle-any (c ∷ cs) (idle, h) = ground (arith, idle, idle-any cs h)

  refresh-IsShown :
      (cs : List Client) (m : mm.Mirror) (host_rank : ℕ) (headless : Bool) (h : Host)
      → IsSyncedWith mm (mm.view m) cs
      → (refresh_view mm cs m host_rank headless none h).works ≡ true
      → IsShown
          (refresh_view mm cs m host_rank headless none h).mirror
          (refresh_view mm cs m host_rank headless none h).viewers
  refresh-IsShown cs m host_rank headless h synced works =
      let r = refresh_view mm cs m host_rank headless none h in
      let (shows, hides) =
        refresh_view-Shows mm cs m host_rank headless none h
          (IsSyncedWith→But (mm.view m) cs synced) in
      elim (Option-cases (best host_rank cs)) [
        | inl e ↦
            let idle = best-none host_rank cs e in
            let kept = (hides e).0 in
            (
              subst (λ v. IsSyncedWith mm (mm.view r.mirror) v) (sym kept)
                  (idle-IsSyncedWith (mm.view r.mirror) cs idle),
              λ v. absurd (ground (arith, v, ap (any is_live_viewing) kept, idle-any cs idle)),
            )
        | inr (b, e) ↦
            let (there, all_synced) = shows b e works in
            (
              subst (λ o. IsSyncedWith mm o r.viewers) (sym there) (λ _. all_synced),
              λ _. ap (is_real mm) there,
            )
      ]
    where
      idle-IsSyncedWith :
          (o : Option View) (ds : List Client)
          → All (λ c. is_live_viewing c ≡ false) ds
          → IsSyncedWith mm o ds
      idle-IsSyncedWith none ds i = tt
      idle-IsSyncedWith (some v) ds i = λ _. idle-IsSynced v.rows v.cols ds i

  -- The state after a round.
  abbrev pub after : Clients mm → ℕ → Bool → Clients mm
  after s host_rank headless =
      let r = refreshed mm (notice mm s) host_rank headless in
      record (notice mm s) { viewers = r.viewers; mirror = r.mirror; host = r.host }

  round-IsShown :
      (s : Clients mm) (host_rank : ℕ) (headless : Bool)
      → IsSyncedState s
      → (refreshed mm (notice mm s) host_rank headless).works ≡ true
      → IsShown (after s host_rank headless).mirror (after s host_rank headless).viewers
  unfolding refreshed
  round-IsShown s host_rank headless synced works =
      let n = notice mm s in
      let (_, moves, mirror_eq) = notice-kept s in
      let told : IsSyncedWith mm (mm.view n.mirror) n.viewers =
        subst (λ m. IsSyncedWith mm (mm.view m) n.viewers) (sym mirror_eq)
          (IsSyncedWith-map (mm.view s.mirror) s.viewers n.viewers moves synced) in
      refresh-IsShown (keep lives n.viewers) n.mirror host_rank headless n.host
        (IsSyncedWith-map (mm.view n.mirror) n.viewers (keep lives n.viewers)
          (λ r k h. All-kept (IsSynced r k) lives n.viewers h) told)
        works

  -- A round that leaves a dead client has one live client less.
  round-live_count :
      (s : Clients mm) (host_rank : ℕ) (headless : Bool)
      → all lives (after s host_rank headless).viewers ≡ false
      → live_count (after s host_rank headless).viewers < live_count s.viewers
  unfolding refreshed
  round-live_count s host_rank headless dead =
      let n = notice mm s in
      omega (
        arith,
        (notice-kept s).0,
        live_count-lt-length (after s host_rank headless).viewers dead,
        length-refresh_view mm (keep lives n.viewers) n.mirror host_rank headless none n.host,
      )

  -- What the loop returns, if no write to the host fails: no dead client, and a view that is shown.
  abbrev pub IsSwept : Option (Clients mm × Bool) → Type 0
  IsSwept none = ⊥
  IsSwept (some (s, works)) =
      works ≡ true → (all lives s.viewers ≡ true) × IsShown s.mirror s.viewers

  sweep_loop-IsSwept :
      (f : ℕ) (s : Clients mm) (host_rank : ℕ) (headless : Bool)
      → live_count s.viewers < f
      → IsSyncedState s
      → IsSwept (sweep_loop mm f s host_rank headless)
  unfolding sweep_loop
  sweep_loop-IsSwept zero s host_rank headless h synced = absurd (omega arith)
  sweep_loop-IsSwept (suc f) s host_rank headless h synced =
      let r = refreshed mm (notice mm s) host_rank headless in
      if_intro IsSwept r.works _ _
        (λ w.
          if_intro IsSwept (all lives r.viewers) _ _
            (λ a _. (a, round-IsShown s host_rank headless synced w))
            (λ d.
              sweep_loop-IsSwept f (after s host_rank headless) host_rank headless
                (omega (arith, round-live_count s host_rank headless d))
                (round-IsShown s host_rank headless synced w).0))
        (λ _ w. absurd cc)

  -- From viewers that are synced with the view, the sweep ends, and unless a write to the host
  -- fails no dead client is left, a real view is on if anyone views, and everyone who views has a
  -- snapshot of its size.
  pub sweep_and_refresh-IsSwept :
      (s : Clients mm) (host_rank : ℕ) (headless : Bool)
      → IsSyncedState s
      → IsSwept (sweep_and_refresh mm s host_rank headless)
  unfolding sweep_and_refresh
  sweep_and_refresh-IsSwept s host_rank headless synced =
      sweep_loop-IsSwept (length s.viewers + 1) s host_rank headless
        (omega (arith, live_count-le-length s.viewers)) synced

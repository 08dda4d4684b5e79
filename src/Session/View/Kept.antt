-- ===== src/Session/View/Kept.antt =====
-- What a refresh of the view (`refresh_view` of src/main.rs) keeps of the viewers.
use g2mirror.Prelude.{
  ℕ, suc, Bool, not, ◌&&◌, ◌||◌, List, [], ◌∷◌, Option, is_some, All, if_intro, Option-cases, inl,
  inr,
}
use g2mirror.Session.Client.{Client, FromSession, deliver, is_live_viewing}
use g2mirror.Session.View.{
  MirrorModel, Host, Refreshed, next_outcome, is_index, broadcast, best, size_for, differs, is_real,
  show, hide, refresh_view,
}

-- A property that messages do not change.
module _ (P : Client → Type 0)
    (stable : (m : FromSession) (c : Client) → P c → P (deliver m c)) where
  broadcast-All :
      (changed : Bool) (force_for : Option ℕ) (message : FromSession) (i : ℕ) (cs : List Client)
      → All P cs
      → All P (broadcast changed force_for message i cs)
  unfolding broadcast
  broadcast-All changed force_for message i [] h = tt
  broadcast-All changed force_for message i (c ∷ cs) (p, h) = (
    if_intro P (is_live_viewing c && (changed || is_index force_for i)) _ _
        (λ _. stable message c p) (λ _. p),
    broadcast-All changed force_for message (suc i) cs h,
  )

  module _ (mm : MirrorModel) where
    show-All :
        (cs : List Client) (m : mm.Mirror) (force_for : Option ℕ) (h : Host) (rows cols : ℕ)
        → All P cs
        → All P (show mm cs m force_for h rows cols).viewers
    unfolding show
    show-All cs m force_for h rows cols a =
        if_intro (λ (r : Refreshed mm). All P r.viewers)
          (differs mm (mm.view m) rows cols || is_some force_for) _ _
          (λ _.
            if_intro (All P) (next_outcome h.outcomes).0 _ _
              (λ _. broadcast-All (differs mm (mm.view m) rows cols) force_for _ 0 cs a) (λ _. a))
          (λ _. a)

    hide-All :
        (cs : List Client) (m : mm.Mirror) (headless : Bool) (h : Host)
        → All P cs
        → All P (hide mm cs m headless h).viewers
    unfolding hide
    hide-All cs m headless h a =
        if_intro (λ (r : Refreshed mm). All P r.viewers) (not headless && is_real mm (mm.view m)) _
          _ (λ _. a) (λ _. a)

    pub refresh_view-All :
        (cs : List Client) (m : mm.Mirror) (host_rank : ℕ) (headless : Bool) (force_for : Option ℕ)
        (h : Host)
        → All P cs
        → All P (refresh_view mm cs m host_rank headless force_for h).viewers
    unfolding refresh_view
    refresh_view-All cs m host_rank headless force_for h a =
        elim (Option-cases (best host_rank cs)) [
          | inl e ↦ rw (refresh_view, e) (hide-All cs m headless h a)
          | inr (b, e) ↦
              rw (refresh_view, e)
                (show-All cs m force_for h (size_for mm m host_rank headless b).0
                  (size_for mm m host_rank headless b).1 a)
        ]

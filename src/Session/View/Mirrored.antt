-- ===== src/Session/View/Mirrored.antt =====
-- What `refresh_view` of src/main.rs does to the mirror: it leaves it, or starts or ends a view.
use g2mirror.Prelude.{
  ℕ, Bool, not, ◌&&◌, ◌||◌, List, Option, is_some, Option-cases, inl, inr, if_intro,
}
use g2mirror.Session.Client.{Client}
use g2mirror.Session.View.{
  View, MirrorModel, Host, Refreshed, best, differs, is_real, size_for, show, hide, refresh_view,
}

module _ (mm : MirrorModel) (P : mm.Mirror → Type 0)
    (starts : (m : mm.Mirror) (v : View) → P m → P (mm.start_view m v).0)
    (ends : (m : mm.Mirror) → P m → P (mm.end_view m).0) where
  pub refresh_view-mirror :
      (cs : List Client) (m : mm.Mirror) (host_rank : ℕ) (headless : Bool) (force_for : Option ℕ)
      (h : Host)
      → P m
      → P (refresh_view mm cs m host_rank headless force_for h).mirror
  unfolding refresh_view show hide
  refresh_view-mirror cs m host_rank headless force_for h p =
      elim (Option-cases (best host_rank cs)) [
        | inl e ↦
            rw (refresh_view, e)
              (if_intro (λ (r : Refreshed mm). P r.mirror) (not headless && is_real mm (mm.view m))
                _ _ (λ _. ends m p) (λ _. p))
        | inr (c, e) ↦
            let size = size_for mm m host_rank headless c in
            rw (refresh_view, e)
              (if_intro (λ (r : Refreshed mm). P r.mirror)
                (differs mm (mm.view m) size.0 size.1 || is_some force_for) _ _ (λ _. starts m _ p)
                (λ _. p))
      ]

-- ===== src/Session/Sweep/Mirrored.antt =====
-- What the mirror is after `sweep_and_refresh` of src/main.rs.
use g2mirror.Prelude.{ℕ, zero, suc, ◌+◌, Bool, any, all, Option, none, some, keep, length, if_intro}
use g2mirror.Session.Client.{is_live_host}
use g2mirror.Session.View.{View, MirrorModel}
use g2mirror.Session.View.Mirrored.{refresh_view-mirror}
use g2mirror.Session.Sweep.{
  same_bool, Clients, lives, notice, refreshed, sweep_loop, sweep_and_refresh,
}

module _ (mm : MirrorModel) (P : mm.Mirror → Type 0)
    (starts : (m : mm.Mirror) (v : View) → P m → P (mm.start_view m v).0)
    (ends : (m : mm.Mirror) → P m → P (mm.end_view m).0) where
  notice-mirror : (s : Clients mm) → P s.mirror → P (notice mm s).mirror
  unfolding notice
  notice-mirror s p =
      if_intro (λ (n : Clients mm). P n.mirror)
        (same_bool (any is_live_host s.viewers) s.host_attached) _ _ (λ _. p) (λ _. p)

  abbrev pub After : Option (Clients mm × Bool) → Type 0
  After none = Unit
  After (some (s, works)) = P s.mirror

  sweep_loop-mirror :
      (f : ℕ) (s : Clients mm) (host_rank : ℕ) (headless : Bool)
      → P s.mirror
      → After (sweep_loop mm f s host_rank headless)
  unfolding sweep_loop refreshed
  sweep_loop-mirror zero s host_rank headless p = tt
  sweep_loop-mirror (suc f) s host_rank headless p =
      let n = notice mm s in
      let r = refreshed mm n host_rank headless in
      let q : P r.mirror =
        refresh_view-mirror mm P starts ends (keep lives n.viewers) n.mirror host_rank headless none
          n.host (notice-mirror s p) in
      if_intro After r.works _ _
        (λ _.
          if_intro After (all lives r.viewers) _ _ (λ _. q)
            (λ _.
              sweep_loop-mirror f
                (record n { viewers = r.viewers; mirror = r.mirror; host = r.host }) host_rank
                headless q))
        (λ _. q)

  pub sweep_and_refresh-mirror :
      (s : Clients mm) (host_rank : ℕ) (headless : Bool)
      → P s.mirror
      → After (sweep_and_refresh mm s host_rank headless)
  unfolding sweep_and_refresh
  sweep_and_refresh-mirror s host_rank headless =
      sweep_loop-mirror (length s.viewers + 1) s host_rank headless

-- ===== src/Session/Sweep/Claim.antt =====
-- A claim of the host role that dies at once (`sweep_and_refresh` of src/main.rs).
use g2mirror.Prelude.{
  if_intro, ℕ, suc, ◌+◌, ◌≡◌, refl, sym, ap, ◌∙◌, subst, Bool, true, false, [], ◌∷◌, none, some,
  keep, any, all, arith, length,
}
use g2mirror.Session.Client.{Client, host_changed, deliver, is_live_host}
use g2mirror.Session.View.{MirrorModel, refresh_view}
use g2mirror.Session.View.Synced.{refresh_view-nobody}
use g2mirror.Session.Sweep.Clean.{after}
use g2mirror.Session.Sweep.{
  same_bool, Clients, announce, lives, notice, refreshed, sweep_loop, sweep_and_refresh,
}

module _ (mm : MirrorModel) where
  sweep_loop-once :
      (f : ℕ) (s : Clients mm) (host_rank : ℕ) (headless : Bool)
      → (refreshed mm (notice mm s) host_rank headless).works ≡ true
      → all lives (refreshed mm (notice mm s) host_rank headless).viewers ≡ true
      → sweep_loop mm (suc f) s host_rank headless ≡ some (after mm s host_rank headless, true)
  unfolding sweep_loop
  sweep_loop-once f s host_rank headless w a = rw (sweep_loop, w, a) refl

  notice-claim :
      (s : Clients mm) (c : Client)
      → s.viewers ≡ c ∷ []
      → s.host_attached ≡ false
      → is_live_host c ≡ true
      → ((notice mm s).viewers ≡ deliver (host_changed true) c ∷ [])
        × ((notice mm s).host_attached ≡ true)
  unfolding notice announce
  notice-claim s c one detached claims =
      let lives_now : c.dead ≡ false = ground (arith, claims) in
      let some_host : any is_live_host s.viewers ≡ true =
        ap (any is_live_host) one ∙ ground (arith, claims) in
      let message = host_changed true in
      let alone : announce message (c ∷ []) ≡ deliver message c ∷ [] =
        rw (announce, lives_now) refl in
      let now = any is_live_host s.viewers in
      if_intro (λ (n : Clients mm). (n.viewers ≡ deliver message c ∷ []) × (n.host_attached ≡ true))
        (same_bool now s.host_attached) _ _
        (λ same. absurd (ground (arith, some_host, detached, same)))
        (λ _. (
          ap (λ b. announce (host_changed b) s.viewers) some_host
              ∙ ap (announce message) one
              ∙ alone,
          some_host,
        ))

  -- A headless session whose one client claims the host role and dies when it is told of that: the
  -- sweep ends without an error, no client is left, and the session still counts as attached.
  pub sweep-claim_lost :
      (s : Clients mm) (host_rank : ℕ) (c : Client)
      → s.viewers ≡ c ∷ []
      → s.host_attached ≡ false
      → is_live_host c ≡ true
      → (deliver (host_changed true) c).dead ≡ true
      → (s' : Clients mm) × (sweep_and_refresh mm s host_rank true ≡ some (s', true))
        × (s'.viewers ≡ [])
        × (s'.host_attached ≡ true)
  unfolding sweep_and_refresh refreshed
  sweep-claim_lost s host_rank c one detached claims dies =
      let n = notice mm s in
      let r = refreshed mm n host_rank true in
      let (told, attached) = notice-claim s c one detached claims in
      let kept : keep lives n.viewers ≡ [] = ap (keep lives) told ∙ ground (arith, dies) in
      let (nobody, works) =
        subst
          (λ v.
            ((refresh_view mm v n.mirror host_rank true none n.host).viewers ≡ [])
            × ((refresh_view mm v n.mirror host_rank true none n.host).works ≡ true))
          (sym kept) (refresh_view-nobody mm n.mirror host_rank n.host) in
      let count : length s.viewers + 1 ≡ 2 = ap (λ v. length v + 1) one in
      (
        after mm s host_rank true,
        ap (λ f. sweep_loop mm f s host_rank true) count
            ∙ sweep_loop-once 1 s host_rank true works (ap (all lives) nobody),
        nobody,
        attached,
      )

-- ===== src/Session/Sweep.antt =====
-- `sweep_and_refresh` of src/main.rs.
pub mod Clean
pub mod Claim
pub mod Mirrored
mod Tests
use g2mirror.Prelude.{
  Bytes, ℕ, zero, suc, ◌+◌, Bool, true, false, not, ◌&&◌, List, [], ◌∷◌, Option, none, some, map,
  keep, any, all, length, if◌then◌else◌,
}
use g2mirror.Session.Client.{
  bell, activity, title, Client, FromSession, host_changed, send, deliver, is_live_host,
}
use g2mirror.Session.View.{MirrorModel, Host, Refreshed, refresh_view}

-- A report to the monitor drops it if the send fails.
pub report : FromSession → Option Client → Option Client
report message none = none
report message (some m) = let (m', went) = send m message in if went then some m' else none

abbrev pub send_bell : ℕ → Option Client → Option Client
send_bell at = report (bell at)

abbrev pub send_activity : ℕ → Option Client → Option Client
send_activity at = report (activity at)

abbrev pub send_title : Bytes → Option Client → Option Client
send_title text = report (title text)

-- `for c in viewers.iter_mut().filter(|c| !c.dead) { … }`
pub announce : FromSession → List Client → List Client
announce message [] = []
announce message (c ∷ cs) = (if c.dead then c else deliver message c) ∷ announce message cs

abbrev pub lives : Client → Bool
lives c = not c.dead

abbrev pub same_bool : Bool → Bool → Bool
same_bool true b = b
same_bool false b = not b

module _ (mm : MirrorModel) where
  pub record Clients : Type 0 where
    pub viewers : List Client
    pub monitor : Option Client
    pub mirror : mm.Mirror
    pub host : Host
    pub host_attached : Bool

  -- The first half of a round: a change of the host role is told to the monitor and the viewers.
  pub notice : Clients → Clients
  unfolding report announce
  notice s =
      let now = any is_live_host s.viewers in
      if same_bool now s.host_attached then s else record s {
        viewers = announce (host_changed now) s.viewers;
        monitor = report (host_changed now) s.monitor;
        host_attached = now;
      }

  -- The second half: the dead are removed and the view is chosen again.
  pub refreshed : Clients → ℕ → Bool → Refreshed mm
  refreshed s host_rank headless =
      refresh_view mm (keep lives s.viewers) s.mirror host_rank headless none s.host

  -- The loop. `none`: the fuel has run out. The Boolean is false for an error return.
  pub sweep_loop : ℕ → Clients → ℕ → Bool → Option (Clients × Bool)
  unfolding notice refreshed
  sweep_loop zero s host_rank headless = none
  sweep_loop (suc f) s host_rank headless =
      let n = notice s in
      let r = refreshed n host_rank headless in
      let s' : Clients = record n { viewers = r.viewers; mirror = r.mirror; host = r.host } in
      let again = sweep_loop f s' host_rank headless in
      if r.works then (if all lives r.viewers then some (s', true) else again) else some (s', false)

  -- Each round but the last loses a client.
  pub sweep_and_refresh : Clients → ℕ → Bool → Option (Clients × Bool)
  unfolding sweep_loop
  sweep_and_refresh s host_rank headless = sweep_loop (length s.viewers + 1) s host_rank headless

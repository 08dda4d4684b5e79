-- ===== src/Session/Sweep/Tests.antt =====
-- Sweeps of a session with one client.
use g2mirror.Prelude.{◌≡◌, refl, true, false, [], ◌∷◌, none, some}
use g2mirror.Session.Client.{Client, host_changed, viewer, host, deliver, send, send_on}
use g2mirror.Session.Sweep.{Clients, sweep_and_refresh}
use g2mirror.Session.Sweep.Clean.{IsSwept, sweep_and_refresh-IsSwept}
use g2mirror.Session.Sweep.Claim.{sweep-claim_lost}
use g2mirror.Session.Examples.{remembering, client, host_terminal}

abbrev session : Client → Clients remembering
session c = record {
  viewers = c ∷ [];
  monitor = none;
  mirror = none;
  host = host_terminal;
  host_attached = false;
}

sweep_and_refresh-IsSwept_example :
    IsSwept remembering (sweep_and_refresh remembering (session (client 1 0 viewer false)) 3 false)
sweep_and_refresh-IsSwept_example =
    sweep_and_refresh-IsSwept remembering (session (client 1 0 viewer false)) 3 false tt

dies : (deliver (host_changed true) (client 1 0 host false)).dead ≡ true
unfolding deliver send send_on
dies = refl

sweep-claim_lost_example :
    (s' : Clients remembering) × (sweep_and_refresh remembering
        (session (client 1 0 host false))
        3
        true
      ≡ some (s', true))
    × (s'.viewers ≡ [])
    × (s'.host_attached ≡ true)
sweep-claim_lost_example =
    sweep-claim_lost remembering (session (client 1 0 host false)) 3 (client 1 0 host false) refl
      refl refl dies

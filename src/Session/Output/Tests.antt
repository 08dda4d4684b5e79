-- ===== src/Session/Output/Tests.antt =====
-- Turns of the loop with two viewers, one of which is lost.
use g2mirror.Prelude.{ℕ, refl, Bool, true, false, [], ◌∷◌, List, none, some, ascii}
use g2mirror.Session.Client.{Client, snapshot, viewer}
use g2mirror.Session.View.{View}
use g2mirror.Session.Examples.{client, host_terminal}
use g2mirror.Session.Output.{Readings, Loop, Turn, outputs, resizes, toggles, run}
use g2mirror.Session.Output.Served.{IsServed, LoopServed}
use g2mirror.Session.Output.Turns.{run-IsServed}
use g2mirror.Mirror.State.{new}
use g2mirror.Mirror.Views.{start_view, rebuilt}
use g2mirror.Mirror.Valid.{start_view-IsValid}
use g2mirror.Mirror.Ticker.{ticker, ticker_sizes}

abbrev glasses : View
glasses = record { rows = 20; cols = 40; simulated = false }

abbrev watching : ℕ → Bool → Client
watching id alive = record (client id 0 viewer alive) { sent = snapshot [] 40 20 0 ∷ [] }

abbrev watched : Loop ticker
watched = record {
  clients = record {
    viewers = watching 1 false ∷ watching 2 true ∷ [];
    monitor = some (client 3 0 viewer true);
    mirror = (start_view ticker (new ticker 10 80) glasses).0;
    host = host_terminal;
    host_attached = false;
  };
  bell = record { window = 500; last_sent = none; pending_at = none };
  last_output_at = none;
  last_activity_report = none;
}

watched-IsServed : IsServed ticker ticker_sizes watched.clients
unfolding start_view rebuilt
watched-IsServed = record {
  valid = start_view-IsValid ticker ticker_sizes (new ticker 10 80) glasses;
  alive = refl;
  shown = ((λ _. ((λ _. refl), ((λ _. refl), tt))), λ _. refl);
}

abbrev readings : Readings
readings = record { bell_now = 10; bell_at = 1010; at = 1010; report_now = 10 }

abbrev turns : List (Turn ticker)
turns = toggles ∷ outputs (ascii "xyz") readings ∷ resizes 30 90 ∷ outputs (ascii "w") readings ∷ []

run-IsServed_example : LoopServed ticker ticker_sizes (run ticker watched turns 3 false)
run-IsServed_example = run-IsServed ticker ticker_sizes turns watched 3 false watched-IsServed

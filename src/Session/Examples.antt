-- ===== src/Session/Examples.antt =====
-- A mirror that only remembers its view, clients, and a host terminal, for the tests.
use g2mirror.Prelude.{ℕ, refl, Bool, true, false, [], ◌∷◌, Option, none, some}
use g2mirror.History.{new}
use g2mirror.Session.Client.{Client, Role, viewing}
use g2mirror.Input.{empty}
use g2mirror.Session.Handler.{Session}
use g2mirror.Session.View.{MirrorModel, View, Host}

abbrev pub remembering : MirrorModel
remembering = record {
  Mirror = Option View;
  view = λ m. m;
  host_size = λ m. (24, 80);
  title = λ m. none;
  history = λ m. new 100;
  start_view =
      λ m v. (some v, record { child_size = none; host_output = []; remote_output = none });
  end_view = λ m. (none, record { child_size = none; host_output = []; remote_output = none });
  view-start = λ m v. refl;
  view-end = λ m. refl;
}

abbrev pub client : ℕ → ℕ → Role → Bool → Client
client id size_rank role alive = record {
  sends = alive ∷ alive ∷ alive ∷ [];
  sent = [];
  state = viewing;
  device = [];
  width = 40;
  height = 20;
  size_rank = size_rank;
  role = role;
  id = id;
  dead = false;
}

abbrev pub host_terminal : Host
host_terminal = record { enabled = true; outcomes = []; sizes = []; written = [] }

abbrev pub session : Client → Bool → Session remembering
session c readonly = record {
  clients = record {
    viewers = c ∷ [];
    monitor = none;
    mirror = none;
    host = host_terminal;
    host_attached = false;
  };
  queue = empty;
  typed = [];
  host_rank = 3;
  headless = true;
  readonly = readonly;
}

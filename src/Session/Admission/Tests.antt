-- ===== src/Session/Admission/Tests.antt =====
-- A client that takes over the host role.
use g2mirror.Prelude.{◌≤◌, true, false, [], ◌∷◌, none, arith}
use g2mirror.Session.Client.{new, host}
use g2mirror.Session.Handler.{Init}
use g2mirror.Session.Admission.{admit}
use g2mirror.Session.Admission.Roles.{holders, admit-holders}
use g2mirror.Session.Examples.{remembering, client, session}

abbrev takes_over : Init
takes_over = record {
  version = 1;
  device = [];
  width = 80;
  height = 24;
  size_rank = none;
  host_size_rank = none;
  role = host;
  force = true;
}

admit-holders_example :
    holders
      (admit remembering
        (session (client 1 0 host true) false)
        (new (true ∷ []) 2)
        takes_over).clients.viewers
    ≤ 1
admit-holders_example =
    admit-holders remembering (session (client 1 0 host true) false) (new (true ∷ []) 2) takes_over
      (omega arith)

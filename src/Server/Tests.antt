-- ===== src/Server/Tests.antt =====
-- A small server at work: its monitor connections, a device, a launch.
use g2mirror.Prelude.{
  ◌≡◌, refl, true, ◌||◌, [], ◌∷◌, none, some, All, ascii, contains, if◌then◌else◌,
}
use g2mirror.Prelude.Maps.{contains_key}
use g2mirror.Paths.{other}
use g2mirror.Server.Config.{TokenConfig}
use g2mirror.Server.Protocol.{bell}
use g2mirror.Server.Monitor.{BellState, unknown, terminal, scan, on_line}
use g2mirror.Server.Monitor.Events.{IsUpdate, on_line-IsUpdate}
use g2mirror.Server.Monitor.Scan.{scan-live}
use g2mirror.Server.Launch.{System}
use g2mirror.Server.Device.{Device, text, event, turn, run}
use g2mirror.Server.Device.ReadOnly.{IsHarmless, run-IsHarmless}
use g2mirror.Server.Device.Confined.{IsConfinedTurn, turn-IsConfined}
use g2mirror.Server.Examples.{literal, echo, token, glasses, config}

abbrev system : System
system = record { home = some (ascii "/home/g"); canonicalize = some; output = λ c. none }

abbrev device : TokenConfig → Device
device t = record {
  json = echo;
  engine = literal;
  system = system;
  kill = λ pid. other;
  config = config;
  token = t;
  rules = record { path = none; windowtitle = some (ascii "^(?:vim)$") } ∷ [];
  init = record {
    msg_type = ascii "init";
    version = 1;
    auth_token = [];
    device = [];
    width = 40;
    height = 20;
  };
}

-- One terminal, whose title the rule matches.
abbrev terminals : BellState
terminals = record {
  terminals = (ascii "1-x", record unknown { title = some (ascii "vim") }) ∷ [];
  monitored = [];
}

on_line-IsUpdate_example :
    IsUpdate terminals (ascii "1-x") (on_line echo terminals (ascii "1-x") (ascii "bell"))
on_line-IsUpdate_example = on_line-IsUpdate echo terminals (ascii "1-x") (ascii "bell")

scan-live_example :
    (contains_key (scan (ascii "2-y" ∷ []) terminals).terminals (ascii "1-x")
      ≡ contains (ascii "2-y" ∷ []) (ascii "1-x"))
    × (terminal (scan (ascii "2-y" ∷ []) terminals) (ascii "1-x") ≡ (
        if contains (ascii "2-y" ∷ []) (ascii "1-x")
        then terminal terminals (ascii "1-x")
        else unknown))
    × (contains (scan (ascii "2-y" ∷ []) terminals).monitored (ascii "1-x")
        ≡ (contains (ascii "2-y" ∷ []) (ascii "1-x") || contains terminals.monitored (ascii "1-x")))
scan-live_example = scan-live (ascii "2-y" ∷ []) terminals (ascii "1-x")

run-IsHarmless_example : All (IsHarmless (device (token (ascii "tablet") true []))) (
    run (device (token (ascii "tablet") true [])) (some (ascii "1-x")) (
      (text (ascii "input") terminals none (λ n. true), true)
      ∷ (text (ascii "launch") terminals none (λ n. true), true)
      ∷ (text (ascii "view") terminals none (λ n. true), true)
      ∷ []))
run-IsHarmless_example =
    run-IsHarmless (device (token (ascii "tablet") true [])) (some (ascii "1-x"))
      ((text (ascii "input") terminals none (λ n. true), true)
        ∷ (text (ascii "launch") terminals none (λ n. true), true)
        ∷ (text (ascii "view") terminals none (λ n. true), true)
        ∷ [])
      refl

turn-IsConfined_example :
    IsConfinedTurn
      (device glasses)
      terminals
      none
      (turn (device glasses) none (event (bell (ascii "2-y") 7) terminals))
turn-IsConfined_example =
    turn-IsConfined (device glasses) none (event (bell (ascii "2-y") 7) terminals)
      (ascii "2-y", refl)

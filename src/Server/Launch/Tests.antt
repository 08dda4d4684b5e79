-- ===== src/Server/Launch/Tests.antt =====
-- A launch that is granted.
use g2mirror.Prelude.{◌≡◌, refl, [], none, some, ascii}
use g2mirror.Prelude.Results.{ok}
use g2mirror.Server.Config.{filter_allows}
use g2mirror.Server.Examples.{literal, glasses, shell, config}
use g2mirror.Server.Launch.{System, launch_command, command_for, requested_cwd, expand_tilde}
use g2mirror.Server.Launch.Granted.{IsGranted, launch_command-IsGranted}

abbrev system : System
system = record { home = some (ascii "/home/g"); canonicalize = some; output = λ c. none }

granted :
    launch_command literal system config glasses [] (ascii "shell") (some (ascii "~/src"))
    ≡ ok (command_for shell (ascii "shell") (ascii "/home/g/src"))
unfolding launch_command requested_cwd expand_tilde filter_allows
granted = refl

launch_command-IsGranted_example :
    IsGranted literal system config glasses []
      (ascii "shell")
      (some (ascii "~/src"))
      (command_for shell (ascii "shell") (ascii "/home/g/src"))
launch_command-IsGranted_example =
    launch_command-IsGranted literal system config glasses [] (ascii "shell") (some (ascii "~/src"))
      (command_for shell (ascii "shell") (ascii "/home/g/src")) granted

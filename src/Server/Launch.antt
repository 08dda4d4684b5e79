-- ===== src/Server/Launch.antt =====
-- `launch_session` of src/bin/g2mirror-server.rs: what a launch request starts.
pub mod Granted
mod Tests
use g2mirror.Prelude.{
  is_empty, ℕ, Bool, false, not, ◌&&◌, ◌||◌, List, [], ◌∷◌, ◌++◌, Option, none, some, unwrap_or,
  Bytes, ◌==◌, ascii, if◌then◌else◌,
}
use g2mirror.Prelude.Maps.{Map, lookup}
use g2mirror.Prelude.Results.{Result, ok, ◌>>=◌, ◌>>◌, ensure, ok_or}
use g2mirror.Paths.{is_valid_socket_name}
use g2mirror.Server.Config.{
  RegexEngine, CompiledRule, filter_allows, LaunchPreset, TokenConfig, Config, allows,
}
use g2mirror.Server.Protocol.{
  LaunchError, may_not_launch, no_such_preset, no_cwd_override, bad_directory, would_hide,
  wrapper_failed, bad_socket_name,
}

-- The invocation of `g2mirror --detached`.
pub record Command : Type 0 where
  pub launched : Bytes
  pub title : Bytes
  pub readonly : Bool
  pub scrollback : Option ℕ
  pub initial_size : Option Bytes
  pub argv : List Bytes
  pub current_dir : Bytes
  pub envs : Map Bytes

-- What the command left: its status, and its output, decoded and trimmed.
pub record Output : Type 0 where
  pub success : Bool
  pub printed : Bytes

-- The system: `$HOME`, `std::fs::canonicalize`, and a run of the command.
pub record System : Type 0 where
  pub home : Option Bytes
  pub canonicalize : Bytes → Option Bytes
  pub output : Command → Option Output

abbrev pub starts_with_slash : Bytes → Bool
starts_with_slash [] = false
starts_with_slash (c ∷ cs) = c == b'/'

pub expand_tilde : Option Bytes → Bytes → Bytes
expand_tilde home [] = []
expand_tilde none (c ∷ rest) = c ∷ rest
expand_tilde (some home) (c ∷ rest) =
    if c == b'~' && (is_empty rest || starts_with_slash rest) then home ++ rest else c ∷ rest

pub requested_cwd : LaunchPreset → Option Bytes → Result LaunchError Bytes
requested_cwd preset none = ok (unwrap_or preset.cwd (ascii "~"))
requested_cwd preset (some cwd) = do ensure preset.allow_cwd no_cwd_override; ok cwd

-- `cmd`, as it is put together.
abbrev pub command_for : LaunchPreset → Bytes → Bytes → Command
command_for preset name cwd = record {
  launched = name;
  title = unwrap_or preset.title name;
  readonly = preset.readonly;
  scrollback = preset.scrollback;
  initial_size = preset.size;
  argv = preset.argv;
  current_dir = cwd;
  envs = preset.env;
}

module _ (engine : RegexEngine) (system : System) where
  -- The checks of a request, and the command that is run if it passes them.
  pub launch_command :
      Config
      → TokenConfig
      → List (CompiledRule engine)
      → Bytes
      → Option Bytes
      → Result LaunchError Command
  unfolding requested_cwd expand_tilde
  launch_command config token rules preset_name cwd_override = do
    ensure (not token.readonly && allows token.launch preset_name) may_not_launch
    preset ← ok_or (lookup config.launch preset_name) no_such_preset
    asked ← requested_cwd preset cwd_override
    cwd ← ok_or (system.canonicalize (expand_tilde system.home asked)) bad_directory
    ensure (filter_allows engine rules (some cwd) (some (unwrap_or preset.title preset_name)))
        would_hide
    ok (command_for preset preset_name cwd)

  -- What follows the run: the socket name that it printed.
  pub launched_socket : Command → Result LaunchError Bytes
  launched_socket command = do
    out ← ok_or (system.output command) wrapper_failed
    ensure out.success wrapper_failed
    ensure (is_valid_socket_name out.printed) bad_socket_name
    ok out.printed

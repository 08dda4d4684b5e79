-- ===== src/Server/Device.antt =====
-- A device's connection once it is authenticated: the loop of `handle_device` and
-- `handle_device_message` (src/bin/g2mirror-server.rs).
pub mod ReadOnly
pub mod Confined
use g2mirror.Prelude.{
  ℕ, Bool, false, not, ◌&&◌, List, [], ◌∷◌, ◌++◌, Option, none, some, unwrap_or, Bytes, same, ascii,
  if◌then◌else◌,
}
use g2mirror.Prelude.Results.{ok, err}
use g2mirror.Paths.{KillAnswer, is_valid_socket_name}
use g2mirror.Server.Config.{RegexEngine, CompiledRule, TokenConfig, Config, size_ranks}
use g2mirror.Server.Protocol.{
  Trouble, Json, protocol_version, DeviceInit, ServerToDevice, sessions, launched, disconnected,
  error, event_socket, session_closed, no_longer_matches, requested, invalid_json, no_type,
  requires_socket, invalid_socket, filtered, connect_failed, server_readonly, not_connected,
  launch_failed,
}
use g2mirror.Server.Monitor.{BellState, session_allowed, list_sessions}
use g2mirror.Server.Launch.{Command, System, launch_command, launched_socket}

-- The init line that `SessionConn::open` sends to a session.
pub record SessionInit : Type 0 where
  pub version : ℕ
  pub device : Bytes
  pub width : ℕ
  pub height : ℕ
  pub size_rank : ℕ
  pub host_size_rank : ℕ

-- What the connection does: messages and relayed lines to the device, lines to a session, an
-- attempt to open one, a launch, a ping.
pub data Action : Type 0 where
  sends : ServerToDevice → Action
  relays : Bytes → Action
  forwards : Bytes → Bytes → Action
  opens : Bytes → SessionInit → Action
  runs : Command → Action
  pings : Action

-- What the loop waits for, with what the rest of the system then answers. `text`: a message, the
-- terminals, the directory, and whether a session socket can be opened.
pub data Incoming : Type 0 where
  text : Bytes → BellState → Option (List (Option Bytes)) → (Bytes → Bool) → Incoming
  session_line : Bytes → Incoming
  session_ends : Incoming
  event : ServerToDevice → BellState → Incoming
  tick : Incoming

-- The session that is connected, and what was done.
abbrev pub Turn : Type 0
Turn = Option Bytes × List Action

pub record Device : Type 1 where
  pub json : Json
  pub engine : RegexEngine
  pub system : System
  pub kill : ℕ → KillAnswer
  pub config : Config
  pub token : TokenConfig
  pub rules : List (CompiledRule engine)
  pub init : DeviceInit

abbrev refuse : Option Bytes → Trouble → Turn
refuse session trouble = (session, sends (error trouble) ∷ [])

module _ (d : Device) where
  pub connect_to : Option Bytes → BellState → (Bytes → Bool) → Option Bytes → Turn
  connect_to session state reachable none = refuse session requires_socket
  connect_to session state reachable (some name) =
      let (size_rank, host_size_rank) = size_ranks d.config d.token.name in
      let line : SessionInit = (record {
        version = protocol_version;
        device = d.init.device;
        width = d.init.width;
        height = d.init.height;
        size_rank = size_rank;
        host_size_rank = host_size_rank;
      }) in
      if not (is_valid_socket_name name)
      then refuse session invalid_socket
      else if not (session_allowed d.engine d.rules state name)
      then refuse session filtered
      else if reachable name
      then (some name, opens name line ∷ [])
      else (session, opens name line ∷ sends (error connect_failed) ∷ [])

  -- `launch_session` and the answer to it.
  pub launch : Option Bytes → Bytes → Option Bytes → Turn
  launch session preset cwd =
      elim (launch_command d.engine d.system d.config d.token d.rules preset cwd) [
        | err e ↦ refuse session (launch_failed e)
        | ok command ↦ (
          session,
          runs command ∷ elim (launched_socket d.engine d.system command) [
            | err e ↦ sends (error (launch_failed e)) ∷ []
            | ok socket ↦ sends (launched socket) ∷ []
          ],
        )
      ]

  pub forward : Option Bytes → Bytes → Turn
  forward none line = refuse none not_connected
  forward (some name) line = (some name, forwards name line ∷ [])

  pub handle_kind :
      Option Bytes
      → BellState
      → Option (List (Option Bytes))
      → (Bytes → Bool)
      → Bytes
      → d.json.Value
      → Bytes
      → Turn
  unfolding connect_to launch forward
  handle_kind session state dir reachable line msg kind =
      if same kind (ascii "list")
      then (session, sends (sessions (list_sessions d.kill d.engine dir state d.rules)) ∷ [])
      else if same kind (ascii "connect")
      then connect_to session state reachable (d.json.str_at msg (ascii "socket"))
      else if same kind (ascii "launch")
      then launch session (unwrap_or (d.json.str_at msg (ascii "command")) (ascii "shell"))
          (d.json.str_at msg (ascii "cwd"))
      else if same kind (ascii "disconnect")
      then (none, sends (disconnected requested) ∷ [])
      else if same kind (ascii "input") && d.token.readonly
      then refuse session server_readonly
      else forward session line

  pub handle_device_message :
      Option Bytes → BellState → Option (List (Option Bytes)) → (Bytes → Bool) → Bytes → Turn
  unfolding handle_kind
  handle_device_message session state dir reachable line = elim (d.json.from_str line) [
    | none ↦ refuse session invalid_json
    | some msg ↦ elim (d.json.str_at msg (ascii "type")) [
      | none ↦ refuse session no_type
      | some kind ↦ handle_kind session state dir reachable line msg kind
    ]
  ]

  abbrev pub is_session : Option Bytes → Bytes → Bool
  is_session none socket = false
  is_session (some name) socket = same name socket

  -- The arm of a broadcast event.
  pub on_event : Option Bytes → BellState → ServerToDevice → Turn
  on_event session state e = elim (event_socket e) [
    | none ↦ (session, sends e ∷ [])
    | some socket ↦
        if not (session_allowed d.engine d.rules state socket)
        then (if is_session session socket
            then (none, sends (disconnected no_longer_matches) ∷ [])
            else (session, []))
        else (session, sends e ∷ [])
  ]

  -- One turn of the `select!`. The arm of the session's lines waits for a session.
  pub turn : Option Bytes → Incoming → Turn
  unfolding handle_device_message on_event
  turn session (text line state dir reachable) =
      handle_device_message session state dir reachable line
  turn none (session_line line) = (none, [])
  turn (some name) (session_line line) = (some name, relays line ∷ [])
  turn none session_ends = (none, [])
  turn (some name) session_ends = (none, sends (disconnected session_closed) ∷ [])
  turn session (event e state) = on_event session state e
  turn session tick = (session, pings ∷ [])

  -- The loop. `false` beside an input is a write of its turn that failed, which ends it.
  pub run : Option Bytes → List (Incoming × Bool) → List Action
  unfolding turn
  run session [] = []
  run session ((i, wrote) ∷ is) =
      let (session', actions) = turn session i in
      let more = run session' is in if wrote then actions ++ more else actions

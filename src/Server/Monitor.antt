-- ===== src/Server/Monitor.antt =====
-- What the server learns of the terminals through its monitor connections
-- (src/bin/g2mirror-server.rs).
pub mod Allowed
pub mod Listing
pub mod Scan
pub mod Events
use g2mirror.Prelude.{
  is_empty, ℕ, max, Bool, true, false, not, ◌&&◌, List, [], ◌∷◌, Option, none, some, unwrap_or,
  Bytes, map, keep, if◌then◌else◌, same, contains, ascii, ◌==◌,
}
use g2mirror.Prelude.Maps.{Map, entry, retain, get_or}
use g2mirror.Paths.{KillAnswer, is_valid_socket_name, socket_pid, pid_exists}
use g2mirror.Server.Config.{RegexEngine, CompiledRule, filter_allows}
use g2mirror.Server.Protocol.{Json, SessionInfo, ServerToDevice, detached, bell, activity, title}

pub record TerminalState : Type 0 where
  pub last_bell_at : Option ℕ
  pub last_output_at : Option ℕ
  pub title : Option Bytes
  pub cwd : Option Bytes
  pub detached : Bool
  pub launched : Option Bytes

-- `TerminalState::default()`
abbrev pub unknown : TerminalState
unknown = record {
  last_bell_at = none;
  last_output_at = none;
  title = none;
  cwd = none;
  detached = false;
  launched = none;
}

-- The shared state, without the channel: its events are what the operations return.
pub record BellState : Type 0 where
  pub terminals : Map TerminalState
  pub monitored : List Bytes

pub new : BellState
new = record { terminals = []; monitored = [] }

pub terminal : BellState → Bytes → TerminalState
terminal state socket = get_or state.terminals socket unknown

-- `terminals.entry(name).or_default()`, changed by `f`.
abbrev pub change : BellState → Bytes → (TerminalState → TerminalState) → BellState
change state name f = record state { terminals = entry state.terminals name unknown f }

abbrev pub insert : Bytes → List Bytes → List Bytes
insert name names = if contains names name then names else name ∷ names

abbrev pub spawn : List Bytes → List Bytes → List Bytes
spawn [] monitored = monitored
spawn (name ∷ names) monitored = spawn names (insert name monitored)

-- `terminals.entry(name).or_default()` for each name.
abbrev pub remember : List Bytes → Map TerminalState → Map TerminalState
remember [] terminals = terminals
remember (name ∷ names) terminals = remember names (entry terminals name unknown (λ t. t))

-- One round of `monitor_manager`, on the live sockets.
pub scan : List Bytes → BellState → BellState
scan live state = record {
  terminals = remember live (retain (contains live) state.terminals);
  monitored = spawn live state.monitored;
}

-- The end of `monitor_session`.
pub release : Bytes → BellState → BellState
release name state = record state { monitored = keep (λ n. not (same name n)) state.monitored }

module _ (json : Json) where
  -- The change that a `connect` greeting makes.
  pub greeted : json.Value → TerminalState → TerminalState
  greeted msg t = record {
    last_bell_at = t.last_bell_at;
    last_output_at = elim (json.u64_at msg (ascii "last_output_at")) [
      | none ↦ t.last_output_at
      | some at ↦ some (max (unwrap_or t.last_output_at 0) at)
    ];
    title = elim (json.str_at msg (ascii "title")) [ none ↦ t.title | some s ↦ some s ];
    cwd = elim (json.str_at msg (ascii "cwd")) [ none ↦ t.cwd | some s ↦ some s ];
    detached = unwrap_or (json.bool_at msg (ascii "detached")) false;
    launched = json.str_at msg (ascii "launched");
  }

  -- The `match` of `run_monitor`: the state and the event that is fanned out.
  pub on_message : BellState → Bytes → json.Value → Bytes → BellState × Option ServerToDevice
  unfolding greeted
  on_message state name msg kind =
      if same kind (ascii "connect")
      then (change state name (greeted msg), none)
      else if same kind (ascii "host_changed")
      then elim (json.bool_at msg (ascii "attached")) [
        | none ↦ (state, none)
        | some attached ↦ (
          change state name (λ t. record t { detached = not attached }),
          some (detached name (not attached)),
        )
      ]
      else if same kind (ascii "bell")
      then elim (json.u64_at msg (ascii "at")) [
        | none ↦ (state, none)
        | some at ↦
            (change state name (λ t. record t { last_bell_at = some at }), some (bell name at))
      ]
      else if same kind (ascii "activity")
      then elim (json.u64_at msg (ascii "at")) [
        | none ↦ (state, none)
        | some at ↦ (
          change state name (λ t. record t { last_output_at = some at }),
          some (activity name at),
        )
      ]
      else if same kind (ascii "title")
      then elim (json.str_at msg (ascii "title")) [
        | none ↦ (state, none)
        | some s ↦ (change state name (λ t. record t { title = some s }), some (title name s))
      ]
      else (state, none)

  -- The body of `run_monitor`'s loop, on one line of the session `name`.
  pub on_line : BellState → Bytes → Bytes → BellState × Option ServerToDevice
  unfolding on_message
  on_line state name line = elim (json.from_str line) [
    | none ↦ (state, none)
    | some msg ↦ elim (json.str_at msg (ascii "type")) [
      | none ↦ (state, none)
      | some kind ↦ on_message state name msg kind
    ]
  ]

module _ (engine : RegexEngine) where
  pub session_allowed : List (CompiledRule engine) → BellState → Bytes → Bool
  session_allowed rules state socket =
      if is_empty rules
      then true
      else filter_allows engine rules (terminal state socket).cwd (terminal state socket).title

-- `name.split_once('-').map(|(_, p)| p).unwrap_or("")`
cwd_hint : Bytes → Bytes
cwd_hint [] = []
cwd_hint (c ∷ cs) = if c == b'-' then cs else cwd_hint cs

module _ (kill : ℕ → KillAnswer) where
  -- `none` is a directory that cannot be read, or an entry with no name in UTF-8.
  pub is_live : Bytes → Bool
  is_live name =
      is_valid_socket_name name
      && elim (socket_pid name) [ none ↦ false | some pid ↦ pid_exists kill pid ]

  names_of : List (Option Bytes) → List Bytes
  names_of [] = []
  names_of (none ∷ entries) = names_of entries
  names_of (some name ∷ entries) = name ∷ names_of entries

  pub live_session_sockets : Option (List (Option Bytes)) → List Bytes
  unfolding names_of
  live_session_sockets none = []
  live_session_sockets (some entries) = keep is_live (names_of entries)

  module _ (engine : RegexEngine) where
    pub session_info : BellState → Bytes → SessionInfo
    unfolding terminal cwd_hint
    session_info state name =
        let t = terminal state name in
        record {
          socket = name;
          pid = unwrap_or (socket_pid name) 0;
          cwd_hint = cwd_hint name;
          last_bell_at = t.last_bell_at;
          last_output_at = t.last_output_at;
          title = t.title;
          detached = t.detached;
          launched = t.launched;
        }

    pub list_sessions :
        Option (List (Option Bytes)) → BellState → List (CompiledRule engine) → List SessionInfo
    unfolding session_info
    list_sessions entries state rules =
        map (session_info state)
          (keep (session_allowed engine rules state) (live_session_sockets entries))

-- ===== src/Server/Protocol.antt =====
-- The messages of the server protocol (src/protocol.rs), and JSON as the server reads it. The
-- texts of the error messages are the constructors of `Trouble` and `Reason`.
use g2mirror.Prelude.{ℕ, Bool, List, Option, none, some, Bytes}

-- serde_json: `from_str`, and `get(key)` followed by `as_str`, `as_u64` or `as_bool`.
pub record Json : Type 1 where
  pub Value : Type 0
  pub from_str : Bytes → Option Value
  pub str_at : Value → Bytes → Option Bytes
  pub u64_at : Value → Bytes → Option ℕ
  pub bool_at : Value → Bytes → Option Bool

abbrev pub protocol_version : ℕ
protocol_version = 1

pub record DeviceInit : Type 0 where
  pub msg_type : Bytes
  pub version : ℕ
  pub auth_token : Bytes
  pub device : Bytes
  pub width : ℕ
  pub height : ℕ

pub record SessionInfo : Type 0 where
  pub socket : Bytes
  pub pid : ℕ
  pub cwd_hint : Bytes
  pub last_bell_at : Option ℕ
  pub last_output_at : Option ℕ
  pub title : Option Bytes
  pub detached : Bool
  pub launched : Option Bytes

pub data Reason : Type 0 where
  session_closed no_longer_matches requested : Reason

pub data LaunchError : Type 0 where
  may_not_launch no_such_preset no_cwd_override bad_directory would_hide : LaunchError
  wrapper_failed bad_socket_name : LaunchError

pub data Trouble : Type 0 where
  first_must_be_init unsupported_version authentication_failed : Trouble
  invalid_json no_type requires_socket invalid_socket filtered connect_failed : Trouble
  server_readonly not_connected : Trouble
  launch_failed : LaunchError → Trouble

pub data ServerToDevice : Type 0 where
  init : ℕ → Bool → Bytes → ServerToDevice
  sessions : List SessionInfo → ServerToDevice
  launched : Bytes → ServerToDevice
  detached : Bytes → Bool → ServerToDevice
  disconnected : Reason → ServerToDevice
  bell : Bytes → ℕ → ServerToDevice
  activity : Bytes → ℕ → ServerToDevice
  title : Bytes → Bytes → ServerToDevice
  error : Trouble → ServerToDevice

-- The socket that an event is about.
abbrev pub event_socket : ServerToDevice → Option Bytes
event_socket (bell socket at) = some socket
event_socket (activity socket at) = some socket
event_socket (title socket t) = some socket
event_socket (detached socket d) = some socket
event_socket (init version readonly server_name) = none
event_socket (sessions infos) = none
event_socket (launched socket) = none
event_socket (disconnected reason) = none
event_socket (error trouble) = none

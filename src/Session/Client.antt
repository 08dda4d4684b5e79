-- ===== src/Session/Client.antt =====
-- A client of the session socket (`Client` of src/control.rs) and the messages to it
-- (src/protocol.rs). Terminal bytes stand for their base64 text.
pub mod Deliver
use g2mirror.Prelude.{ℕ, Bool, true, false, not, ◌&&◌, List, [], ◌∷◌, Option, Bytes, if◌then◌else◌}

pub data ClientState : Type 0 where
  awaiting_init ready viewing : ClientState

pub data Role : Type 0 where
  viewer host : Role

-- The texts of the error messages.
pub data SessionError : Type 0 where
  unsupported_version invalid_dimensions has_real_host already_attached taken_over : SessionError
  first_must_be_init duplicate_init already_viewer invalid_resize : SessionError
  session_readonly invalid_encoding too_many_delays bad_offsets host_failed stalled : SessionError

pub record HistoryLine : Type 0 where
  pub data_bytes : Bytes
  pub width : ℕ
  pub wrapped : Bool

-- The fields of `Connect`.
pub record Greeting : Type 0 where
  pub version : ℕ
  pub pid : ℕ
  pub command : Bytes
  pub cwd : Bytes
  pub host_width : ℕ
  pub host_height : ℕ
  pub readonly : Bool
  pub history_next : ℕ
  pub history_oldest : ℕ
  pub title : Option Bytes
  pub headless : Bool
  pub detached : Bool
  pub launched : Option Bytes
  pub last_output_at : Option ℕ

pub data FromSession : Type 0 where
  connect : Greeting → FromSession
  snapshot : Bytes → ℕ → ℕ → ℕ → FromSession
  output : Bytes → FromSession
  bell : ℕ → FromSession
  activity : ℕ → FromSession
  title : Bytes → FromSession
  exit : Option ℕ → FromSession
  host_changed : Bool → FromSession
  history_lines : ℕ → ℕ → ℕ → List HistoryLine → FromSession
  error : SessionError → FromSession

-- The stream is what it will make of the messages still to come (whether each send succeeds; none
-- does after the last), and the messages that went through, the newest first.
pub record Client : Type 0 where
  pub sends : List Bool
  pub sent : List FromSession
  pub state : ClientState
  pub device : Bytes
  pub width : ℕ
  pub height : ℕ
  pub size_rank : ℕ
  pub role : Role
  pub id : ℕ
  pub dead : Bool

pub new : List Bool → ℕ → Client
new sends id = record {
  sends = sends;
  sent = [];
  state = awaiting_init;
  device = [];
  width = 0;
  height = 0;
  size_rank = 0;
  role = viewer;
  id = id;
  dead = false;
}

-- The client after a send, and whether that succeeded.
unfoldable pub send_on : List Bool → Client → FromSession → Client × Bool
send_on [] c message = (c, false)
send_on (went ∷ later) c message =
    if went
    then (record c { sends = later; sent = message ∷ c.sent }, true)
    else (record c { sends = later }, false)

unfoldable pub send : Client → FromSession → Client × Bool
unfolding send_on
send c message = send_on c.sends c message

-- `if c.send(&message).await.is_err() { c.dead = true; }`
unfoldable pub deliver : FromSession → Client → Client
unfolding send
deliver message c =
    let (c', went) = send c message in if went then c' else record c' { dead = true }

abbrev pub is_viewing : Client → Bool
is_viewing c = elim c.state [ awaiting_init ↦ false | ready ↦ false | viewing ↦ true ]

abbrev pub is_host_role : Role → Bool
is_host_role viewer = false
is_host_role host = true

abbrev pub is_host : Client → Bool
is_host c = is_host_role c.role

-- `!c.dead && c.state == ClientState::Viewing`
abbrev pub is_live_viewing : Client → Bool
is_live_viewing c = not c.dead && is_viewing c

abbrev pub is_live_host : Client → Bool
is_live_host c = not c.dead && is_host c

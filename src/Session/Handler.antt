-- ===== src/Session/Handler.antt =====
-- `handle_viewer_message` of src/main.rs: what a viewer's message does to the session.
pub mod ReadOnly
pub mod Sizes
mod Tests
use g2mirror.Prelude.{
  ℕ, zero, suc, ◌+◌, min, Bool, true, false, not, ◌&&◌, List, [], ◌∷◌, ◌++◌, Option, none, some,
  unwrap_or, map, Bytes, ltb, if◌then◌else◌, get_elem?,
}
use g2mirror.History.{HistoryRecord, default_fetch_limit, next_index, oldest, fetch}
use g2mirror.Input.{
  InputDelay, InputQueue, InputError, Pumped, Received, refused, took, panics, receive,
}
use g2mirror.Input as In
use g2mirror.Session.Client.{
  Client, Role, viewing, ready, FromSession, HistoryLine, history_lines, error, SessionError,
  duplicate_init, already_viewer, invalid_resize, session_readonly, invalid_encoding,
  too_many_delays, bad_offsets, host_failed, stalled, send, is_viewing,
}
use g2mirror.Session.View.{MirrorModel, Refreshed, refresh_view}
use g2mirror.Session.Sweep.{Clients}

-- The fields of an init message.
pub record Init : Type 0 where
  pub version : ℕ
  pub device : Bytes
  pub width : ℕ
  pub height : ℕ
  pub size_rank : Option ℕ
  pub host_size_rank : Option ℕ
  pub role : Role
  pub force : Bool

pub data ToSession : Type 0 where
  init : Init → ToSession
  monitor : ℕ → ToSession
  view : ToSession
  unview : ToSession
  input : Bytes → List InputDelay → ToSession
  history : ℕ → Option ℕ → ToSession
  resize : ℕ → ℕ → ToSession

-- How the handler ends. `panics` is an index out of range.
pub data Outcome : Type 0 where
  done : Outcome
  fails : SessionError → Outcome
  crashes : Outcome

-- `viewers[i]`, changed.
abbrev pub at : ℕ → (Client → Client) → List Client → List Client
at i f [] = []
at zero f (c ∷ cs) = f c ∷ cs
at (suc i) f (c ∷ cs) = c ∷ at i f cs

-- `viewers[i].send(&message).await?`
pub send_at : ℕ → FromSession → List Client → List Client × Outcome
send_at i message [] = ([], crashes)
send_at zero message (c ∷ cs) =
    let (c', went) = send c message in (c' ∷ cs, if went then done else fails stalled)
send_at (suc i) message (c ∷ cs) = let (cs', o) = send_at i message cs in (c ∷ cs', o)

abbrev pub viewing_at : ℕ → List Client → Bool
viewing_at i cs = elim (get_elem? cs i) [ none ↦ false | some c ↦ is_viewing c ]

abbrev error_of : InputError → SessionError
error_of InputError.too_many_delays = too_many_delays
error_of InputError.bad_offsets = bad_offsets

abbrev line_of : HistoryRecord → HistoryLine
line_of r = record { data_bytes = r.bytes; width = r.width; wrapped = r.wrapped }

-- The session's loop state that the handler changes: its clients, the input queue, and the bytes
-- written to the pty.
module _ (mm : MirrorModel) where
  pub record Session : Type 0 where
    pub clients : Clients mm
    pub queue : InputQueue
    pub typed : Bytes
    pub host_rank : ℕ
    pub headless : Bool
    pub readonly : Bool

  abbrev pub with_viewers : Session → List Client → Session
  with_viewers s viewers = record s { clients = record s.clients { viewers = viewers } }

  -- `refresh_view(…)`, whose error is the handler's.
  pub refresh : Session → Option ℕ → Session × Outcome
  refresh s force_for =
      let r =
        refresh_view mm s.clients.viewers s.clients.mirror s.host_rank s.headless force_for
          s.clients.host in
      (
        record s {
          clients = record s.clients { viewers = r.viewers; mirror = r.mirror; host = r.host };
        },
        if r.works then done else fails host_failed,
      )

  pub received : Session → Received → Session × Outcome
  received s (refused e) = (s, fails (error_of e))
  received s (took p) = (
    record s { queue = p.left; typed = s.typed ++ p.written },
    if p.failed then fails host_failed else done,
  )
  received s panics = (s, crashes)

  pub send_history : Session → ℕ → Option (ℕ × List HistoryRecord) → Session × Outcome
  unfolding send_at
  send_history s i none = (s, crashes)
  send_history s i (some (start, records)) =
      let h = mm.history s.clients.mirror in
      let message = history_lines start (oldest h) (next_index h) (map line_of records) in
      let (viewers, o) = send_at i message s.clients.viewers in (with_viewers s viewers, o)

  module _ (decode : Bytes → Option Bytes) (clock : ℕ → ℕ) (pty : ℕ → Bool) where
    pub on_input : Session → ℕ → Bytes → List InputDelay → Session × Outcome
    unfolding send_at received
    on_input s i text delays =
        let (viewers, o) = send_at i (error session_readonly) s.clients.viewers in
        if s.readonly then (with_viewers s viewers, o) else elim (decode text) [
          | none ↦ (s, fails invalid_encoding)
          | some bytes ↦ received s (receive clock pty s.queue bytes delays)
        ]

    pub handle_viewer_message : Session → ℕ → ToSession → Session × Outcome
    unfolding refresh on_input send_history
    handle_viewer_message s i (init fields) = (s, fails duplicate_init)
    handle_viewer_message s i (monitor version) = (s, fails already_viewer)
    handle_viewer_message s i (resize width height) =
        let sized = at i (λ c. record c { width = width; height = height }) s.clients.viewers in
        if ltb 0 width && ltb 0 height
        then refresh (with_viewers s sized) none
        else (s, fails invalid_resize)
    handle_viewer_message s i (input text delays) = on_input s i text delays
    handle_viewer_message s i view =
        refresh (with_viewers s (at i (λ c. record c { state = viewing }) s.clients.viewers))
          (some i)
    handle_viewer_message s i (history before limit) = send_history s i (
        fetch (mm.history s.clients.mirror) before
          (min (unwrap_or limit default_fetch_limit) default_fetch_limit))
    handle_viewer_message s i unview =
        if viewing_at i s.clients.viewers
        then refresh (with_viewers s (at i (λ c. record c { state = ready }) s.clients.viewers))
            none
        else (s, done)

-- ===== src/Server/Device/Confined.antt =====
-- A token's filter on every path to a device (`handle_device` and `handle_device_message` of
-- src/bin/g2mirror-server.rs).
use g2mirror.Prelude.{
  same_refl, ◌≡◌, refl, Bool, true, not, ◌&&◌, List, Option, none, some, Bytes, arith, Option-cases,
  inl, inr, All, same, ascii, if_intro, ◌⊎◌, sym,
}
use g2mirror.Paths.{is_valid_socket_name}
use g2mirror.Prelude.Results.{Result-cases}
use g2mirror.Server.Protocol.{
  ServerToDevice, sessions, init, launched, disconnected, error, bell, activity, title, detached,
  event_socket,
}
use g2mirror.Server.Monitor.{BellState, new, session_allowed}
use g2mirror.Server.Monitor.Allowed.{Allows, session_allowed-Allows}
use g2mirror.Server.Monitor.Listing.{list_sessions-allowed}
use g2mirror.Server.Launch.{launch_command, launched_socket}
use g2mirror.Server.Device.{
  Device, Action, sends, relays, forwards, opens, runs, pings, Incoming, text, session_line,
  session_ends, event, tick, Turn, connect_to, launch, forward, handle_kind, handle_device_message,
  on_event, turn, is_session,
}

-- The device's filter has no rules, or one of them fits the directory and the title that are known
-- of the session.
abbrev pub Allowed : Device → BellState → Bytes → Type 0
Allowed d state socket = Allows d.engine d.rules state socket

seen-Allowed :
    (d : Device) (state : BellState) (socket : Bytes)
    → session_allowed d.engine d.rules state socket ≡ true
    → Allowed d state socket
seen-Allowed d state socket = session_allowed-Allows d.engine d.rules state socket

-- What a message tells of is allowed.
abbrev pub IsConfinedMessage : Device → BellState → ServerToDevice → Type 0
IsConfinedMessage d state (bell socket at) = Allowed d state socket
IsConfinedMessage d state (activity socket at) = Allowed d state socket
IsConfinedMessage d state (title socket t) = Allowed d state socket
IsConfinedMessage d state (detached socket b) = Allowed d state socket
IsConfinedMessage d state (sessions infos) = All (λ i. Allowed d state i.socket) infos
IsConfinedMessage d state (init version readonly server_name) = Unit
IsConfinedMessage d state (launched socket) = Unit
IsConfinedMessage d state (disconnected reason) = Unit
IsConfinedMessage d state (error trouble) = Unit

abbrev pub IsConfined : Device → BellState → Action → Type 0
IsConfined d state (sends message) = IsConfinedMessage d state message
IsConfined d state (opens name line) = (is_valid_socket_name name ≡ true) × Allowed d state name
IsConfined d state (relays line) = Unit
IsConfined d state (forwards name line) = Unit
IsConfined d state (runs command) = Unit
IsConfined d state pings = Unit

-- The terminals as an input finds them, if it needs them.
abbrev pub terminals_at : Incoming → BellState
terminals_at (text line state dir reachable) = state
terminals_at (event e state) = state
terminals_at (session_line line) = new
terminals_at session_ends = new
terminals_at tick = new

module _ (d : Device) where
  -- The actions of a turn are confined, and so is a session that it opens.
  abbrev pub IsConfinedTurn : BellState → Option Bytes → Turn → Type 0
  IsConfinedTurn state before t =
      All (IsConfined d state) t.1
      × ((name : Bytes)
          → t.0 ≡ some name
          → (before ≡ some name) ⊎ ((is_valid_socket_name name ≡ true) × Allowed d state name))

  connect_to-IsConfined :
      (session : Option Bytes) (state : BellState) (reachable : Bytes → Bool) (name : Option Bytes)
      → IsConfinedTurn state session (connect_to d session state reachable name)
  unfolding connect_to
  connect_to-IsConfined session state reachable none = ((tt, tt), λ n e. inl e)
  connect_to-IsConfined session state reachable (some name) =
      let P = IsConfinedTurn state session in
      if_intro P (not (is_valid_socket_name name)) _ _ (λ _. ((tt, tt), λ n e. inl e))
        λ v.
          if_intro P (not (session_allowed d.engine d.rules state name)) _ _
            (λ _. ((tt, tt), λ n e. inl e))
            λ a.
              let valid : is_valid_socket_name name ≡ true = ground (arith, v) in
              let seen = seen-Allowed d state name (ground (arith, a)) in
              if_intro P (reachable name) _ _
                (λ _. (
                  ((valid, seen), tt),
                  λ n e. inr (let f : name ≡ n = cc in rw (sym f) (valid, seen)),
                ))
                (λ _. (((valid, seen), (tt, tt)), λ n e. inl e))

  launch-IsConfined :
      (session : Option Bytes) (state : BellState) (preset : Bytes) (cwd : Option Bytes)
      → IsConfinedTurn state session (launch d session preset cwd)
  unfolding launch
  launch-IsConfined session state preset cwd =
      elim (Result-cases (launch_command d.engine d.system d.config d.token d.rules preset cwd)) [
        | inr (e, h) ↦ rw (All, launch, h) ((tt, tt), λ n e. inl e)
        | inl (command, h) ↦ elim (Result-cases (launched_socket d.engine d.system command)) [
          | inr (e, k) ↦ rw (All, launch, h, k) ((tt, (tt, tt)), λ n e. inl e)
          | inl (socket, k) ↦ rw (All, launch, h, k) ((tt, (tt, tt)), λ n e. inl e)
        ]
      ]

  forward-IsConfined :
      (session : Option Bytes) (state : BellState) (line : Bytes)
      → IsConfinedTurn state session (forward d session line)
  unfolding forward
  forward-IsConfined none state line = ((tt, tt), λ n e. inl e)
  forward-IsConfined (some name) state line = ((tt, tt), λ n e. inl e)

  handle_kind-IsConfined :
      (session : Option Bytes) (state : BellState) (dir : Option (List (Option Bytes)))
      (reachable : Bytes → Bool) (line : Bytes) (msg : d.json.Value) (kind : Bytes)
      → IsConfinedTurn state session (handle_kind d session state dir reachable line msg kind)
  unfolding handle_kind
  handle_kind-IsConfined session state dir reachable line msg kind =
      let P = IsConfinedTurn state session in
      if_intro P (same kind (ascii "list")) _ _
        (λ _. ((list_sessions-allowed d.kill d.engine dir state d.rules, tt), λ n e. inl e))
        λ _.
          if_intro P (same kind (ascii "connect")) _ _
            (λ _. connect_to-IsConfined session state reachable _)
            λ _.
              if_intro P (same kind (ascii "launch")) _ _ (λ _. launch-IsConfined session state _ _)
                λ _.
                  if_intro P (same kind (ascii "disconnect")) _ _
                    (λ _. ((tt, tt), λ n e. absurd cc))
                    λ _.
                      if_intro P (same kind (ascii "input") && d.token.readonly) _ _
                        (λ _. ((tt, tt), λ n e. inl e)) (λ _. forward-IsConfined session state line)

  event-IsConfined :
      (state : BellState) (e : ServerToDevice) {socket : Bytes}
      → event_socket e ≡ some socket
      → Allowed d state socket
      → IsConfinedMessage d state e
  event-IsConfined state (bell s at) h a = let f : s ≡ _ = cc in rw f a
  event-IsConfined state (activity s at) h a = let f : s ≡ _ = cc in rw f a
  event-IsConfined state (title s t) h a = let f : s ≡ _ = cc in rw f a
  event-IsConfined state (detached s b) h a = let f : s ≡ _ = cc in rw f a
  event-IsConfined state (init version readonly server_name) h a = absurd cc
  event-IsConfined state (sessions infos) h a = absurd cc
  event-IsConfined state (launched s) h a = absurd cc
  event-IsConfined state (disconnected reason) h a = absurd cc
  event-IsConfined state (error trouble) h a = absurd cc

  on_event-IsConfined :
      (session : Option Bytes) (state : BellState) (e : ServerToDevice) (socket : Bytes)
      → event_socket e ≡ some socket
      → IsConfinedTurn state session (on_event d session state e)
  unfolding on_event
  on_event-IsConfined session state e socket h =
      let P = IsConfinedTurn state session in
      rw (on_event, h)
        (if_intro P (not (session_allowed d.engine d.rules state socket)) _ _
          (λ _.
            if_intro P (is_session d session socket) _ _ (λ _. ((tt, tt), λ n e. absurd cc))
              (λ _. (tt, λ n e. inl e)))
          (λ a. (
            (event-IsConfined state e h (seen-Allowed d state socket (ground (arith, a))), tt),
            λ n e. inl e,
          )))

  -- What the broadcast channel carries is about a socket.
  abbrev pub IsBroadcast : Incoming → Type 0
  IsBroadcast (event e state) = (socket : Bytes) × (event_socket e ≡ some socket)
  IsBroadcast (text line state dir reachable) = Unit
  IsBroadcast (session_line line) = Unit
  IsBroadcast session_ends = Unit
  IsBroadcast tick = Unit

  -- In every turn, where a broadcast event is about a socket: the device hears only of terminals
  -- that its token's filter allows at that time, in events and in the list; only such sessions,
  -- under valid names, are opened; and no other session becomes the connected one. A filter allows
  -- all if it has no rules, and otherwise the terminals of which a directory and a title are known
  -- that the patterns of one of its rules match, as far as the rule has them.
  pub turn-IsConfined :
      (session : Option Bytes) (i : Incoming)
      → IsBroadcast i
      → IsConfinedTurn (terminals_at i) session (turn d session i)
  unfolding turn handle_device_message
  turn-IsConfined session (text line state dir reachable) b =
      elim (Option-cases (d.json.from_str line)) [
        | inl e ↦ rw (All, turn, handle_device_message, e) ((tt, tt), λ n e. inl e)
        | inr (msg, e) ↦ elim (Option-cases (d.json.str_at msg (ascii "type"))) [
          | inl f ↦ rw (All, turn, handle_device_message, e, f) ((tt, tt), λ n e. inl e)
          | inr (kind, f) ↦
              rw (turn, handle_device_message, e, f)
                (handle_kind-IsConfined session state dir reachable line msg kind)
        ]
      ]
  turn-IsConfined none (session_line line) b = (tt, λ n e. inl e)
  turn-IsConfined (some name) (session_line line) b = ((tt, tt), λ n e. inl e)
  turn-IsConfined none session_ends b = (tt, λ n e. inl e)
  turn-IsConfined (some name) session_ends b = ((tt, tt), λ n e. absurd cc)
  turn-IsConfined session (event e state) (socket, h) = on_event-IsConfined session state e socket h
  turn-IsConfined session tick b = ((tt, tt), λ n e. inl e)

  -- After an event about the connected session, either that is still allowed or it is no longer
  -- connected.
  pub on_event-Detaches :
      (state : BellState) (e : ServerToDevice) (name : Bytes)
      → event_socket e ≡ some name
      → ((on_event d (some name) state e).0 ≡ none)
        ⊎ (((on_event d (some name) state e).0 ≡ some name) × Allowed d state name)
  unfolding on_event
  on_event-Detaches state e name h =
      rw (on_event, h)
        (if_intro (λ (t : Turn). (t.0 ≡ none) ⊎ ((t.0 ≡ some name) × Allowed d state name))
          (not (session_allowed d.engine d.rules state name)) _ _
          (λ _. rw (same_refl name) (inl refl))
          (λ a. inr (refl, seen-Allowed d state name (ground (arith, a)))))

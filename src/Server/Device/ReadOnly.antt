-- ===== src/Server/Device/ReadOnly.antt =====
-- A device with a read-only token (`handle_device_message` of src/bin/g2mirror-server.rs).
use g2mirror.Prelude.{
  sym, ◌∙◌, All-append, ◌≡◌, Bool, true, false, not, ◌&&◌, List, [], ◌∷◌, Option, none, some, Bytes,
  arith, Option-cases, inl, inr, All, same, ascii, if_intro, ap,
}
use g2mirror.Server.Protocol.{ServerToDevice, event_socket}
use g2mirror.Server.Monitor.{BellState, session_allowed}
use g2mirror.Server.Launch.Granted.{launch_command-readonly}
use g2mirror.Server.Device.{
  Device, Action, sends, relays, forwards, opens, runs, pings, Incoming, text, session_line,
  session_ends, event, tick, Turn, connect_to, launch, forward, handle_kind, handle_device_message,
  on_event, turn, run, run, is_session,
}

-- A line is no input message, as JSON reads it.
abbrev pub IsNoInput : Device → Bytes → Type 0
IsNoInput d line =
    (msg : d.json.Value) (kind : Bytes)
    → d.json.from_str line ≡ some msg
    → d.json.str_at msg (ascii "type") ≡ some kind
    → same kind (ascii "input") ≡ false

abbrev pub IsHarmless : Device → Action → Type 0
IsHarmless d (forwards name line) = IsNoInput d line
IsHarmless d (runs command) = ⊥
IsHarmless d (sends message) = Unit
IsHarmless d (relays line) = Unit
IsHarmless d (opens name init) = Unit
IsHarmless d pings = Unit

module _ (d : Device) (readonly : d.token.readonly ≡ true) where
  launch-IsHarmless :
      (session : Option Bytes) (preset : Bytes) (cwd : Option Bytes)
      → All (IsHarmless d) (launch d session preset cwd).1
  unfolding launch
  launch-IsHarmless session preset cwd =
      rw
        (
          All,
          launch_command-readonly d.engine d.system d.config d.token d.rules preset cwd readonly,
        )
        (tt, tt)

  connect_to-IsHarmless :
      (session : Option Bytes) (state : BellState) (reachable : Bytes → Bool) (name : Option Bytes)
      → All (IsHarmless d) (connect_to d session state reachable name).1
  unfolding connect_to
  connect_to-IsHarmless session state reachable none = (tt, tt)
  connect_to-IsHarmless session state reachable (some name) = ground arith

  forward-IsHarmless :
      (session : Option Bytes) (line : Bytes)
      → IsNoInput d line
      → All (IsHarmless d) (forward d session line).1
  unfolding forward
  forward-IsHarmless none line h = (tt, tt)
  forward-IsHarmless (some name) line h = (h, tt)

  -- A line has one reading.
  no_input :
      (line : Bytes) (msg : d.json.Value) (kind : Bytes)
      → d.json.from_str line ≡ some msg
      → d.json.str_at msg (ascii "type") ≡ some kind
      → (same kind (ascii "input") && d.token.readonly) ≡ false
      → IsNoInput d line
  no_input line msg kind read typed other m k r t =
      let e : some m ≡ some msg = sym r ∙ read in
      let e' : m ≡ msg = cc in
      let f : some k ≡ some kind = sym t ∙ ap (λ v. d.json.str_at v (ascii "type")) e' ∙ typed in
      let f' : k ≡ kind = cc in rw f' (ground (arith, other, readonly))

  handle_kind-IsHarmless :
      (session : Option Bytes) (state : BellState) (dir : Option (List (Option Bytes)))
      (reachable : Bytes → Bool) (line : Bytes) (msg : d.json.Value) (kind : Bytes)
      → d.json.from_str line ≡ some msg
      → d.json.str_at msg (ascii "type") ≡ some kind
      → All (IsHarmless d) (handle_kind d session state dir reachable line msg kind).1
  unfolding handle_kind
  handle_kind-IsHarmless session state dir reachable line msg kind read typed =
      let P : Turn → Type 0 = λ t. All (IsHarmless d) t.1 in
      if_intro P (same kind (ascii "list")) _ _ (λ _. (tt, tt))
        λ _.
          if_intro P (same kind (ascii "connect")) _ _
            (λ _. connect_to-IsHarmless session state reachable _)
            λ _.
              if_intro P (same kind (ascii "launch")) _ _ (λ _. launch-IsHarmless session _ _)
                λ _.
                  if_intro P (same kind (ascii "disconnect")) _ _ (λ _. (tt, tt))
                    λ _.
                      if_intro P (same kind (ascii "input") && d.token.readonly) _ _ (λ _. (tt, tt))
                        λ other.
                          forward-IsHarmless session line (no_input line msg kind read typed other)

  on_event-IsHarmless :
      (session : Option Bytes) (state : BellState) (e : ServerToDevice)
      → All (IsHarmless d) (on_event d session state e).1
  unfolding on_event
  on_event-IsHarmless session state e =
      let P : Turn → Type 0 = λ t. All (IsHarmless d) t.1 in
      elim (Option-cases (event_socket e)) [
        | inl n ↦ rw (All, n) (tt, tt)
        | inr (socket, n) ↦
            rw (All, n)
              (if_intro P (not (session_allowed d.engine d.rules state socket)) _ _
                (λ _. if_intro P (is_session d session socket) _ _ (λ _. (tt, tt)) (λ _. tt))
                (λ _. (tt, tt)))
      ]

  turn-IsHarmless :
      (session : Option Bytes) (i : Incoming) → All (IsHarmless d) (turn d session i).1
  unfolding turn handle_device_message
  turn-IsHarmless session (text line state dir reachable) =
      elim (Option-cases (d.json.from_str line)) [
        | inl e ↦ rw (All, e) (tt, tt)
        | inr (msg, e) ↦ elim (Option-cases (d.json.str_at msg (ascii "type"))) [
          | inl f ↦ rw (All, e, f) (tt, tt)
          | inr (kind, f) ↦
              rw (All, e, f) (handle_kind-IsHarmless session state dir reachable line msg kind e f)
        ]
      ]
  turn-IsHarmless none (session_line line) = tt
  turn-IsHarmless (some name) (session_line line) = (tt, tt)
  turn-IsHarmless none session_ends = tt
  turn-IsHarmless (some name) session_ends = (tt, tt)
  turn-IsHarmless session (event e state) = on_event-IsHarmless session state e
  turn-IsHarmless session tick = (tt, tt)

-- Whatever a device with a read-only token sends, and whatever its sessions and the terminals do,
-- no input message reaches a session and no command is run.
pub run-IsHarmless :
    (d : Device) (session : Option Bytes) (is : List (Incoming × Bool))
    → d.token.readonly ≡ true
    → All (IsHarmless d) (run d session is)
unfolding run
run-IsHarmless d session [] r = tt
run-IsHarmless d session ((i, wrote) ∷ is) r =
    let t = turn d session i in
    if_intro (All (IsHarmless d)) wrote _ _
      (λ _.
        All-append (IsHarmless d) t.1 (run d t.0 is) (turn-IsHarmless d r session i)
          (run-IsHarmless d t.0 is r))
      (λ _. turn-IsHarmless d r session i)

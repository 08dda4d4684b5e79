-- ===== src/Server/Monitor/Events.antt =====
-- The events that the monitor connections fan out (`run_monitor` of src/bin/g2mirror-server.rs).
use g2mirror.Prelude.{
  ◌≡◌, refl, sym, ap, false, not, Option, none, some, Option-cases, inl, inr, Bytes, same, ascii,
  if_intro,
}
use g2mirror.Prelude.Maps.{get_or, lookup-entry, lookup-entry_other}
use g2mirror.Server.Protocol.{
  Json, ServerToDevice, bell, activity, title, detached, init, sessions, launched, disconnected,
  error, event_socket,
}
use g2mirror.Server.Monitor.{
  TerminalState, BellState, unknown, terminal, change, greeted, on_message, on_line,
}

-- An event tells what the state says of its socket.
abbrev pub Tells : BellState → ServerToDevice → Type 0
Tells state (bell socket at) = (terminal state socket).last_bell_at ≡ some at
Tells state (activity socket at) = (terminal state socket).last_output_at ≡ some at
Tells state (title socket t) = (terminal state socket).title ≡ some t
Tells state (detached socket b) = (terminal state socket).detached ≡ b
Tells state (init version readonly server_name) = ⊥
Tells state (sessions infos) = ⊥
Tells state (launched socket) = ⊥
Tells state (disconnected reason) = ⊥
Tells state (error trouble) = ⊥

-- What a line of session `name` made of `before`: a state and at most one event.
pub record IsUpdate (before : BellState) (name : Bytes) (after : BellState × Option ServerToDevice)
    : Type 0 where
  pub others :
      (other : Bytes) → same name other ≡ false → terminal after.0 other ≡ terminal before other
  pub tells :
      (e : ServerToDevice) → after.1 ≡ some e → (event_socket e ≡ some name) × Tells after.0 e

terminal-change :
    (state : BellState) (name : Bytes) (f : TerminalState → TerminalState)
    → terminal (change state name f) name ≡ f (terminal state name)
unfolding terminal
terminal-change state name f = rw (get_or, lookup-entry state.terminals name unknown f) refl

terminal-change_other :
    (state : BellState) (name : Bytes) (f : TerminalState → TerminalState) (other : Bytes)
    → same name other ≡ false
    → terminal (change state name f) other ≡ terminal state other
unfolding terminal
terminal-change_other state name f other h =
    rw (get_or, lookup-entry_other state.terminals name other unknown f h) refl

unchanged : (state : BellState) (name : Bytes) → IsUpdate state name (state, none)
unchanged state name = record { others = λ other h. refl; tells = λ e h. absurd cc }

changed :
    (state : BellState) (name : Bytes) (f : TerminalState → TerminalState) (e : ServerToDevice)
    → event_socket e ≡ some name
    → Tells (change state name f) e
    → IsUpdate state name (change state name f, some e)
changed state name f e about tells = record {
  others = terminal-change_other state name f;
  tells = λ e' h. let eq : e ≡ e' = cc in rw (sym eq) (about, tells);
}

module _ (json : Json) where
  on_message-IsUpdate :
      (state : BellState) (name : Bytes) (msg : json.Value) (kind : Bytes)
      → IsUpdate state name (on_message json state name msg kind)
  unfolding on_message
  on_message-IsUpdate state name msg kind =
      let P = IsUpdate state name in
      if_intro P (same kind (ascii "connect")) _ _
        (λ _. record {
          others = terminal-change_other state name (greeted json msg);
          tells = λ e h. absurd cc;
        })
        λ _.
          if_intro P (same kind (ascii "host_changed")) _ _
            (λ _. elim (Option-cases (json.bool_at msg (ascii "attached"))) [
              | inl e ↦ rw e (unchanged state name)
              | inr (b, e) ↦ rw e (
                  changed state name (λ t. record t { detached = not b }) (detached name (not b))
                    refl (ap (λ t. t.detached) (terminal-change state name _)))
            ])
            λ _.
              if_intro P (same kind (ascii "bell")) _ _
                (λ _. elim (Option-cases (json.u64_at msg (ascii "at"))) [
                  | inl e ↦ rw e (unchanged state name)
                  | inr (at, e) ↦ rw e (
                      changed state name (λ t. record t { last_bell_at = some at }) (bell name at)
                        refl (ap (λ t. t.last_bell_at) (terminal-change state name _)))
                ])
                λ _.
                  if_intro P (same kind (ascii "activity")) _ _
                    (λ _. elim (Option-cases (json.u64_at msg (ascii "at"))) [
                      | inl e ↦ rw e (unchanged state name)
                      | inr (at, e) ↦ rw e (
                          changed state name (λ t. record t { last_output_at = some at })
                            (activity name at) refl
                            (ap (λ t. t.last_output_at) (terminal-change state name _)))
                    ])
                    λ _.
                      if_intro P (same kind (ascii "title")) _ _
                        (λ _. elim (Option-cases (json.str_at msg (ascii "title"))) [
                          | inl e ↦ rw e (unchanged state name)
                          | inr (t, e) ↦ rw e (
                              changed state name (λ s. record s { title = some t }) (title name t)
                                refl (ap (λ s. s.title) (terminal-change state name _)))
                        ])
                        (λ _. unchanged state name)

  -- Whatever line a session sends, only its own terminal changes, and an event that is fanned out
  -- is about that terminal and tells what the state then says of it.
  pub on_line-IsUpdate :
      (state : BellState) (name line : Bytes) → IsUpdate state name (on_line json state name line)
  unfolding on_line
  on_line-IsUpdate state name line = elim (Option-cases (json.from_str line)) [
    | inl e ↦ rw (on_line, e) (unchanged state name)
    | inr (msg, e) ↦ elim (Option-cases (json.str_at msg (ascii "type"))) [
      | inl f ↦ rw (on_line, e, f) (unchanged state name)
      | inr (kind, f) ↦ rw (on_line, e, f) (on_message-IsUpdate state name msg kind)
    ]
  ]

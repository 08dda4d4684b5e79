-- ===== src/Session/Handler/ReadOnly.antt =====
-- A read-only session (`handle_viewer_message` of src/main.rs).
use g2mirror.Prelude.{
  ℕ, zero, suc, ◌<◌, ◌≡◌, refl, Bool, true, ◌&&◌, List, [], ◌∷◌, Option, none, some, Bytes, ltb,
  length, if_intro, arith, inl, inr, ◌⊎◌,
}
use g2mirror.History.{HistoryRecord}
use g2mirror.Input.{InputDelay}
use g2mirror.Session.Client.{FromSession, Client, send, stalled, error, session_readonly}
use g2mirror.Session.View.{MirrorModel}
use g2mirror.Session.Handler.{
  ToSession, init, monitor, view, unview, input, history, resize, Session, Outcome, done, fails,
  send_at, refresh, send_history, on_input, handle_viewer_message, viewing_at,
}

send_at-Outcome :
    (i : ℕ) (message : FromSession) (cs : List Client)
    → i < length cs
    → ((send_at i message cs).1 ≡ done) ⊎ ((send_at i message cs).1 ≡ fails stalled)
unfolding send_at
send_at-Outcome i message [] h = absurd (omega arith)
send_at-Outcome zero message (c ∷ cs) h =
    if_intro (λ o. (o ≡ done) ⊎ (o ≡ fails stalled)) (send c message).1 _ _ (λ _. inl refl)
      (λ _. inr refl)
send_at-Outcome (suc i) message (c ∷ cs) h = send_at-Outcome i message cs (omega arith)

module _ (mm : MirrorModel) (decode : Bytes → Option Bytes) (clock : ℕ → ℕ) (pty : ℕ → Bool) where
  -- Nothing is typed or queued.
  abbrev pub IsUntouched : Session mm → Session mm × Outcome → Type 0
  IsUntouched s r = (r.0.queue ≡ s.queue) × (r.0.typed ≡ s.typed)

  -- In a read-only session no message of a viewer reaches the pty or the input queue, and an input
  -- message of viewer `i` is no error unless the answer to it cannot be sent.
  pub handle_viewer_message-IsUntouched :
      (s : Session mm) (i : ℕ) (message : ToSession)
      → s.readonly ≡ true
      → i < length s.clients.viewers
      → IsUntouched s (handle_viewer_message mm decode clock pty s i message)
        × ((text : Bytes) (delays : List InputDelay)
            → message ≡ input text delays
            → ((handle_viewer_message mm decode clock pty s i message).1 ≡ done)
              ⊎ ((handle_viewer_message mm decode clock pty s i message).1 ≡ fails stalled))
  unfolding handle_viewer_message on_input refresh send_history
  handle_viewer_message-IsUntouched s i (init fields) r h = ((refl, refl), λ t d e. absurd cc)
  handle_viewer_message-IsUntouched s i (monitor version) r h = ((refl, refl), λ t d e. absurd cc)
  handle_viewer_message-IsUntouched s i (resize width height) r h = (
    if_intro (IsUntouched s) (ltb 0 width && ltb 0 height) _ _ (λ _. (refl, refl))
        (λ _. (refl, refl)),
    λ t d e. absurd cc,
  )
  handle_viewer_message-IsUntouched s i (input text delays) r h =
      let refused = send_at-Outcome i (error session_readonly) s.clients.viewers h in
      if_intro
        (λ (x : Session mm × Outcome).
          IsUntouched s x
          × ((t : Bytes) (d : List InputDelay)
              → input text delays ≡ input t d
              → (x.1 ≡ done) ⊎ (x.1 ≡ fails stalled)))
        s.readonly _ _ (λ _. ((refl, refl), λ t d e. refused)) (λ w. absurd (ground (arith, r, w)))
  handle_viewer_message-IsUntouched s i view r h = ((refl, refl), λ t d e. absurd cc)
  handle_viewer_message-IsUntouched s i (history before limit) r h =
      (send_history-IsUntouched s i _, λ t d e. absurd cc)
    where
      send_history-IsUntouched :
          (s : Session mm) (i : ℕ) (o : Option (ℕ × List HistoryRecord))
          → IsUntouched s (send_history mm s i o)
      send_history-IsUntouched s i none = (refl, refl)
      send_history-IsUntouched s i (some (start, records)) = (refl, refl)
  handle_viewer_message-IsUntouched s i unview r h = (
    if_intro (IsUntouched s) (viewing_at i s.clients.viewers) _ _ (λ _. (refl, refl))
        (λ _. (refl, refl)),
    λ t d e. absurd cc,
  )

-- ===== src/Session/Handler/Sizes.antt =====
-- Viewers have a size (`handle_viewer_message` of src/main.rs).
use g2mirror.Prelude.{
  ℕ, zero, suc, ◌<◌, sym, subst, Bool, ◌&&◌, List, [], ◌∷◌, Option, none, some, Bytes, ltb, All,
  if_intro, arith, Option-cases, inl, inr,
}
use g2mirror.History.{HistoryRecord}
use g2mirror.Input.{InputDelay, Received, refused, took, panics}
use g2mirror.Session.Client.{Client, FromSession, deliver, send}
use g2mirror.Session.Client.Deliver.{send-size, deliver-size}
use g2mirror.Session.View.{MirrorModel}
use g2mirror.Session.View.Kept.{refresh_view-All}
use g2mirror.Session.Handler.{
  ToSession, init, monitor, view, unview, input, history, resize, Session, Outcome, at, send_at,
  with_viewers, refresh, received, send_history, on_input, handle_viewer_message, viewing_at,
}

abbrev pub IsSized : Client → Type 0
IsSized c = (0 < c.width) × (0 < c.height)

at-IsSized :
    (i : ℕ) (f : Client → Client) (cs : List Client)
    → ((c : Client) → IsSized c → IsSized (f c))
    → All IsSized cs
    → All IsSized (at i f cs)
at-IsSized i f [] k h = tt
at-IsSized zero f (c ∷ cs) k (s, h) = (k c s, h)
at-IsSized (suc i) f (c ∷ cs) k (s, h) = (s, at-IsSized i f cs k h)

pub send-IsSized : (message : FromSession) (c : Client) → IsSized c → IsSized (send c message).0
send-IsSized message c s =
    let (w, h) = send-size message c in
    (subst (λ n. 0 < n) (sym w) s.0, subst (λ n. 0 < n) (sym h) s.1)

deliver-IsSized : (message : FromSession) (c : Client) → IsSized c → IsSized (deliver message c)
deliver-IsSized message c s =
    let (w, h) = deliver-size message c in
    (subst (λ n. 0 < n) (sym w) s.0, subst (λ n. 0 < n) (sym h) s.1)

send_at-IsSized :
    (i : ℕ) (message : FromSession) (cs : List Client)
    → All IsSized cs
    → All IsSized (send_at i message cs).0
unfolding send_at
send_at-IsSized i message [] h = tt
send_at-IsSized zero message (c ∷ cs) (s, h) = (send-IsSized message c s, h)
send_at-IsSized (suc i) message (c ∷ cs) (s, h) = (s, send_at-IsSized i message cs h)

module _ (mm : MirrorModel) where
  refresh-IsSized :
      (s : Session mm) (force_for : Option ℕ)
      → All IsSized s.clients.viewers
      → All IsSized (refresh mm s force_for).0.clients.viewers
  unfolding refresh
  refresh-IsSized s force_for h =
      refresh_view-All IsSized deliver-IsSized mm s.clients.viewers s.clients.mirror s.host_rank
        s.headless force_for s.clients.host h

  received-IsSized :
      (s : Session mm) (r : Received)
      → All IsSized s.clients.viewers
      → All IsSized (received mm s r).0.clients.viewers
  unfolding received
  received-IsSized s (refused e) h = h
  received-IsSized s (took p) h = h
  received-IsSized s panics h = h

  send_history-IsSized :
      (s : Session mm) (i : ℕ) (o : Option (ℕ × List HistoryRecord))
      → All IsSized s.clients.viewers
      → All IsSized (send_history mm s i o).0.clients.viewers
  unfolding send_history
  send_history-IsSized s i none h = h
  send_history-IsSized s i (some (start, records)) h = send_at-IsSized i _ s.clients.viewers h

  module _ (decode : Bytes → Option Bytes) (clock : ℕ → ℕ) (pty : ℕ → Bool) where
    on_input-IsSized :
        (s : Session mm) (i : ℕ) (text : Bytes) (delays : List InputDelay)
        → All IsSized s.clients.viewers
        → All IsSized (on_input mm decode clock pty s i text delays).0.clients.viewers
    unfolding on_input
    on_input-IsSized s i text delays h =
        if_intro (λ (r : Session mm × Outcome). All IsSized r.0.clients.viewers) s.readonly _ _
          (λ _. send_at-IsSized i _ s.clients.viewers h)
          (λ _. elim (Option-cases (decode text)) [
            | inl e ↦ rw e h
            | inr (bytes, e) ↦ rw e (received-IsSized s _ h)
          ])

    -- If all viewers have a size, all have one after any message of a viewer.
    pub handle_viewer_message-IsSized :
        (s : Session mm) (i : ℕ) (message : ToSession)
        → All IsSized s.clients.viewers
        → All IsSized (handle_viewer_message mm decode clock pty s i message).0.clients.viewers
    unfolding handle_viewer_message
    handle_viewer_message-IsSized s i (init fields) h = h
    handle_viewer_message-IsSized s i (monitor version) h = h
    handle_viewer_message-IsSized s i (resize width height) h =
        if_intro (λ (r : Session mm × Outcome). All IsSized r.0.clients.viewers)
          (ltb 0 width && ltb 0 height) _ _
          (λ p.
            refresh-IsSized (with_viewers mm s _) none
              (at-IsSized i _ s.clients.viewers (λ c _. (ground (arith, p), ground (arith, p))) h))
          (λ _. h)
    handle_viewer_message-IsSized s i (input text delays) h = on_input-IsSized s i text delays h
    handle_viewer_message-IsSized s i view h =
        refresh-IsSized (with_viewers mm s _) (some i)
          (at-IsSized i _ s.clients.viewers (λ c z. z) h)
    handle_viewer_message-IsSized s i (history before limit) h = send_history-IsSized s i _ h
    handle_viewer_message-IsSized s i unview h =
        if_intro (λ (r : Session mm × Outcome). All IsSized r.0.clients.viewers)
          (viewing_at i s.clients.viewers) _ _
          (λ _.
            refresh-IsSized (with_viewers mm s _) none
              (at-IsSized i _ s.clients.viewers (λ c z. z) h))
          (λ _. h)

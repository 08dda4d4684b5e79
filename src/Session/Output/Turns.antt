-- ===== src/Session/Output/Turns.antt =====
-- The invariant of a session over all turns of the loop of src/main.rs that change its view from the
-- side of the child and the host.
use g2mirror.Prelude.{
  ℕ, ◌≡◌, refl, sym, ap, ◌∙◌, subst, Bool, true, false, not, List, [], ◌∷◌, Option, none, some,
  ◌>>=◌, any, if◌then◌else◌, if_intro, Bool-cases, inl, inr, arith,
}
use g2mirror.Session.Client.{Client, is_live_viewing}
use g2mirror.Session.View.{View, Host, apply_transition, is_real}
use g2mirror.Session.View.Synced.{IsSyncedWith}
use g2mirror.Session.Sweep.{Clients, sweep_and_refresh}
use g2mirror.Session.Sweep.Clean.{IsShown}
use g2mirror.Session.Output.{
  Loop, toggle_simulated, toggle_view, on_hotkey, on_host_resize, Turn, outputs, resizes, toggles,
  turn, run,
}
use g2mirror.Session.Output.Served.{
  IsServed, LoopServed, ended, sweep-EndsServed, on_pty_output-IsServed,
}
use g2mirror.Screen.{Vt100}
use g2mirror.Screen.Laws.{SizeLaws}
use g2mirror.Mirror.State.{Mirror}
use g2mirror.Mirror.Views.{host_resized}
use g2mirror.Mirror.Model.{mirror_model, view-start, view-end}
use g2mirror.Mirror.Valid.{IsValid, start_view-IsValid, end_view-IsInStep, host_resized-IsInStep}
use g2mirror.Mirror.Held.{host_resized-view}

module _ (vt : Vt100) (laws : SizeLaws vt) where
  on_host_resize-IsServed :
      (s : Loop vt) (rows cols host_rank : ℕ) (headless : Bool)
      → IsServed vt laws s.clients
      → LoopServed vt laws (on_host_resize vt s rows cols host_rank headless)
  unfolding on_host_resize
  on_host_resize-IsServed s rows cols host_rank headless h =
      let (m, t) = host_resized vt s.clients.mirror rows cols in
      let (host, works) = apply_transition s.clients.host t in
      let resized : Clients (mirror_model vt) = record s.clients { mirror = m; host = host } in
      let valid : IsValid vt m =
        (host_resized-IsInStep vt laws s.clients.mirror rows cols _ (h.valid, refl)).0 in
      let synced : IsSyncedWith (mirror_model vt) m.view s.clients.viewers =
        subst (λ o. IsSyncedWith (mirror_model vt) o s.clients.viewers)
          (sym (host_resized-view vt laws s.clients.mirror rows cols)) h.shown.0 in
      if_intro (LoopServed vt laws) works _ _
        (λ _.
          ended vt laws s (sweep_and_refresh (mirror_model vt) resized host_rank headless)
            (sweep-EndsServed vt laws resized host_rank headless valid synced))
        (λ _ w. absurd cc)

  -- A valid mirror that shows the viewers what they should see.
  abbrev Fine : List Client → Mirror vt → Type 0
  Fine cs m = IsValid vt m × IsShown (mirror_model vt) m cs

  abbrev SyncedAnd : List Client → Option View → Type 0
  SyncedAnd cs o =
      IsSyncedWith (mirror_model vt) o cs
      × (any is_live_viewing cs ≡ true → is_real (mirror_model vt) o ≡ true)

  -- Nobody views while there is no real view.
  unreal :
      (cs : List Client) (o : Option View)
      → SyncedAnd cs o
      → is_real (mirror_model vt) o ≡ false
      → any is_live_viewing cs ≡ false
  unreal cs o (synced, real) e = elim (Bool-cases (any is_live_viewing cs)) [
    | inl v ↦ absurd (ground (arith, real v, e))
    | inr idle ↦ idle
  ]

  toggled-Fine :
      (cs : List Client) (m : Mirror vt) (o : Option View) (host : Host)
      → m.view ≡ o
      → Fine cs m
      → Fine cs (toggle_view vt m o host).0
  unfolding toggle_view
  toggled-Fine cs m none host e (valid, shown) =
      let idle = unreal cs m.view shown (ap (is_real (mirror_model vt)) e) in
      let sim : View = record { rows = 24; cols = 96; simulated = true } in
      (
        start_view-IsValid vt laws m sim,
        subst (SyncedAnd cs) (sym (view-start vt m sim))
            ((λ real. absurd cc), λ v. absurd (ground (arith, v, idle))),
      )
  toggled-Fine cs m (some v) host e (valid, shown) =
      if_intro (λ (r : Mirror vt × (Host × Bool)). Fine cs r.0) v.simulated _ _
        (λ simulated.
          let idle = unreal cs m.view shown (ap (is_real (mirror_model vt)) e ∙ ap not simulated) in
          (
            (end_view-IsInStep vt laws m (0, 0)).0,
            subst (SyncedAnd cs) (sym (view-end vt m)) (tt, λ v. absurd (ground (arith, v, idle))),
          ))
        (λ real. (valid, shown))

  on_hotkey-IsServed :
      (s : Loop vt) → IsServed vt laws s.clients → IsServed vt laws (on_hotkey vt s).0.clients
  unfolding on_hotkey toggle_simulated
  on_hotkey-IsServed s h =
      let (valid, shown) =
        toggled-Fine s.clients.viewers s.clients.mirror s.clients.mirror.view s.clients.host refl
          (h.valid, h.shown) in
      record { valid = valid; alive = h.alive; shown = shown }

  turn-IsServed :
      (s : Loop vt) (t : Turn vt) (host_rank : ℕ) (headless : Bool)
      → IsServed vt laws s.clients
      → LoopServed vt laws (turn vt s t host_rank headless)
  unfolding turn
  turn-IsServed s (outputs bytes r) host_rank headless h =
      on_pty_output-IsServed vt laws s bytes r host_rank headless h
  turn-IsServed s (resizes rows cols) host_rank headless h =
      on_host_resize-IsServed s rows cols host_rank headless h
  turn-IsServed s toggles host_rank headless h = λ _. on_hotkey-IsServed s h

  bound :
      (s : Loop vt) (ts : List (Turn vt)) (host_rank : ℕ) (headless : Bool)
      (o : Option (Loop vt × Bool))
      → ((s' : Loop vt)
          → IsServed vt laws s'.clients
          → LoopServed vt laws (run vt s' ts host_rank headless))
      → LoopServed vt laws o
      → LoopServed vt laws (
          o >>= λ (s', works).
          let rest = run vt s' ts host_rank headless in if works then rest else some (s', false))
  bound s ts host_rank headless none k h = h
  bound s ts host_rank headless (some (s', true)) k h = k s' (h refl)
  bound s ts host_rank headless (some (s', false)) k h = λ w. absurd cc

  -- From a mirror with the shadow that it expects, live viewers, a real view whenever anyone views,
  -- and a snapshot of its size with everyone who views, any turns for output of the child, a resize
  -- of the host and the hotkey, with any sends that fail, do not panic and end. Unless a write to
  -- the host fails, all that holds again afterwards: a viewer that is lost on the way is gone, and
  -- those that stay have been told the size of the view.
  pub run-IsServed :
      (ts : List (Turn vt)) (s : Loop vt) (host_rank : ℕ) (headless : Bool)
      → IsServed vt laws s.clients
      → LoopServed vt laws (run vt s ts host_rank headless)
  unfolding run
  run-IsServed [] s host_rank headless h = λ _. h
  run-IsServed (t ∷ ts) s host_rank headless h =
      let first = turn vt s t host_rank headless in
      bound s ts host_rank headless first (λ s' h. run-IsServed ts s' host_rank headless h)
        (turn-IsServed s t host_rank headless h)

-- ===== src/Session/Output/Served.antt =====
-- The invariant of a session over the turns for the child's output (src/main.rs).
use g2mirror.Prelude.{
  ℕ, ◌≡◌, refl, sym, subst, Bool, true, false, List, Option, none, some, ◌>>=◌, Bytes, All, all,
  any, if_intro,
}
use g2mirror.Session.Client.{Client, is_live_viewing}
use g2mirror.Session.View.{View, is_real}
use g2mirror.Session.View.Synced.{IsSynced, IsSyncedWith}
use g2mirror.Session.Sweep.{Clients, lives, sweep_and_refresh}
use g2mirror.Session.Sweep.Clean.{IsShown, IsSwept, sweep_and_refresh-IsSwept}
use g2mirror.Session.Sweep.Mirrored.{After, sweep_and_refresh-mirror}
use g2mirror.Session.Output.{
  send_remote, send_new_title, write_host, Readings, Loop, report_output, stream_output, swept,
  on_pty_output,
}
use g2mirror.Session.Output.Streamed.{
  joined-AreFollowing, send_remote-AreFollowing, send_new_title-AreFollowing,
}
use g2mirror.Screen.{Vt100}
use g2mirror.Screen.Laws.{SizeLaws}
use g2mirror.Mirror.State.{Output}
use g2mirror.Mirror.Model.{mirror_model}
use g2mirror.Mirror.Valid.{IsValid, process-IsValid, start_view-IsValid, end_view-IsInStep}
use g2mirror.Mirror.Held.{process-view}

module _ (vt : Vt100) (laws : SizeLaws vt) where
  -- The mirror is valid, no viewer is dead, a real view is on if anyone views, and everyone who
  -- views has a snapshot of its size.
  pub record IsServed (s : Clients (mirror_model vt)) : Type 0 where
    pub valid : IsValid vt s.mirror
    pub alive : all lives s.viewers ≡ true
    pub shown : IsShown (mirror_model vt) s.mirror s.viewers

  -- The invariant, but for clients that may have been lost.
  abbrev Serves : Clients (mirror_model vt) × Bool → Type 0
  Serves (s, lost) =
      IsValid vt s.mirror
      × (lost ≡ false → all lives s.viewers ≡ true)
      × IsShown (mirror_model vt) s.mirror s.viewers

  synced-map :
      (o : Option View) (cs ds : List Client)
      → ((rows cols : ℕ) → All (IsSynced rows cols) cs → All (IsSynced rows cols) ds)
      → IsSyncedWith (mirror_model vt) o cs
      → IsSyncedWith (mirror_model vt) o ds
  synced-map none cs ds f h = tt
  synced-map (some v) cs ds f h = λ real. f v.rows v.cols (h real)

  stream_output-Serves :
      (s : Clients (mirror_model vt)) (out : Output) → IsServed s → Serves (stream_output vt s out)
  unfolding stream_output
  stream_output-Serves s out h =
      let (ds, l) = send_remote out.remote s.viewers in
      let (synced, views, live) =
        joined-AreFollowing s.viewers ds (send_new_title out.title ds).0 l
          (send_new_title out.title ds).1 (send_remote-AreFollowing out.remote s.viewers)
          (send_new_title-AreFollowing out.title ds) in
      (
        h.valid,
        (λ e. live e h.alive),
        (
          synced-map s.mirror.view s.viewers (send_new_title out.title ds).0 synced h.shown.0,
          λ v. h.shown.1 (views v),
        ),
      )

  -- A turn that ends, and if no write to the host fails, with the invariant.
  abbrev pub EndsServed : Option (Clients (mirror_model vt) × Bool) → Type 0
  EndsServed none = ⊥
  EndsServed (some (s, works)) = works ≡ true → IsServed s

  both :
      (o : Option (Clients (mirror_model vt) × Bool))
      → IsSwept (mirror_model vt) o
      → After
          (mirror_model vt)
          (IsValid vt)
          (λ m v p. start_view-IsValid vt laws m v)
          (λ m p. (end_view-IsInStep vt laws m (0, 0)).0)
          o
      → EndsServed o
  both none s a = s
  both (some (s, works)) h a = λ w. record { valid = a; alive = (h w).0; shown = (h w).1 }

  pub sweep-EndsServed :
      (s : Clients (mirror_model vt)) (host_rank : ℕ) (headless : Bool)
      → IsValid vt s.mirror
      → IsSyncedWith (mirror_model vt) s.mirror.view s.viewers
      → EndsServed (sweep_and_refresh (mirror_model vt) s host_rank headless)
  sweep-EndsServed s host_rank headless valid synced =
      both (sweep_and_refresh (mirror_model vt) s host_rank headless)
        (sweep_and_refresh-IsSwept (mirror_model vt) s host_rank headless synced)
        (sweep_and_refresh-mirror (mirror_model vt) (IsValid vt)
          (λ m v p. start_view-IsValid vt laws m v) (λ m p. (end_view-IsInStep vt laws m (0, 0)).0)
          s host_rank headless valid)

  swept-EndsServed :
      (s : Clients (mirror_model vt)) (lost : Bool) (host_rank : ℕ) (headless : Bool)
      → Serves (s, lost)
      → EndsServed (swept vt (s, lost) host_rank headless)
  unfolding swept
  swept-EndsServed s true host_rank headless (valid, alive, shown) =
      sweep-EndsServed s host_rank headless valid shown.0
  swept-EndsServed s false host_rank headless (valid, alive, shown) =
      λ w. record { valid = valid; alive = alive refl; shown = shown }

  -- The same, of the state of the loop.
  abbrev pub LoopServed : Option (Loop vt × Bool) → Type 0
  LoopServed none = ⊥
  LoopServed (some (s, works)) = works ≡ true → IsServed s.clients

  pub ended :
      (s : Loop vt) (o : Option (Clients (mirror_model vt) × Bool))
      → EndsServed o
      → LoopServed (o >>= λ (c, fine). some (record s { clients = c }, fine))
  ended s none h = h
  ended s (some (c, works)) h = h

  reported-IsServed :
      (s : Loop vt) (out : Output) (r : Readings)
      → IsServed s.clients
      → IsServed (report_output vt s out r).clients
  unfolding report_output
  reported-IsServed s out r h = record { valid = h.valid; alive = h.alive; shown = h.shown }

  -- From a mirror with the shadow that it expects, live viewers, a real view whenever anyone views,
  -- and a snapshot of its size with everyone who views, a turn for the child's output does not
  -- panic and ends, whatever sends fail; and unless a write to the host fails, all that holds again
  -- afterwards: a viewer that is lost on the output, or on the change of size that its loss makes,
  -- is gone, and those that stay have been told the size.
  pub on_pty_output-IsServed :
      (s : Loop vt) (bytes : Bytes) (r : Readings) (host_rank : ℕ) (headless : Bool)
      → IsServed s.clients
      → LoopServed (on_pty_output vt s bytes r host_rank headless)
  unfolding on_pty_output
  on_pty_output-IsServed s bytes r host_rank headless h =
      let ((m, out), e, valid, _) = process-IsValid vt laws s.clients.mirror bytes h.valid in
      let view_eq = process-view vt laws s.clients.mirror bytes (m, out) e in
      let wrote = write_host s.clients.host out.host in
      let written : Loop vt = record s {
        clients = record s.clients { mirror = m; host = wrote.0 };
      } in
      let served : IsServed written.clients = record {
        valid = valid;
        alive = h.alive;
        shown =
            subst
              (λ o.
                IsSyncedWith (mirror_model vt) o s.clients.viewers
                × (any is_live_viewing s.clients.viewers ≡ true
                    → is_real (mirror_model vt) o ≡ true))
              (sym view_eq) h.shown;
      } in
      let told = report_output vt written out r in
      rw e (
        if_intro LoopServed wrote.1 _ _
          (λ _. ended told (swept vt (stream_output vt told.clients out) host_rank headless) (
            swept-EndsServed (stream_output vt told.clients out).0
              (stream_output vt told.clients out).1 host_rank headless
              (stream_output-Serves told.clients out (reported-IsServed written out r served))))
          (λ _ w. absurd cc))

-- ===== src/Session/Output.antt =====
-- The turn of the main loop for the child's output (`run_async` of src/main.rs): it goes through
-- the mirror to the host and the viewing clients, and bells, activity and titles are reported. Then
-- the hotkey (`toggle_simulated`), the rest of the output after the child's exit (`drain_pty`), and
-- the turn for a resize of the host. The clock's readings are arguments.
pub mod Streamed
pub mod Served
pub mod Turns
mod Tests
use g2mirror.Prelude.{
  ℕ, ◌+◌, ◌-◌, Bool, true, false, not, ◌&&◌, ◌||◌, List, [], ◌∷◌, ◌++◌, Option, none, some, is_some,
  ◌>>=◌, Bytes, map, keep, ltb, leb, is_empty, if◌then◌else◌,
}
use g2mirror.Bell.{BellDebouncer, on_bell}
use g2mirror.Session.Client.{Client, FromSession, output, title, send, deliver, is_viewing}
use g2mirror.Session.View.{View, Host, apply_transition}
use g2mirror.Session.Sweep.{Clients, lives, send_bell, send_activity, send_title, sweep_and_refresh}
use g2mirror.Screen.{Vt100}
use g2mirror.Mirror.State.{Mirror, Output}
use g2mirror.Mirror.Views.{start_view, end_view, host_resized}
use g2mirror.Mirror.Process.{process}
use g2mirror.Mirror.Model.{mirror_model}

abbrev pub activity_report_interval : ℕ
activity_report_interval = 2000

-- `HostTerm::write`, with the outcome that the host has for it.
abbrev pub write_host : Host → Bytes → Host × Bool
write_host h bytes =
    apply_transition h (record { child_size = none; host_output = bytes; remote_output = none })

-- The clients of a kind get a message; whether one of them was lost.
unfoldable pub send_to : (Client → Bool) → FromSession → List Client → List Client × Bool
unfolding send deliver
send_to p message [] = ([], false)
send_to p message (c ∷ cs) =
    let (cs', lost) = send_to p message cs in
    if p c then (deliver message c ∷ cs', not (send c message).1 || lost) else (c ∷ cs', lost)

-- The bytes for the device, if there are any.
unfoldable pub send_remote : Option Bytes → List Client → List Client × Bool
unfolding send_to
send_remote none viewers = (viewers, false)
send_remote (some bytes) viewers =
    if is_empty bytes then (viewers, false) else send_to is_viewing (output bytes) viewers

unfoldable pub send_new_title : Option Bytes → List Client → List Client × Bool
unfolding send_to
send_new_title none viewers = (viewers, false)
send_new_title (some t) viewers = send_to (λ c. true) (title t) viewers

-- `if let Some(at) = … { send_bell(&mut monitor, at).await; }`
abbrev pub report_bell : Option ℕ → Option Client → Option Client
report_bell none monitor = monitor
report_bell (some at) monitor = send_bell at monitor

abbrev pub report_title : Option Bytes → Option Client → Option Client
report_title none monitor = monitor
report_title (some t) monitor = send_title t monitor

abbrev pub report_due : Option ℕ → ℕ → Bool
report_due none now = true
report_due (some sent) now = leb activity_report_interval (now - sent)

-- The clock's readings in a turn: for the bell, a time and the wall clock; for the activity, the
-- wall clock and a time.
pub record Readings : Type 0 where
  pub bell_now : ℕ
  pub bell_at : ℕ
  pub at : ℕ
  pub report_now : ℕ

module _ (vt : Vt100) where
  pub record Loop : Type 0 where
    pub clients : Clients (mirror_model vt)
    pub bell : BellDebouncer
    pub last_output_at : Option ℕ
    pub last_activity_report : Option ℕ

  -- The reports to the monitor: a bell that is due, then the activity.
  unfoldable pub report_output : Loop → Output → Readings → Loop
  report_output s out r =
      let rings = ltb 0 out.bells && is_some s.clients.monitor in
      let (bell, due) = on_bell s.bell r.bell_now r.bell_at in
      let told = if rings then report_bell due s.clients.monitor else s.clients.monitor in
      let active = is_some told && report_due s.last_activity_report r.report_now in
      record s {
        clients = record s.clients { monitor = if active then send_activity r.at told else told };
        bell = if rings then bell else s.bell;
        last_output_at = some r.at;
        last_activity_report = if active then some r.report_now else s.last_activity_report;
      }

  -- What the viewers get, and whether one was lost.
  unfoldable pub stream_output :
      Clients (mirror_model vt) → Output → Clients (mirror_model vt) × Bool
  unfolding send_remote send_new_title
  stream_output s out =
      let (viewers, lost) = send_remote out.remote s.viewers in
      let (viewers', lost') = send_new_title out.title viewers in
      (record s { viewers = viewers'; monitor = report_title out.title s.monitor }, lost || lost')

  -- A sweep, if a client was lost.
  unfoldable pub swept :
      Clients (mirror_model vt) × Bool → ℕ → Bool → Option (Clients (mirror_model vt) × Bool)
  swept (s, lost) host_rank headless =
      let cleaned = sweep_and_refresh (mirror_model vt) s host_rank headless in
      if lost then cleaned else some (s, true)

  -- `none`: a panic or a sweep without an end. The Boolean is false for an error return.
  unfoldable pub on_pty_output : Loop → Bytes → Readings → ℕ → Bool → Option (Loop × Bool)
  unfolding process report_output stream_output swept
  on_pty_output s bytes r host_rank headless = process vt s.clients.mirror bytes >>= λ (m, out).
      let (h, works) = write_host s.clients.host out.host in
      let written : Loop = record s { clients = record s.clients { mirror = m; host = h } } in
      let told = report_output written out r in
      if works
      then (swept (stream_output told.clients out) host_rank headless >>= λ (c, fine).
          some (record told { clients = c }, fine))
      else some (written, false)

  -- The dead are removed where there was something to send.
  unfoldable pub keep_live : Option Bytes → List Client → List Client
  unfolding send_remote
  keep_live none viewers = viewers
  keep_live (some bytes) viewers =
      if is_empty bytes then viewers else keep lives (send_remote (some bytes) viewers).0

  -- The bytes of the child after its exit, read by read.
  unfoldable pub drain_pty :
      Mirror vt → Host → List Client → List Bytes → Option (Mirror vt × Host × List Client × Bool)
  unfolding process keep_live
  drain_pty m h viewers [] = some (m, h, viewers, true)
  drain_pty m h viewers (bytes ∷ reads) =
      if is_empty bytes
      then some (m, h, viewers, true)
      else (process vt m bytes >>= λ (m', out).
          let (h', works) = write_host h out.host in
          let viewers' = keep_live out.remote viewers in
          let rest = drain_pty m' h' viewers' reads in
          if works then rest else some (m', h', viewers, false))

  -- Ctrl+G, which a real view ignores.
  unfoldable pub toggle_view : Mirror vt → Option View → Host → Mirror vt × (Host × Bool)
  toggle_view m none h =
      let (m', t) = start_view vt m (record { rows = 24; cols = 96; simulated = true }) in
      (m', apply_transition h t)
  toggle_view m (some v) h =
      let (m', t) = end_view vt m in
      if v.simulated then (m', apply_transition h t) else (m, (h, true))

  unfoldable pub toggle_simulated : Mirror vt → Host → Mirror vt × (Host × Bool)
  unfolding toggle_view
  toggle_simulated m h = toggle_view m m.view h

  -- The keys behind the hotkey are the pty's; this is what the hotkey does.
  unfoldable pub on_hotkey : Loop → Loop × Bool
  unfolding toggle_simulated
  on_hotkey s =
      let (m, (h, works)) = toggle_simulated s.clients.mirror s.clients.host in
      (record s { clients = record s.clients { mirror = m; host = h } }, works)

  unfoldable pub on_host_resize : Loop → ℕ → ℕ → ℕ → Bool → Option (Loop × Bool)
  unfolding host_resized
  on_host_resize s rows cols host_rank headless =
      let (m, t) = host_resized vt s.clients.mirror rows cols in
      let (h, works) = apply_transition s.clients.host t in
      let resized : Clients (mirror_model vt) = record s.clients { mirror = m; host = h } in
      if works
      then (sweep_and_refresh (mirror_model vt) resized host_rank headless >>= λ (c, fine).
          some (record s { clients = c }, fine))
      else some (record s { clients = resized }, false)

  -- One turn of the loop.
  pub data Turn : Type 0 where
    outputs : Bytes → Readings → Turn
    resizes : ℕ → ℕ → Turn
    toggles : Turn

  unfoldable pub turn : Loop → Turn → ℕ → Bool → Option (Loop × Bool)
  unfolding on_pty_output on_host_resize on_hotkey
  turn s (outputs bytes r) host_rank headless = on_pty_output s bytes r host_rank headless
  turn s (resizes rows cols) host_rank headless = on_host_resize s rows cols host_rank headless
  turn s toggles host_rank headless = some (on_hotkey s)

  -- Turns, up to an error return.
  unfoldable pub run : Loop → List Turn → ℕ → Bool → Option (Loop × Bool)
  unfolding turn
  run s [] host_rank headless = some (s, true)
  run s (t ∷ ts) host_rank headless = turn s t host_rank headless >>= λ (s', works).
      let rest = run s' ts host_rank headless in if works then rest else some (s', false)

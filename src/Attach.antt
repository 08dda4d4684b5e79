-- ===== src/Attach.antt =====
-- The attach client (src/attach.rs): its arguments, the choice of a session, and the attached
-- session. Writes to the terminal and sends succeed here; the program ends if one fails.
pub mod Args
pub mod Choice
pub mod Followed
pub mod Keys
mod Tests
use g2mirror.Prelude.{
  ℕ, zero, suc, ◌+◌, ◌-◌, ◌%◌, ◌==◌, Bool, true, false, not, ◌&&◌, ◌||◌, List, [], ◌∷◌, ◌++◌,
  Option, none, some, ◌>>=◌, unwrap_or, is_some, Bytes, any, ltb, within, is_empty, if◌then◌else◌,
  u32_mod,
}
use g2mirror.Session.Client.{
  FromSession, snapshot, output, title, exit, error, history_lines, connect, bell, activity,
  host_changed, SessionError, HistoryLine,
}
use g2mirror.Session.Handler.{ToSession, unview, input, history, resize}
use g2mirror.Screen.{Vt100}
use g2mirror.Mirror.State.{Mirror}
use g2mirror.Mirror.HostSide.{refresh_scrollback}
use g2mirror.Mirror.Views.{start_view, host_resized}
use g2mirror.Mirror.Process.{process}
use g2mirror.Follow.{Fetching, stream_size, stream_view, print_history, start_live}

abbrev pub refresh_key : ℕ
refresh_key = 0x0c

-- `chars().filter(|c| !c.is_control())`: without the control characters of ASCII and those from
-- U+0080 to U+009F, which have two bytes.
abbrev pub without_controls : Bytes → Bytes
without_controls [] = []
without_controls (c ∷ []) = if ltb c 0x20 || c == 0x7f then [] else c ∷ []
without_controls (c ∷ d ∷ cs) =
    let after_one = without_controls (d ∷ cs) in
    let after_two = without_controls cs in
    if ltb c 0x20 || c == 0x7f
    then after_one
    else if c == 0xc2 && ltb d 0xa0
    then after_two
    else c ∷ after_one

abbrev pub title_sequence : Bytes → Bytes
title_sequence t = 0x1b ∷ b']' ∷ b'2' ∷ b';' ∷ without_controls t ++ 0x07 ∷ []

-- What the client does: bytes to its terminal, messages to the session.
pub data Effect : Type 0 where
  writes : Bytes → Effect
  sends : ToSession → Effect

-- The bytes before the first detach key, and whether there is one.
unfoldable pub until_key : Option ℕ → Bytes → Bytes × Bool
until_key none bytes = (bytes, false)
until_key (some k) [] = ([], false)
until_key (some k) (b ∷ bytes) =
    let (before, found) = until_key (some k) bytes in
    if b == k then ([], true) else (b ∷ before, found)

module _ (vt : Vt100) where
  pub data Mode : Type 0 where
    await_snapshot : Mode
    fetching_history : Fetching → Mode
    live : Mirror vt → Mode

  pub record Attached : Type 0 where
    pub rows : ℕ
    pub cols : ℕ
    pub mode : Mode
    pub history_oldest : ℕ
    pub detach_key : Option ℕ
    pub exit_status : Option ℕ
    pub last_error : Option SessionError
    pub detached : Bool

  -- The client after a message, what it did, and the error that ends it. `none`: a panic.
  abbrev pub Turn : Type 0
  Turn = Option (Attached × List Effect × Option SessionError)

  unfoldable pub go_live : Attached → Fetching → List HistoryLine → Turn
  unfolding print_history start_live
  go_live a f lines = start_live vt a.rows a.cols f >>= λ (m, out).
      some (record a { mode = live m }, writes (print_history a.rows f lines ++ out) ∷ [], none)

  -- The history up to the snapshot is asked for, if there is any that can be fetched; if there is
  -- none, the view goes live.
  unfoldable pub ask_history : Attached → Fetching → ℕ → Turn
  unfolding go_live
  ask_history a f history_next =
      if ltb a.history_oldest history_next
      then some
          (record a { mode = fetching_history f }, sends (history history_next none) ∷ [], none)
      else go_live a f []

  unfoldable pub on_snapshot : Attached → Mode → Bytes → ℕ → ℕ → ℕ → Turn
  unfolding ask_history stream_size process start_view
  on_snapshot a await_snapshot bytes height width history_next =
      let (rows, cols) = stream_size height width (a.rows, a.cols) in
      ask_history a
        (record {
          stream_rows = rows;
          stream_cols = cols;
          snapshot = bytes;
          pending = [];
          skip_replies = 0;
        })
        history_next
  on_snapshot a (fetching_history f) bytes height width history_next =
      let (rows, cols) = stream_size height width (a.rows, a.cols) in
      ask_history a
        (record {
          stream_rows = rows;
          stream_cols = cols;
          snapshot = bytes;
          pending = [];
          skip_replies =
              if ltb a.history_oldest history_next
              then (f.skip_replies + 1) % u32_mod
              else f.skip_replies;
        })
        history_next
  on_snapshot a (live m) bytes height width history_next =
      let (rows, cols) = stream_size height width (a.rows, a.cols) in
      let (m', t) = start_view vt m (record { rows = rows; cols = cols; simulated = false }) in
      process vt m' bytes >>= λ (m'', out).
      some (record a { mode = live m'' }, writes (t.host_output ++ out.host) ∷ [], none)

  unfoldable pub on_output : Attached → Mode → Bytes → Turn
  unfolding process
  on_output a await_snapshot bytes = some (a, [], none)
  on_output a (fetching_history f) bytes = some (
    record a { mode = fetching_history (record f { pending = f.pending ++ bytes ∷ [] }) },
    [],
    none,
  )
  on_output a (live m) bytes = process vt m bytes >>= λ (m', out). some (
    record a { mode = live m' },
    writes out.host ∷ (if ltb 0 out.bells then writes (0x07 ∷ []) ∷ [] else []),
    none,
  )

  unfoldable pub on_history : Attached → Mode → List HistoryLine → Turn
  unfolding go_live
  on_history a await_snapshot lines = some (a, [], none)
  on_history a (fetching_history f) lines =
      if ltb 0 f.skip_replies
      then some (
        record a { mode = fetching_history (record f { skip_replies = f.skip_replies - 1 }) },
        [],
        none,
      )
      else go_live a f lines
  on_history a (live m) lines = some (a, [], none)

  abbrev pub is_live : Mode → Bool
  is_live await_snapshot = false
  is_live (fetching_history f) = false
  is_live (live m) = true

  unfoldable pub on_message : Attached → FromSession → Turn
  unfolding on_snapshot on_output on_history
  on_message a (snapshot bytes width height history_next) =
      on_snapshot a a.mode bytes height width history_next
  on_message a (output bytes) = on_output a a.mode bytes
  on_message a (history_lines start oldest next lines) = on_history a a.mode lines
  on_message a (title t) = some (a, writes (title_sequence t) ∷ [], none)
  on_message a (exit status) = some (record a { exit_status = some (unwrap_or status 1) }, [], none)
  on_message a (error e) =
      if is_live a.mode
      then some (record a { last_error = some e }, [], none)
      else some (a, [], some e)
  on_message a (connect greeting) = some (a, [], none)
  on_message a (bell at) = some (a, [], none)
  on_message a (activity at) = some (a, [], none)
  on_message a (host_changed attached) = some (a, [], none)

  -- The arm of a change of the terminal's size.
  unfoldable pub on_winch : Attached → ℕ → ℕ → Attached × List Effect
  unfolding host_resized
  on_winch a rows cols =
      let sized : Attached = record a { rows = rows; cols = cols } in
      let tell = sends (resize cols rows) in
      elim a.mode [
        | await_snapshot ↦ (sized, tell ∷ [])
        | fetching_history f ↦ (sized, tell ∷ [])
        | live m ↦
            let (m', t) = host_resized vt m rows cols in
            (record sized { mode = live m' }, writes t.host_output ∷ tell ∷ [])
      ]

  abbrev pub refreshes : Mode → List Effect
  refreshes await_snapshot = []
  refreshes (fetching_history f) = []
  refreshes (live m) = writes (refresh_scrollback vt m) ∷ []

  unfoldable pub on_keys : Attached → Bytes → Attached × List Effect
  unfolding until_key
  on_keys a bytes =
      let (typed, detach) = until_key a.detach_key bytes in
      (
        record a { detached = if detach then true else a.detached },
        (if any (λ b. b == refresh_key) typed then refreshes a.mode else [])
            ++ (if is_empty typed then [] else sends (input typed []) ∷ [])
            ++ (if detach then sends unview ∷ [] else []),
      )

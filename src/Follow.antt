-- ===== src/Follow.antt =====
-- What the attach client (src/attach.rs) and the viewer (src/bin/g2mirror-view.rs) share: the
-- stream of a session that is being attached to, and the start of its live view.
pub mod Replay
use g2mirror.Prelude.{
  ℕ, suc, ◌+◌, ◌-◌, ◌==◌, min, Bool, true, false, ◌||◌, List, [], ◌∷◌, ◌++◌, Option, none, some,
  ◌>>=◌, Bytes, if◌then◌else◌, any,
}
use g2mirror.Session.Client.{HistoryLine}
use g2mirror.Session.View.{View}
use g2mirror.Screen.{Vt100}
use g2mirror.Screen.Render.{sgr_reset, cup}
use g2mirror.Mirror.State.{Mirror, new}
use g2mirror.Mirror.HostSide.{newline, newlines, autowrap_on}
use g2mirror.Mirror.Views.{start_view}
use g2mirror.Mirror.Process.{process}

-- The snapshot is there, the history reply is awaited; live output is kept.
pub record Fetching : Type 0 where
  pub stream_rows : ℕ
  pub stream_cols : ℕ
  pub snapshot : Bytes
  pub pending : List Bytes
  pub skip_replies : ℕ

-- A snapshot with a size of zero has the fallback's.
unfoldable pub stream_size : ℕ → ℕ → ℕ × ℕ → ℕ × ℕ
stream_size rows cols fallback = if rows == 0 || cols == 0 then fallback else (rows, cols)

abbrev pub stream_view : Fetching → View
stream_view f = record { rows = f.stream_rows; cols = f.stream_cols; simulated = false }

-- History lines as flowing text: a wrapped line is continued by the next.
unfoldable pub flow_lines : Bool → List HistoryLine → Bytes
flow_lines continuation [] = []
flow_lines continuation (line ∷ lines) =
    (if continuation then [] else newline)
    ++ line.data_bytes
    ++ sgr_reset
    ++ flow_lines line.wrapped lines

-- The history, scrolled clear of the live region.
unfoldable pub print_history : ℕ → Fetching → List HistoryLine → Bytes
unfolding flow_lines cup newlines
print_history rows f lines =
    sgr_reset
    ++ autowrap_on
    ++ cup (rows - 1) 0
    ++ flow_lines false lines
    ++ cup (rows - 1) 0
    ++ newlines (min f.stream_rows rows)

module _ (vt : Vt100) where
  -- Chunks through the mirror, with what each writes to the host. `none`: `process` panics.
  unfoldable pub process_all : Mirror vt → List Bytes → Option (Mirror vt × Bytes)
  process_all m [] = some (m, [])
  process_all m (chunk ∷ chunks) = process vt m chunk >>= λ (m', out).
      process_all m' chunks >>= λ (m'', more). some (m'', out.host ++ more)

  -- A new mirror of the terminal's size with the view, the snapshot and what is pending.
  unfoldable pub start_live : ℕ → ℕ → Fetching → Option (Mirror vt × Bytes)
  unfolding process_all start_view new
  start_live rows cols f =
      let (m, t) = start_view vt (new vt rows cols) (stream_view f) in
      process_all m (f.snapshot ∷ f.pending) >>= λ (m', out). some (m', t.host_output ++ out)

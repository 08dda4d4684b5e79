-- ===== src/Mirror/Tests.antt =====
-- Runs of the mirror with the small terminal, and the theorems at inputs that exercise the code.
use g2mirror.Prelude.{
  ℕ, ◌+◌, ◌-◌, ◌≡◌, refl, min, false, [], ◌∷◌, ◌++◌, List, some, unwrap_or, length, drop, Bytes,
  arith,
}
use g2mirror.History.{HistoryRecord}
use g2mirror.History.Log.{Holds, new-Holds}
use g2mirror.Screen.Render.{sync_begin, sync_end, hide_cursor, blank_screen, place_cursor}
use g2mirror.Session.View.{View}
use g2mirror.Mirror.State.{Mirror, Output, new, process_slice, region_offset}
use g2mirror.Mirror.Views.{start_view}
use g2mirror.Mirror.HostSide.{push_batches, render_host_full}
use g2mirror.Mirror.Process.{chunks, process}
use g2mirror.Mirror.Ticker.{ticker, ticker_sizes, ticker_staging, ticker_diffs, Term}
use g2mirror.Mirror.Valid.{
  Use, processes, starts, ends, resizes, titles, limits, IsValid, IsInStep, run, run-new-IsInStep,
}
use g2mirror.Mirror.Device.{feed, feed-start_view}
use g2mirror.Mirror.Chunks.{join}
use g2mirror.Mirror.Harvested.{IsIdle}
use g2mirror.Mirror.Archived.{records_of}
use g2mirror.Mirror.Captured.{all_rows_off, process-Holds}
use g2mirror.Mirror.Crop.{Pushes, push_batches-Pushes}
use g2mirror.Mirror.Region.{rows_at, render_host_full-region}

abbrev glasses : View
glasses = record { rows = 24; cols = 96; simulated = false }

abbrev session : List Use
session =
    processes (b'a' ∷ b'b' ∷ [])
    ∷ starts glasses
    ∷ processes (b'c' ∷ [])
    ∷ resizes 30 100
    ∷ titles (b't' ∷ [])
    ∷ limits 5
    ∷ ends
    ∷ []

run-new-IsInStep_example :
    (s : Mirror ticker × (ℕ × ℕ)) × (run ticker session (new ticker 50 132, (50, 132)) ≡ some s)
    × IsInStep ticker s
run-new-IsInStep_example = run-new-IsInStep ticker ticker_sizes session 50 132

fresh-IsIdle : IsIdle ticker ticker_sizes ticker_staging (new ticker 10 80)
unfolding new
fresh-IsIdle = record {
  primary = refl;
  not_parked = refl;
  seen = refl;
  full = refl;
  few = omega arith;
  some_row = omega arith;
}

fresh-IsValid : IsValid ticker (new ticker 10 80)
unfolding new
fresh-IsValid = record { fits = tt; sized = refl }

fresh-Holds : Holds [] (new ticker 10 80).history
unfolding new
fresh-Holds = new-Holds 10000

abbrev typed : Bytes
typed = b'x' ∷ b'y' ∷ b'z' ∷ []

abbrev scrolled_off : List HistoryRecord
scrolled_off = records_of (ticker.size (new ticker 10 80).parser).1 (
    all_rows_off ticker ticker_sizes ticker_staging (new ticker 10 80) (chunks process_slice typed))

process-Holds_example :
    (r : Mirror ticker × Output) × (process ticker (new ticker 10 80) typed ≡ some r)
    × IsIdle ticker ticker_sizes ticker_staging r.0
    × Holds ([] ++ scrolled_off) r.0.history
unfolding chunks
process-Holds_example =
    process-Holds ticker ticker_sizes ticker_staging (new ticker 10 80) typed [] fresh-IsValid
      fresh-IsIdle (tt, omega arith, tt) fresh-Holds (omega arith)

push_batches-Pushes_example :
    (bytes : Bytes) × (push_batches ticker 8 (ticker.new 24 96 0) 96 3 7 0 ≡ some bytes)
    × Pushes ticker (ticker.new 24 96 0) 96 3 7 0 bytes
push_batches-Pushes_example =
    push_batches-Pushes ticker (ticker.new 24 96 0) 96 3 7 8 0 (omega arith) (omega arith)
      (omega arith)

abbrev primed : Term
primed = ticker.new 24 96 0

abbrev snapshot : Bytes
snapshot = unwrap_or (start_view ticker (new ticker 10 80) glasses).1.remote_output []

snapshot_shown :
    (ticker.process primed snapshot).shown
    ≡ (ticker.process (ticker.new glasses.rows glasses.cols 0) snapshot).shown
snapshot_shown = refl

feed-start_view_example :
    (r : Mirror ticker × Term) × (feed ticker
        (start_view ticker (new ticker 10 80) glasses).0
        (ticker.process primed snapshot)
        (typed ∷ (b'!' ∷ []) ∷ [])
      ≡ some r)
    × (r.1.shown ≡ r.0.parser.shown)
    × (r.0.parser.shown
        ≡ (ticker.process
            (ticker.process (ticker.new glasses.rows glasses.cols 0) snapshot)
            (join (typed ∷ (b'!' ∷ []) ∷ []))).shown)
feed-start_view_example =
    feed-start_view ticker ticker_sizes ticker_diffs (new ticker 10 80) glasses primed
      (typed ∷ (b'!' ∷ []) ∷ []) snapshot_shown

-- A view that is taller than the host.
abbrev tall : Mirror ticker
tall = record (new ticker 10 80) { view = some glasses; parser = ticker.new 24 96 4096 }

render_host_full-region_example :
    (let offset = region_offset ticker tall in
      let blank = blank_screen ticker 24 96 in
      let diffs = ticker.rows_diff tall.parser blank 0 (min tall.host_cols 96) in
      let shown = drop (24 - tall.host_rows) diffs in
      (render_host_full ticker tall
        ≡ sync_begin
          ++ hide_cursor
          ++ rows_at offset shown
          ++ ticker.input_mode_formatted tall.parser
          ++ place_cursor ticker tall.parser
              (24 - tall.host_rows)
              (length shown)
              (min tall.host_cols 96)
              offset
          ++ sync_end)
      × (length shown ≡ min 24 tall.host_rows)
      × (offset + length shown ≡ tall.host_rows))
unfolding new
render_host_full-region_example =
    render_host_full-region ticker ticker_sizes tall glasses refl refl (omega arith) (omega arith)

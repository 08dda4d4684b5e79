-- ===== src/Mirror/Views.antt =====
-- The transitions of src/mirror.rs: `start_view`, `end_view` and `host_resized`.
use g2mirror.Prelude.{ℕ, false, [], ◌∷◌, ◌++◌, none, some, is_some, Bytes, if◌then◌else◌}
use g2mirror.Screen.{Vt100}
use g2mirror.Screen.Render.{clear, render_snapshot}
use g2mirror.Session.View.{View, Transition}
use g2mirror.Mirror.State.{Mirror, no_events, collect, new_parser}
use g2mirror.Mirror.Staging.{harvest, flush_history_for_rebuild}
use g2mirror.Mirror.HostSide.{
  reset_input_modes, push_crop_to_host_scrollback, push_zone_to_host_scrollback, render_host_full,
}

-- Scroll margins, origin mode and autowrap as the renderer needs them.
abbrev pub view_host_prelude : Bytes
view_host_prelude =
    0x1b ∷ b'[' ∷ b'r' ∷ 0x1b ∷ b'[' ∷ b'?' ∷ b'6' ∷ b'l' ∷ 0x1b ∷ b'[' ∷ b'?' ∷ b'7' ∷ b'h' ∷ []

module _ (vt : Vt100) where
  -- The mirror with its model rebuilt at the view's size, primed with the snapshot.
  unfoldable pub rebuilt : Mirror vt → View → Bytes → Mirror vt
  rebuilt m v snapshot =
      let fresh = new_parser vt v.rows v.cols in
      record m {
        parser = vt.process fresh snapshot;
        collected = collect no_events (vt.events fresh snapshot);
        shadow = some (vt.process (vt.new v.rows v.cols 0) snapshot);
        view = some v;
        zone_dirty = false;
      }

  unfoldable pub start_view : Mirror vt → View → Mirror vt × Transition
  unfolding flush_history_for_rebuild render_snapshot rebuilt
  start_view m v =
      let flushed = flush_history_for_rebuild vt m v.rows in
      let snapshot = render_snapshot vt flushed.parser v.rows v.cols in
      let m' = rebuilt flushed v snapshot in
      (
        m',
        record {
          child_size = some (v.rows, v.cols);
          host_output =
              view_host_prelude ++ push_crop_to_host_scrollback vt m' ++ render_host_full vt m';
          remote_output = some snapshot;
        },
      )

  unfoldable pub end_view : Mirror vt → Mirror vt × Transition
  unfolding harvest push_zone_to_host_scrollback
  end_view m =
      let harvested = harvest vt m in
      let zone = push_zone_to_host_scrollback vt harvested in
      (
        record harvested {
          parked = false;
          staged_seen = 0;
          zone_dirty = false;
          view = none;
          shadow = none;
          parser = new_parser vt harvested.host_rows harvested.host_cols;
          collected = no_events;
        },
        record {
          child_size = some (harvested.host_rows, harvested.host_cols);
          host_output = zone ++ clear ++ reset_input_modes;
          remote_output = none;
        },
      )

  unfoldable pub host_resized : Mirror vt → ℕ → ℕ → Mirror vt × Transition
  unfolding harvest push_zone_to_host_scrollback push_crop_to_host_scrollback render_host_full
  host_resized m rows cols =
      let sized : Mirror vt = record m { host_rows = rows; host_cols = cols } in
      let harvested = harvest vt sized in
      let clean : Mirror vt = record sized { zone_dirty = false } in
      if is_some m.view
      then (
        clean,
        record {
          child_size = none;
          host_output =
              push_zone_to_host_scrollback vt sized
              ++ push_crop_to_host_scrollback vt clean
              ++ clear
              ++ render_host_full vt clean;
          remote_output = none;
        },
      )
      else (
        record harvested { parser = vt.set_size rows cols harvested.parser },
        record { child_size = some (rows, cols); host_output = []; remote_output = none },
      )

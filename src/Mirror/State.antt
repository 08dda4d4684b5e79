-- ===== src/Mirror/State.antt =====
-- `Mirror`, `Events` and `Output` of src/mirror.rs, with the small operations on them.
use g2mirror.Prelude.{
  ℕ, ◌+◌, ◌-◌, min, Bool, false, List, [], ◌∷◌, Option, none, some, Bytes, same, if◌then◌else◌,
}
use g2mirror.History.{History, default_max_lines}
use g2mirror.History as Archive
use g2mirror.Screen.{Vt100, Event, audible_bell, set_window_title}
use g2mirror.Session.View.{View}

abbrev pub stage_scrollback : ℕ
stage_scrollback = 4096

abbrev pub process_slice : ℕ
process_slice = 2048

-- What the callbacks have collected since it was last taken. A title is the text that
-- `String::from_utf8_lossy` makes of its bytes.
pub record Events : Type 0 where
  pub bells : ℕ
  pub title : Option Bytes

abbrev pub no_events : Events
no_events = record { bells = 0; title = none }

abbrev pub collect : Events → List Event → Events
collect e [] = e
collect e (audible_bell ∷ es) = collect (record e { bells = e.bells + 1 }) es
collect e (set_window_title t ∷ es) = collect (record e { title = some t }) es

pub record Output : Type 0 where
  pub host : Bytes
  pub remote : Option Bytes
  pub bells : ℕ
  pub title : Option Bytes

abbrev same_title : Option Bytes → Bytes → Bool
same_title none t = false
same_title (some s) t = same s t

module _ (vt : Vt100) where
  -- `parser` with `collected` is the source's parser, whose callbacks hold the events.
  pub record Mirror : Type 0 where
    pub host_rows : ℕ
    pub host_cols : ℕ
    pub parser : vt.Term
    pub collected : Events
    pub shadow : Option vt.Term
    pub view : Option View
    pub title : Option Bytes
    pub history : History
    pub parked : Bool
    pub staged_seen : ℕ
    pub zone_dirty : Bool

  abbrev pub new_parser : ℕ → ℕ → vt.Term
  new_parser rows cols = vt.new rows cols stage_scrollback

  unfoldable pub new : ℕ → ℕ → Mirror
  new host_rows host_cols = record {
    host_rows = host_rows;
    host_cols = host_cols;
    parser = new_parser host_rows host_cols;
    collected = no_events;
    shadow = none;
    view = none;
    title = none;
    history = Archive.new default_max_lines;
    parked = false;
    staged_seen = 0;
    zone_dirty = false;
  }

  -- `self.parser.process(bytes)`, callbacks included.
  abbrev pub parse : Mirror → Bytes → Mirror
  parse m bytes = record m {
    parser = vt.process m.parser bytes;
    collected = collect m.collected (vt.events m.parser bytes);
  }

  unfoldable pub region_offset : Mirror → ℕ
  region_offset m =
      m.host_rows - (elim m.view [ none ↦ m.host_rows | some v ↦ min v.rows m.host_rows ])

  unfoldable pub crop_top : Mirror → ℕ
  crop_top m = elim m.view [ none ↦ 0 | some v ↦ v.rows - m.host_rows ]

  unfoldable pub set_history_limit : Mirror → ℕ → Mirror
  set_history_limit m max_lines = record m { history = Archive.set_max_lines m.history max_lines }

  unfoldable pub host_size : Mirror → ℕ × ℕ
  host_size m = (m.host_rows, m.host_cols)

  unfoldable pub set_title : Mirror → Bytes → Mirror
  set_title m t = record m { title = some t }

  unfoldable pub take_bells : Mirror → Mirror × ℕ
  take_bells m = (record m { collected = record m.collected { bells = 0 } }, m.collected.bells)

  -- The title of the last chunk, taken; it is reported if it differs from the current one.
  unfoldable pub take_title_change : Mirror → Mirror × Option Bytes
  take_title_change m =
      let taken : Mirror = record m { collected = record m.collected { title = none } } in
      elim m.collected.title [
        | none ↦ (m, none)
        | some t ↦
            if same_title m.title t
            then (taken, none)
            else (record taken { title = some t }, some t)
      ]

-- ===== src/Screen.antt =====
-- The screen model of src/mirror.rs: what it uses of the vt100 crate, which is an interface here.
pub mod Style
pub mod Serialize
pub mod Render
pub mod Sgr
pub mod Laws
mod Tests
use g2mirror.Prelude.{ℕ, Bool, List, Option, Bytes}

pub data Color : Type 0 where
  default : Color
  idx : ℕ → Color
  rgb : ℕ → ℕ → ℕ → Color

-- What the methods of `vt100::Cell` tell of a cell.
pub record Cell : Type 0 where
  pub contents : Bytes
  pub has_contents : Bool
  pub is_wide_continuation : Bool
  pub fgcolor : Color
  pub bgcolor : Color
  pub bold : Bool
  pub dim : Bool
  pub italic : Bool
  pub underline : Bool
  pub inverse : Bool

-- One visible row: `screen.cell(row, col)` at each column, and `screen.row_wrapped(row)`.
pub record Row : Type 0 where
  pub cell : ℕ → Option Cell
  pub wrapped : Bool

-- The calls of `vt100::Callbacks`.
pub data Event : Type 0 where
  audible_bell : Event
  set_window_title : Bytes → Event

-- A `vt100::Parser` with its screen. `new` takes rows, columns and the scrollback's length;
-- `events` are the callbacks made while bytes are processed, in their order.
pub record Vt100 : Type 1 where
  pub Term : Type 0
  pub new : ℕ → ℕ → ℕ → Term
  pub process : Term → Bytes → Term
  pub events : Term → Bytes → List Event
  pub size : Term → ℕ × ℕ
  pub set_size : ℕ → ℕ → Term → Term
  pub scrollback : Term → ℕ
  pub set_scrollback : ℕ → Term → Term
  pub alternate_screen : Term → Bool
  pub row : Term → ℕ → Row
  pub cursor_position : Term → ℕ × ℕ
  pub hide_cursor : Term → Bool
  pub rows_diff : Term → Term → ℕ → ℕ → List Bytes
  pub input_mode_formatted : Term → Bytes
  pub input_mode_diff : Term → Term → Bytes
  pub state_diff : Term → Term → Bytes

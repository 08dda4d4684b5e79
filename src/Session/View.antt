-- ===== src/Session/View.antt =====
-- The choice of the view's size and the broadcast of snapshots: `effective_rank`, `refresh_view`,
-- `toggle_simulated` and `apply_transition` of src/main.rs. The mirror is an interface.
pub mod Best
pub mod Synced
pub mod Decided
pub mod Kept
pub mod Mirrored
mod Tests
use g2mirror.Prelude.{
  ℕ, suc, ◌+◌, ◌≡◌, Bool, true, false, not, ◌&&◌, ◌||◌, List, [], ◌∷◌, ◌++◌, Option, none, some,
  is_some, unwrap_or, Bytes, ltb, leb, ◌==◌, if◌then◌else◌,
}
use g2mirror.History.{History, next_index}
use g2mirror.Session.Client.{
  Client, Role, viewer, host, FromSession, snapshot, deliver, is_live_viewing,
}

pub record View : Type 0 where
  pub rows : ℕ
  pub cols : ℕ
  pub simulated : Bool

pub record Transition : Type 0 where
  pub child_size : Option (ℕ × ℕ)
  pub host_output : Bytes
  pub remote_output : Option Bytes

-- What the session uses of `Mirror` (src/mirror.rs), and what it relies on: a started view is the
-- current one, and after the end of a view there is none.
pub record MirrorModel : Type 1 where
  pub Mirror : Type 0
  pub view : Mirror → Option View
  pub host_size : Mirror → ℕ × ℕ
  pub title : Mirror → Option Bytes
  pub history : Mirror → History
  pub start_view : Mirror → View → Mirror × Transition
  pub end_view : Mirror → Mirror × Transition
  pub view-start : (m : Mirror) (v : View) → view (start_view m v).0 ≡ some v
  pub view-end : (m : Mirror) → view (end_view m).0 ≡ none

-- The pty and the host's terminal: whether each transition to come can be applied (all can, after
-- the last), the sizes set and the bytes written.
pub record Host : Type 0 where
  pub enabled : Bool
  pub outcomes : List Bool
  pub sizes : List (ℕ × ℕ)
  pub written : Bytes

abbrev resize : Option (ℕ × ℕ) → List (ℕ × ℕ) → List (ℕ × ℕ)
resize none sizes = sizes
resize (some size) sizes = size ∷ sizes

abbrev pub next_outcome : List Bool → Bool × List Bool
next_outcome [] = (true, [])
next_outcome (b ∷ bs) = (b, bs)

pub apply_transition : Host → Transition → Host × Bool
apply_transition h t =
    let (works, later) = next_outcome h.outcomes in
    (
      record h {
        outcomes = later;
        sizes = resize t.child_size h.sizes;
        written = if h.enabled then h.written ++ t.host_output else h.written;
      },
      works,
    )

pub effective_rank : ℕ → Client → ℕ
effective_rank host_rank c = elim c.role [ host ↦ host_rank | viewer ↦ c.size_rank ]

-- The order of `min_by_key(|c| (effective_rank(c, host_rank), c.id))`.
pub precedes : ℕ → Client → Client → Bool
unfolding effective_rank
precedes host_rank a b =
    ltb (effective_rank host_rank a) (effective_rank host_rank b)
    || (effective_rank host_rank a == effective_rank host_rank b && ltb a.id b.id)

-- `c`, unless a later client precedes it.
pub pick : ℕ → Client → Option Client → Client
unfolding precedes
pick host_rank c none = c
pick host_rank c (some b) = if precedes host_rank b c then b else c

-- The first least of the live viewing clients.
pub best : ℕ → List Client → Option Client
unfolding pick
best host_rank [] = none
best host_rank (c ∷ cs) =
    let later = best host_rank cs in
    if is_live_viewing c then some (pick host_rank c later) else later

abbrev pub is_index : Option ℕ → ℕ → Bool
is_index none i = false
is_index (some j) i = j == i

-- The loop over the viewers: `force_for` is counted from `i`.
pub broadcast : Bool → Option ℕ → FromSession → ℕ → List Client → List Client
broadcast changed force_for message i [] = []
broadcast changed force_for message i (c ∷ cs) =
    (if is_live_viewing c && (changed || is_index force_for i) then deliver message c else c)
    ∷ broadcast changed force_for message (suc i) cs

module _ (mm : MirrorModel) where
  -- The size of the view for the best client, in rows and columns.
  pub size_for : mm.Mirror → ℕ → Bool → Client → ℕ × ℕ
  unfolding effective_rank
  size_for mirror host_rank headless c =
      if headless || leb (effective_rank host_rank c) host_rank
      then (c.height, c.width)
      else mm.host_size mirror

  -- `v.simulated || (v.rows, v.cols) != (rows, cols)`
  abbrev pub differs : Option View → ℕ → ℕ → Bool
  differs none rows cols = true
  differs (some v) rows cols = v.simulated || not (v.rows == rows && v.cols == cols)

  abbrev pub is_real : Option View → Bool
  is_real none = false
  is_real (some v) = not v.simulated

  -- What `refresh_view` leaves; `works` is false for an error return.
  pub record Refreshed : Type 0 where
    pub viewers : List Client
    pub mirror : mm.Mirror
    pub host : Host
    pub works : Bool

  -- The arm of a target: a view of that size, if it is another or a client asks for it.
  pub show : List Client → mm.Mirror → Option ℕ → Host → ℕ → ℕ → Refreshed
  unfolding broadcast apply_transition
  show viewers mirror force_for h rows cols =
      let changed = differs (mm.view mirror) rows cols in
      let (mirror', t) =
        mm.start_view mirror (record { rows = rows; cols = cols; simulated = false }) in
      let (h', works) = apply_transition h t in
      let message =
        snapshot (unwrap_or t.remote_output []) cols rows (next_index (mm.history mirror')) in
      if changed || is_some force_for
      then record {
        viewers = if works then broadcast changed force_for message 0 viewers else viewers;
        mirror = mirror';
        host = h';
        works = works;
      }
      else record { viewers = viewers; mirror = mirror; host = h; works = true }

  -- The arm of no target.
  pub hide : List Client → mm.Mirror → Bool → Host → Refreshed
  unfolding apply_transition
  hide viewers mirror headless h =
      let (mirror', t) = mm.end_view mirror in
      let (h', works) = apply_transition h t in
      if not headless && is_real (mm.view mirror)
      then record { viewers = viewers; mirror = mirror'; host = h'; works = works }
      else record { viewers = viewers; mirror = mirror; host = h; works = true }

  pub refresh_view : List Client → mm.Mirror → ℕ → Bool → Option ℕ → Host → Refreshed
  unfolding best size_for show hide
  refresh_view viewers mirror host_rank headless force_for h = elim (best host_rank viewers) [
    | none ↦ hide viewers mirror headless h
    | some c ↦
        let (rows, cols) = size_for mirror host_rank headless c in
        show viewers mirror force_for h rows cols
  ]

-- ===== src/Attach/Choice.antt =====
-- Which session `--attach` claims (src/attach.rs): the probes, the candidates among them, and the
-- picker that chooses one of several. `to_lowercase` is a parameter.
pub mod Within
pub mod Claimable
use g2mirror.Prelude.{
  ℕ, zero, suc, ◌+◌, ◌-◌, min, Bool, true, false, not, ◌&&◌, ◌||◌, List, [], ◌∷◌, ◌++◌, Option,
  none, some, ◌>>=◌, Bytes, length, get_elem?, keep, any, is_empty, ltb, ◌==◌, if◌then◌else◌,
}
use g2mirror.Prelude.Decimal.{decimal}
use g2mirror.Attach.Args.{AttachOpts, strip_prefix}

-- The greeting of a session, without what is only shown.
pub record Probe : Type 0 where
  pub path : Bytes
  pub pid : ℕ
  pub command : Bytes
  pub cwd : Bytes
  pub title : Option Bytes
  pub headless : Bool
  pub detached : Bool
  pub launched : Option Bytes

abbrev pub starts_with : Bytes → Bytes → Bool
starts_with [] s = true
starts_with (p ∷ ps) [] = false
starts_with (p ∷ ps) (c ∷ cs) = p == c && starts_with ps cs

-- `text.contains(pattern)`
pub contains_text : Bytes → Bytes → Bool
contains_text pattern [] = is_empty pattern
contains_text pattern (c ∷ cs) = starts_with pattern (c ∷ cs) || contains_text pattern cs

abbrev pub optional : Option Bytes → List Bytes
optional none = []
optional (some t) = t ∷ []

-- `(!p.detached, !p.headless, p.pid)`, lexicographically: a precedes b strictly.
abbrev bool_lt : Bool → Bool → Bool
bool_lt a b = not a && b

abbrev same_bool : Bool → Bool → Bool
same_bool true b = b
same_bool false b = not b

pub precedes : Probe → Probe → Bool
precedes a b =
    bool_lt (not a.detached) (not b.detached)
    || (same_bool a.detached b.detached
        && (bool_lt (not a.headless) (not b.headless)
            || (same_bool a.headless b.headless && ltb a.pid b.pid)))

-- `sort_by_key`, which is stable: a probe goes in front of the first that it precedes.
pub insert : Probe → List Probe → List Probe
insert p [] = p ∷ []
insert p (q ∷ qs) = if precedes p q then p ∷ q ∷ qs else q ∷ insert p qs

pub sort_from : List Probe → List Probe → List Probe
sort_from sorted [] = sorted
sort_from sorted (p ∷ ps) = sort_from (insert p sorted) ps

module _ (lower : Bytes → Bytes) where
  pub probe_matches : Probe → Bytes → Bool
  unfolding contains_text
  probe_matches p pattern =
      any (λ f. contains_text (lower pattern) (lower f))
        (decimal p.pid ∷ p.cwd ∷ p.command ∷ [] ++ optional p.title ++ optional p.launched)

  abbrev pub wanted : Option Bytes → Probe → Bool
  wanted none p = true
  wanted (some pattern) p = probe_matches p pattern

  abbrev pub claimable : AttachOpts → Probe → Bool
  claimable opts p = (if opts.force then p.headless else p.detached) && wanted opts.pattern p

  -- Of the probes in their order.
  pub candidates : AttachOpts → List Probe → List Probe
  candidates opts probes = keep (claimable opts) probes

  -- How many sessions only `--force` would take over.
  pub claimed_count : AttachOpts → List Probe → ℕ
  claimed_count opts probes =
      length (keep (λ p. p.headless && not p.detached && wanted opts.pattern p) probes)

-- What a key has done so far in one read: the selection, and the end of the picker.
abbrev pub Picking : Type 0
Picking = ℕ × Option (Option Probe)

abbrev pub up : ℕ → ℕ
up selected = selected - 1

abbrev pub down : ℕ → ℕ → ℕ
down count selected = min (selected + 1) (count - 1)

-- One byte as a key. `none`: the selection is out of range.
pub press : List Probe → Picking → ℕ → Option Picking
press cs (selected, done) b =
    if b == 0x03 || b == 0x04 || b == b'q'
    then some (selected, some none)
    else (if b == b'\r' || b == b'\n'
        then (get_elem? cs selected >>= λ p. some (selected, some (some p)))
        else (if b == b'k'
            then some (up selected, done)
            else (if b == b'j'
                then some (down (length cs) selected, done)
                else some (selected, done))))

-- The final byte of an arrow key.
pub arrow : List Probe → Picking → ℕ → Picking
arrow cs (selected, done) b =
    if b == b'A'
    then (up selected, done)
    else (if b == b'B' then (down (length cs) selected, done) else (selected, done))

-- The bytes of one read.
pub press_all : List Probe → Picking → Bytes → Option Picking
unfolding press arrow
press_all cs s [] = some s
press_all cs s (b ∷ []) = press cs s b
press_all cs s (b ∷ c ∷ []) = press cs s b >>= λ s'. press cs s' c
press_all cs s (b ∷ c ∷ d ∷ bytes) =
    let skipped = press_all cs (arrow cs s d) bytes in
    let next = press cs s b >>= λ s'. press_all cs s' (c ∷ d ∷ bytes) in
    if b == 0x1b && (c == b'[' || c == b'O') then skipped else next

-- The loop of `pick` over the reads; an empty one is the end of the input.
pub pick_from : List Probe → ℕ → List Bytes → Option (Option Probe)
unfolding press_all
pick_from cs selected [] = some none
pick_from cs selected (bytes ∷ reads) =
    if is_empty bytes
    then some none
    else (press_all cs (selected, none) bytes >>= λ (selected', done).
        let rest = pick_from cs selected' reads in elim done [ none ↦ rest | some r ↦ some r ])

-- How the choice ends.
pub data Chosen : Type 0 where
  refuses : ℕ → Chosen
  cancels : Chosen
  attaches : Probe → Chosen

abbrev pub chosen : Option Probe → Chosen
chosen none = cancels
chosen (some p) = attaches p

pub choose : List Probe → ℕ → List Bytes → Option Chosen
unfolding pick_from
choose [] claimed reads = some (refuses claimed)
choose (p ∷ []) claimed reads = some (attaches p)
choose (p ∷ q ∷ cs) claimed reads = pick_from (p ∷ q ∷ cs) 0 reads >>= λ r. some (chosen r)

pub attach_choice : (Bytes → Bytes) → AttachOpts → List Probe → List Bytes → Option Chosen
unfolding candidates claimed_count sort_from choose
attach_choice lower opts probes reads =
    let sorted = sort_from [] probes in
    choose (candidates lower opts sorted) (claimed_count lower opts sorted) reads

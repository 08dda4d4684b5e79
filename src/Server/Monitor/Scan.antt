-- ===== src/Server/Monitor/Scan.antt =====
-- One round of `monitor_manager` (src/bin/g2mirror-server.rs).
use g2mirror.Prelude.{
  ◌≡◌, refl, sym, ◌∙◌, false, ◌||◌, List, [], ◌∷◌, Bool-cases, inl, inr, Bytes, same, same_refl,
  same_sym, same→eq, contains, arith, if◌then◌else◌,
}
use g2mirror.Prelude.Maps.{
  Map, contains_key, entry, retain, get_or, lookup-entry, lookup-entry_other, lookup-retain,
}
use g2mirror.Server.Monitor.{
  TerminalState, BellState, unknown, terminal, remember, spawn, insert, scan,
}

-- Remembering names adds those that are new, with nothing known of them.
remember-get_or :
    (names : List Bytes) (m : Map TerminalState) (key : Bytes)
    → get_or (remember names m) key unknown ≡ get_or m key unknown
remember-get_or [] m key = refl
remember-get_or (name ∷ names) m key =
    remember-get_or names (entry m name unknown (λ t. t)) key ∙ elim (Bool-cases (same name key)) [
      | inl e ↦
          let f : name ≡ key = same→eq name key e in
          rw (sym f) (rw (get_or, lookup-entry m name unknown (λ t. t)) refl)
      | inr e ↦ rw (get_or, lookup-entry_other m name key unknown (λ t. t) e) refl
    ]

entry-contains_key :
    (m : Map TerminalState) (name key : Bytes)
    → contains_key (entry m name unknown (λ t. t)) key ≡ (same key name || contains_key m key)
entry-contains_key m name key = elim (Bool-cases (same name key)) [
  | inl e ↦
      let f : name ≡ key = same→eq name key e in
      rw (sym f) (rw (same_refl name, lookup-entry m name unknown (λ t. t)) refl)
  | inr e ↦
      let f : same key name ≡ false = same_sym key name ∙ e in
      rw (f, lookup-entry_other m name key unknown (λ t. t) e) refl
]

remember-contains_key :
    (names : List Bytes) (m : Map TerminalState) (key : Bytes)
    → contains_key (remember names m) key ≡ (contains names key || contains_key m key)
remember-contains_key [] m key = refl
remember-contains_key (name ∷ names) m key = ground (
  arith,
  remember-contains_key names (entry m name unknown (λ t. t)) key,
  entry-contains_key m name key,
)

insert-contains :
    (name : Bytes) (names : List Bytes) (key : Bytes)
    → contains (insert name names) key ≡ (same key name || contains names key)
insert-contains name names key = elim (Bool-cases (contains names name)) [
  | inl e ↦ elim (Bool-cases (same key name)) [
    | inl f ↦ let g : key ≡ name = same→eq key name f in rw (e, f) (rw g e)
    | inr f ↦ rw (e, f) refl
  ]
  | inr e ↦ rw e refl
]

spawn-contains :
    (names monitored : List Bytes) (key : Bytes)
    → contains (spawn names monitored) key ≡ (contains names key || contains monitored key)
spawn-contains [] monitored key = refl
spawn-contains (name ∷ names) monitored key =
    ground
      (arith, spawn-contains names (insert name monitored) key, insert-contains name monitored key)

-- After a round, exactly the live sockets have a terminal; what was known of them is kept, the new
-- ones start with nothing known, and each of them is monitored.
pub scan-live :
    (live : List Bytes) (state : BellState) (key : Bytes)
    → (contains_key (scan live state).terminals key ≡ contains live key)
      × (terminal (scan live state) key
          ≡ (if contains live key then terminal state key else unknown))
      × (contains (scan live state).monitored key
          ≡ (contains live key || contains state.monitored key))
unfolding scan terminal
scan-live live state key = (present, known, spawn-contains live state.monitored key)
  where
    present : contains_key (scan live state).terminals key ≡ contains live key
    present = ground (
      arith,
      remember-contains_key live (retain (contains live) state.terminals) key,
      lookup-retain (contains live) state.terminals key,
    )

    known :
        terminal (scan live state) key ≡ (if contains live key then terminal state key else unknown)
    known =
        remember-get_or live (retain (contains live) state.terminals) key
        ∙ (rw (get_or, lookup-retain (contains live) state.terminals key) (ground arith))

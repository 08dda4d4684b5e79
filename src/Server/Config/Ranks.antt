-- ===== src/Server/Config/Ranks.antt =====
-- The size policy of src/bin/g2mirror-server.rs: who sizes a terminal that several clients view.
use g2mirror.Prelude.{
  ℕ, suc, ◌+◌, ◌%◌, ◌≤◌, ◌<◌, ◌≡◌, refl, false, List, [], ◌∷◌, ◌++◌, none, some, Bytes, length,
  length-append, same, same_refl, same_sym, ascii, contains, arith, u32_mod, Option-cases, inl, inr,
  ◌⊎◌, ◌∙◌, ap,
}
use g2mirror.Server.Config.{Config, position, size_ranks}

-- Who may size the terminal: the viewers of a token, and the host.
pub data Party : Type 0 where
  viewer : Bytes → Party
  host : Party

-- The name in `size_precedence`.
abbrev pub label : Party → Bytes
label (viewer token) = token
label host = ascii "host"

abbrev pub rank : Config → Party → ℕ
rank config (viewer token) = (size_ranks config token).0
rank config host = (size_ranks config []).1

position_first :
    (before : List Bytes) (name : Bytes) (after : List Bytes)
    → contains before name ≡ false
    → position (before ++ name ∷ after) name ≡ some (length before)
unfolding position
position_first [] name after h = rw (same_refl name) refl
position_first (e ∷ before) name after h =
    let ih = position_first before name after (ground (arith, h)) in
    let e' : same e name ≡ false = same_sym e name ∙ ground (arith, h) in rw (e', ih) refl

position_absent :
    (names : List Bytes) (name : Bytes) → contains names name ≡ false → position names name ≡ none
unfolding position
position_absent [] name h = refl
position_absent (e ∷ names) name h =
    let ih = position_absent names name (ground (arith, h)) in
    let e' : same e name ≡ false = same_sym e name ∙ ground (arith, h) in rw (e', ih) refl

-- The earliest name comes before every other.
position_later :
    (before : List Bytes) (first : Bytes) (after : List Bytes) (name : Bytes)
    → contains before name ≡ false
    → same first name ≡ false
    → (position (before ++ first ∷ after) name ≡ none)
      ⊎ ((p : ℕ) × (position (before ++ first ∷ after) name ≡ some p) × (length before < p))
unfolding position
position_later [] first after name h d = elim (Option-cases (position after name)) [
  | inl n ↦ inl (rw (d, n) refl)
  | inr (p, e) ↦ inr (suc p, rw (d, e) refl, omega arith)
]
position_later (b ∷ before) first after name h d =
    let other : same b name ≡ false = same_sym b name ∙ ground (arith, h) in
    elim (position_later before first after name (ground (arith, h)) d) [
      | inl n ↦ inl (rw (other, n) refl)
      | inr (p, e, l) ↦ inr (suc p, rw (other, e) refl, omega arith)
    ]

position-lt-length :
    (names : List Bytes) (name : Bytes) {p : ℕ} → position names name ≡ some p → p < length names
unfolding position
position-lt-length [] name e = absurd cc
position-lt-length (n ∷ names) name e = elim (Option-cases (position names name)) [
  | inl f ↦ ground arith
  | inr (q, f) ↦ let l = position-lt-length names name f in ground arith
]

-- The rank of a label that stands at `p`, and of one that does not stand in the list.
rank_listed :
    (config : Config) (party : Party) (p : ℕ)
    → position config.size_precedence (label party) ≡ some p
    → rank config party ≡ p % u32_mod
unfolding size_ranks
rank_listed config (viewer token) p e = rw (rank, size_ranks, e) refl
rank_listed config host p e = rw (rank, size_ranks, e) refl

rank_unlisted :
    (config : Config) (party : Party)
    → position config.size_precedence (label party) ≡ none
    → length config.size_precedence + 1 < u32_mod
    → length config.size_precedence ≤ rank config party
unfolding size_ranks
rank_unlisted config (viewer token) e b = rw (rank, size_ranks, e) (omega arith)
rank_unlisted config host e b = rw (rank, size_ranks, e) (omega arith)

-- Of two parties the one that `size_precedence` names first, or that it alone names, has the lower
-- rank, and so the size; the list has fewer than 2^32 - 1 entries.
pub rank_first :
    (config : Config) (a b : Party) (before after : List Bytes)
    → config.size_precedence ≡ before ++ label a ∷ after
    → contains before (label a) ≡ false
    → contains before (label b) ≡ false
    → same (label a) (label b) ≡ false
    → length config.size_precedence + 1 < u32_mod
    → rank config a < rank config b
rank_first config a b before after list na nb d bound =
    let first =
      rank_listed config a (length before)
        (ap (λ l. position l (label a)) list ∙ position_first before (label a) after na) in
    let long : length config.size_precedence ≡ length before + suc (length after) =
      ap length list ∙ length-append before (label a ∷ after) in
    elim (position_later before (label a) after (label b) nb d) [
      | inl n ↦
          let low = rank_unlisted config b (ap (λ l. position l (label b)) list ∙ n) bound in
          omega (arith, first, long, low)
      | inr (p, e, l) ↦
          let e' = ap (λ l. position l (label b)) list ∙ e in
          let second = rank_listed config b p e' in
          let within_list = position-lt-length config.size_precedence (label b) e' in
          omega (arith, first, second, within_list)
    ]

-- A host that `size_precedence` does not name ranks behind every viewer; the list has fewer than
-- 2^32 - 1 entries.
pub rank_host_last :
    (config : Config) (token : Bytes)
    → contains config.size_precedence (ascii "host") ≡ false
    → length config.size_precedence + 1 < u32_mod
    → rank config (viewer token) < rank config host
unfolding size_ranks
rank_host_last config token absent bound =
    let unlisted = position_absent config.size_precedence (ascii "host") absent in
    elim (Option-cases (position config.size_precedence token)) [
      | inl n ↦ rw (rank, size_ranks, unlisted, n) (omega arith)
      | inr (p, e) ↦
          let l = position-lt-length config.size_precedence token e in
          rw (rank, size_ranks, unlisted, e) (omega arith)
    ]

-- ===== src/Mirror/Keeps.antt =====
-- What the capture of rows in src/mirror.rs (`park`, `harvest`, `flush_history_for_rebuild`, the
-- loop of `process`) leaves alone: the sizes, the view and the shadow.
use g2mirror.Prelude.{
  ℕ, zero, suc, ◌+◌, ◌≡◌, refl, ◌∙◌, sym, subst, arith, min, false, List, [], ◌∷◌, Bytes, ltb,
  if_intro,
}
use g2mirror.History.{History}
use g2mirror.Screen.{Vt100}
use g2mirror.Screen.Laws.{SizeLaws}
use g2mirror.Mirror.State.{Mirror, parse, take_bells, take_title_change}
use g2mirror.Mirror.Staging.{
  staged, usize_max, park, archive_loop, archive_staged_rows, new_rows, archive_new, harvest,
  flush_history_for_rebuild,
}
use g2mirror.Mirror.Process.{process_slices}

-- A relation of terminals that moving the scrollback's window does not leave.
pub record Unmoved (vt : Vt100) : Type 1 where
  pub Like : vt.Term → vt.Term → Type 0
  pub like_refl : (t : vt.Term) → Like t t
  pub like_trans : (s t u : vt.Term) → Like s t → Like t u → Like s u
  pub like-set : (n : ℕ) (t : vt.Term) → Like (vt.set_scrollback n t) t

-- They have the same size.
abbrev pub sizes : (vt : Vt100) → SizeLaws vt → Unmoved vt
sizes vt laws = record {
  Like = λ s t. vt.size s ≡ vt.size t;
  like_refl = λ t. refl;
  like_trans = λ s t u h k. h ∙ k;
  like-set = laws.size-set;
}

module _ (vt : Vt100) (un : Unmoved vt) where
  pub record Keeps (m m' : Mirror vt) : Type 0 where
    pub host_rows_eq : m'.host_rows ≡ m.host_rows
    pub host_cols_eq : m'.host_cols ≡ m.host_cols
    pub view_eq : m'.view ≡ m.view
    pub shadow_eq : m'.shadow ≡ m.shadow
    pub like : un.Like m'.parser m.parser

  pub Keeps-trans : {a b c : Mirror vt} → Keeps a b → Keeps b c → Keeps a c
  Keeps-trans h k = record {
    host_rows_eq = k.host_rows_eq ∙ h.host_rows_eq;
    host_cols_eq = k.host_cols_eq ∙ h.host_cols_eq;
    view_eq = k.view_eq ∙ h.view_eq;
    shadow_eq = k.shadow_eq ∙ h.shadow_eq;
    like = un.like_trans _ _ _ k.like h.like;
  }

  -- Only the parser differs, and what belongs to the capture.
  pub Keeps-of :
      (m m' : Mirror vt)
      → (m'.host_rows ≡ m.host_rows)
        × (m'.host_cols ≡ m.host_cols)
        × (m'.view ≡ m.view)
        × (m'.shadow ≡ m.shadow)
      → un.Like m'.parser m.parser
      → Keeps m m'
  Keeps-of m m' (r, c, v, s) e = record {
    host_rows_eq = r;
    host_cols_eq = c;
    view_eq = v;
    shadow_eq = s;
    like = e;
  }

  pub Keeps-refl : (m : Mirror vt) → Keeps m m
  Keeps-refl m = Keeps-of m m (refl, refl, refl, refl) (un.like_refl m.parser)

  set_twice : (n k : ℕ) (t : vt.Term) → un.Like (vt.set_scrollback n (vt.set_scrollback k t)) t
  set_twice n k t = un.like_trans _ _ _ (un.like-set n (vt.set_scrollback k t)) (un.like-set k t)

  pub park-Keeps : (m : Mirror vt) → Keeps m (park vt m)
  unfolding park
  park-Keeps m =
      let alone = Keeps-refl m in
      if_intro (Keeps m) (vt.alternate_screen m.parser) _ _ (λ _. alone)
        (λ _.
          if_intro (Keeps m) m.parked _ _ (λ _. alone)
            (λ _.
              if_intro (Keeps m) (ltb 0 (staged vt m.parser).1) _ _
                (λ _. Keeps-of m _ (refl, refl, refl, refl) (set_twice 1 usize_max m.parser))
                (λ _. Keeps-of m _ (refl, refl, refl, refl) (set_twice 0 usize_max m.parser))))

  pub archive_loop-Like :
      (f rows cols remaining : ℕ) (t : vt.Term) (h : History)
      → un.Like (archive_loop vt f rows cols remaining t h).0 t
  unfolding archive_loop
  archive_loop-Like zero rows cols remaining t h = un.like_refl t
  archive_loop-Like (suc f) rows cols remaining t h =
      if_intro (λ (r : vt.Term × History). un.Like r.0 t) (ltb 0 remaining) _ _
        (λ _.
          un.like_trans _ _ _ (archive_loop-Like f rows cols _ (vt.set_scrollback remaining t) _)
            (un.like-set remaining t))
        (λ _. un.like_refl t)

  archive-Keeps : (m : Mirror vt) (n : ℕ) → Keeps m (archive_staged_rows vt m n)
  unfolding archive_staged_rows
  archive-Keeps m n =
      Keeps-of m _ (refl, refl, refl, refl)
        (un.like_trans _ _ _
          (archive_loop-Like (min n (staged vt m.parser).1 + 1) (vt.size m.parser).0
            (vt.size m.parser).1 (min n (staged vt m.parser).1) _ m.history)
          (set_twice 0 usize_max m.parser))

  pub new_rows-Like : (m : Mirror vt) → un.Like (new_rows vt m).0 m.parser
  unfolding new_rows
  new_rows-Like m =
      if_intro (λ (r : vt.Term × ℕ). un.Like r.0 m.parser) m.parked _ _ (λ _. un.like_refl m.parser)
        (λ _. un.like-set usize_max m.parser)

  pub archive_new-Keeps : (m : Mirror vt) → Keeps m (archive_new vt m)
  unfolding archive_new
  archive_new-Keeps m =
      let counted : Mirror vt = record m { parser = (new_rows vt m).0; parked = false } in
      let count : Keeps m counted = Keeps-of m _ (refl, refl, refl, refl) (new_rows-Like m) in
      if_intro (Keeps m) (ltb 0 (new_rows vt m).1) _ _
        (λ _. Keeps-trans count (archive-Keeps counted _)) (λ _. count)

  pub harvest-Keeps : (m : Mirror vt) → Keeps m (harvest vt m)
  unfolding harvest
  harvest-Keeps m =
      if_intro (Keeps m) (vt.alternate_screen m.parser) _ _ (λ _. Keeps-refl m)
        (λ _. Keeps-trans (archive_new-Keeps m) (
          Keeps-of (archive_new vt m) _ (refl, refl, refl, refl)
            (set_twice 0 usize_max (archive_new vt m).parser)))

  pub flush-Keeps : (m : Mirror vt) (n : ℕ) → Keeps m (flush_history_for_rebuild vt m n)
  unfolding flush_history_for_rebuild
  flush-Keeps m n =
      Keeps-trans (harvest-Keeps m)
        (Keeps-of (harvest vt m) _ (refl, refl, refl, refl) (un.like_refl _))

  -- Where processing the same bytes keeps the relation too, the loop of `process` does.
  pub slice-Keeps :
      (slice : Bytes) (m : Mirror vt)
      → un.Like (vt.process (park vt m).parser slice) m.parser
      → Keeps m (harvest vt (parse vt (park vt m) slice))
  slice-Keeps slice m h =
      let p = park-Keeps m in
      Keeps-trans
        (record {
          host_rows_eq = p.host_rows_eq;
          host_cols_eq = p.host_cols_eq;
          view_eq = p.view_eq;
          shadow_eq = p.shadow_eq;
          like = h;
        })
        (harvest-Keeps (parse vt (park vt m) slice))

pub slices-Keeps :
    (vt : Vt100) (laws : SizeLaws vt) (slices : List Bytes) (m : Mirror vt)
    → Keeps vt (sizes vt laws) m (process_slices vt slices m)
unfolding process_slices
slices-Keeps vt laws [] m = Keeps-refl vt (sizes vt laws) m
slices-Keeps vt laws (slice ∷ slices) m =
    Keeps-trans vt (sizes vt laws)
      (slice-Keeps vt (sizes vt laws) slice m
        (laws.size-process _ slice ∙ (park-Keeps vt (sizes vt laws) m).like))
      (slices-Keeps vt laws slices _)

-- Taking the events leaves the parser, too.
module _ (vt : Vt100) where
  abbrev pub taken : Mirror vt → Mirror vt
  taken m = (take_title_change vt (take_bells vt m).0).0

  pub taken-parser : (m : Mirror vt) → (taken m).parser ≡ m.parser
  unfolding take_title_change take_bells
  taken-parser m = ground arith

  pub taken-Keeps : (un : Unmoved vt) (m : Mirror vt) → Keeps vt un m (taken m)
  unfolding take_title_change take_bells
  taken-Keeps un m = record {
    host_rows_eq = ground arith;
    host_cols_eq = ground arith;
    view_eq = ground arith;
    shadow_eq = ground arith;
    like = subst (λ t. un.Like t m.parser) (sym (taken-parser m)) (un.like_refl m.parser);
  }

-- ===== src/Follow/Replay.antt =====
-- The live view of src/attach.rs and src/bin/g2mirror-view.rs starts, and shows the whole stream.
use g2mirror.Prelude.{
  some_eq, ◌≡◌, refl, ◌∙◌, sym, List, [], ◌∷◌, ◌++◌, some, Bytes, ℕ, append-nil, append_assoc,
  bind_some, subst,
}
use g2mirror.Screen.{Vt100}
use g2mirror.Screen.Laws.{SizeLaws}
use g2mirror.Mirror.State.{Mirror, Output, new}
use g2mirror.Mirror.Views.{start_view}
use g2mirror.Mirror.Process.{process}
use g2mirror.Mirror.Valid.{IsValid, process-IsValid, start_view-IsValid}
use g2mirror.Follow.{Fetching, stream_view, process_all, start_live}

module _ (vt : Vt100) (laws : SizeLaws vt) where
  -- A valid mirror takes any chunks.
  pub process_all-IsValid :
      (chunks : List Bytes) (m : Mirror vt)
      → IsValid vt m
      → (r : Mirror vt × Bytes) × (process_all vt m chunks ≡ some r) × IsValid vt r.0
  unfolding process_all
  process_all-IsValid [] m v = ((m, []), refl, v)
  process_all-IsValid (chunk ∷ chunks) m v =
      let (r, e, v', same) = process-IsValid vt laws m chunk v in
      let (r', e', v'') = process_all-IsValid chunks r.0 v' in
      ((r'.0, r.1.host ++ r'.1), rw (e, e') refl, v'')

  -- One more chunk.
  pub process_all-snoc :
      (chunks : List Bytes) (m : Mirror vt) (chunk : Bytes) (r : Mirror vt × Bytes)
      (s : Mirror vt × Output)
      → process_all vt m chunks ≡ some r
      → process vt r.0 chunk ≡ some s
      → process_all vt m (chunks ++ chunk ∷ []) ≡ some (s.0, r.1 ++ s.1.host)
  unfolding process_all
  process_all-snoc [] m chunk r s e p =
      let start : (m, []) ≡ r = some_eq e in
      let p' : process vt m chunk ≡ some s =
        subst (λ (x : Mirror vt × Bytes). process vt x.0 chunk ≡ some s) (sym start) p in
      rw p' (λ i. some (s.0, (append-nil s.1.host ∙ (λ j. (start j).1 ++ s.1.host)) i))
  process_all-snoc (c ∷ chunks) m chunk r s e p =
      let (x, ex, e1) = bind_some (process vt m c) _ e in
      let (y, ey, e2) = bind_some (process_all vt x.0 chunks) _ e1 in
      let whole : (y.0, x.1.host ++ y.1) ≡ r = some_eq e2 in
      let p' : process vt y.0 chunk ≡ some s =
        subst (λ (z : Mirror vt × Bytes). process vt z.0 chunk ≡ some s) (sym whole) p in
      let ih = process_all-snoc chunks x.0 chunk y s ey p' in
      rw (ex, ih)
        (λ i.
          some (s.0, (sym (append_assoc x.1.host y.1 s.1.host) ∙ (λ j. (whole j).1 ++ s.1.host)) i))

  start-IsValid :
      (rows cols : ℕ) (f : Fetching)
      → IsValid vt (start_view vt (new vt rows cols) (stream_view f)).0
  start-IsValid rows cols f = start_view-IsValid vt laws (new vt rows cols) (stream_view f)

  -- The live view always starts.
  pub start_live-IsValid :
      (rows cols : ℕ) (f : Fetching)
      → (r : Mirror vt × Bytes) × (start_live vt rows cols f ≡ some r) × IsValid vt r.0
  unfolding start_live
  start_live-IsValid rows cols f =
      let (m, t) = start_view vt (new vt rows cols) (stream_view f) in
      let (r, e, v) = process_all-IsValid (f.snapshot ∷ f.pending) m (start-IsValid rows cols f) in
      ((r.0, t.host_output ++ r.1), rw e refl, v)

  -- A chunk that is processed live might as well have been pending at the start.
  pub start_live-snoc :
      (rows cols : ℕ) (f : Fetching) (chunk : Bytes) (r : Mirror vt × Bytes)
      (s : Mirror vt × Output)
      → start_live vt rows cols f ≡ some r
      → process vt r.0 chunk ≡ some s
      → start_live vt rows cols (record f { pending = f.pending ++ chunk ∷ [] })
        ≡ some (s.0, r.1 ++ s.1.host)
  unfolding start_live
  start_live-snoc rows cols f chunk r s e p =
      let (m, t) = start_view vt (new vt rows cols) (stream_view f) in
      let (x, ex, e1) = bind_some (process_all vt m (f.snapshot ∷ f.pending)) _ e in
      let whole : (x.0, t.host_output ++ x.1) ≡ r = some_eq e1 in
      let p' : process vt x.0 chunk ≡ some s =
        subst (λ (z : Mirror vt × Bytes). process vt z.0 chunk ≡ some s) (sym whole) p in
      let ih = process_all-snoc (f.snapshot ∷ f.pending) m chunk x s ex p' in
      rw ih (λ i.
        some
          (s.0, (sym (append_assoc t.host_output x.1 s.1.host) ∙ (λ j. (whole j).1 ++ s.1.host)) i))

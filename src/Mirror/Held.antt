-- ===== src/Mirror/Held.antt =====
-- `process` and `host_resized` of src/mirror.rs neither start nor end a view.
use g2mirror.Prelude.{
  ℕ, ◌≡◌, refl, sym, ap, ◌∙◌, Option, none, some, some_eq, Bytes, is_some, if_intro,
}
use g2mirror.Screen.{Vt100}
use g2mirror.Screen.Laws.{SizeLaws}
use g2mirror.Session.View.{View, Transition}
use g2mirror.Mirror.State.{Mirror, Output, process_slice}
use g2mirror.Mirror.Views.{host_resized}
use g2mirror.Mirror.Process.{
  chunks, process_slices, process_view, pass_through, process_shadow, process,
}
use g2mirror.Mirror.Keeps.{sizes, slices-Keeps, harvest-Keeps, taken-Keeps}

module _ (vt : Vt100) (laws : SizeLaws vt) where
  process_shadow-view :
      (m : Mirror vt) (o : Option View) (s : Option vt.Term) (bytes : Bytes) (n : ℕ)
      (r : Mirror vt × Output)
      → process_shadow vt m o s bytes n ≡ some r
      → r.0.view ≡ m.view
  unfolding process_shadow process_view pass_through
  process_shadow-view m none s bytes n r h =
      ap (λ (q : Mirror vt × Output). q.0.view) (sym (some_eq h))
      ∙ (taken-Keeps vt (sizes vt laws) m).view_eq
  process_shadow-view m (some v) none bytes n r h = absurd cc
  process_shadow-view m (some v) (some shadow) bytes n r h =
      ap (λ (q : Mirror vt × Output). q.0.view) (sym (some_eq h))
      ∙ (taken-Keeps vt (sizes vt laws) m).view_eq

  pub process-view :
      (m : Mirror vt) (bytes : Bytes) (r : Mirror vt × Output)
      → process vt m bytes ≡ some r
      → r.0.view ≡ m.view
  unfolding process
  process-view m bytes r h =
      let m' = process_slices vt (chunks process_slice bytes) m in
      process_shadow-view m' m'.view m'.shadow bytes _ r h
      ∙ (slices-Keeps vt laws (chunks process_slice bytes) m).view_eq

  pub host_resized-view :
      (m : Mirror vt) (rows cols : ℕ) → (host_resized vt m rows cols).0.view ≡ m.view
  unfolding host_resized
  host_resized-view m rows cols =
      let sized : Mirror vt = record m { host_rows = rows; host_cols = cols } in
      if_intro (λ (w : Mirror vt × Transition). w.0.view ≡ m.view) (is_some m.view) _ _ (λ _. refl)
        (λ _. (harvest-Keeps vt (sizes vt laws) sized).view_eq)

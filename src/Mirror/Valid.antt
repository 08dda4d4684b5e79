-- ===== src/Mirror/Valid.antt =====
-- The state of `Mirror` of src/mirror.rs over any session: the sizes agree, and the shadow that
-- `process` expects is there.
use g2mirror.Prelude.{
  ℕ, ◌≡◌, refl, sym, ◌∙◌, true, List, [], ◌∷◌, Option, none, some, is_some, Bytes, ◌>>=◌, if_intro,
  unwrap_or, arith, subst,
}
use g2mirror.Screen.{Vt100}
use g2mirror.Screen.Laws.{SizeLaws}
use g2mirror.Session.View.{View, Transition}
use g2mirror.Mirror.State.{Mirror, Output, new, set_title, set_history_limit, process_slice}
use g2mirror.Mirror.Staging.{harvest}
use g2mirror.Mirror.Views.{start_view, rebuilt, end_view, host_resized}
use g2mirror.Mirror.Process.{
  chunks, process_slices, process_view, pass_through, process_shadow, process,
}
use g2mirror.Mirror.Keeps.{sizes, Keeps, harvest-Keeps, slices-Keeps, taken-Keeps}

-- One use of a mirror.
pub data Use : Type 0 where
  processes : Bytes → Use
  starts : View → Use
  ends : Use
  resizes : ℕ → ℕ → Use
  titles : Bytes → Use
  limits : ℕ → Use

module _ (vt : Vt100) where
  -- The size that the child should have: the view's, or the host's.
  abbrev pub child_size : Mirror vt → ℕ × ℕ
  child_size m = elim m.view [ none ↦ (m.host_rows, m.host_cols) | some v ↦ (v.rows, v.cols) ]

  abbrev pub ShadowFits : Option vt.Term → Option View → Type 0
  ShadowFits none none = Unit
  ShadowFits none (some v) = ⊥
  ShadowFits (some s) none = ⊥
  ShadowFits (some s) (some v) = vt.size s ≡ (v.rows, v.cols)

  pub record IsValid (m : Mirror vt) : Type 0 where
    pub fits : ShadowFits m.shadow m.view
    pub sized : vt.size m.parser ≡ child_size m

  -- The mirror with the size that the child was last told.
  abbrev pub transition : ℕ × ℕ → Mirror vt × Transition → Mirror vt × (ℕ × ℕ)
  transition told (m, t) = (m, unwrap_or t.child_size told)

  abbrev pub step : Mirror vt × (ℕ × ℕ) → Use → Option (Mirror vt × (ℕ × ℕ))
  step (m, told) (processes bytes) = process vt m bytes >>= λ r. some (r.0, told)
  step (m, told) (starts v) = some (transition told (start_view vt m v))
  step (m, told) ends = some (transition told (end_view vt m))
  step (m, told) (resizes r c) = some (transition told (host_resized vt m r c))
  step (m, told) (titles t) = some (set_title vt m t, told)
  step (m, told) (limits n) = some (set_history_limit vt m n, told)

  abbrev pub run : List Use → Mirror vt × (ℕ × ℕ) → Option (Mirror vt × (ℕ × ℕ))
  run [] s = some s
  run (u ∷ us) s = step s u >>= run us

  -- The child has been told the model's size.
  abbrev pub IsInStep : Mirror vt × (ℕ × ℕ) → Type 0
  IsInStep (m, told) = IsValid m × (vt.size m.parser ≡ told)

  -- What is shown of a view does not depend on the host.
  shown :
      (o : Option View) (a b : ℕ × ℕ)
      → is_some o ≡ true
      → ◌≡◌ {A = ℕ × ℕ}
          (elim o [ none ↦ a | some v ↦ (v.rows, v.cols) ])
          (elim o [ none ↦ b | some v ↦ (v.rows, v.cols) ])
  shown none a b h = absurd cc
  shown (some v) a b h = refl

  view_fits :
      (o : Option View) (s : Option vt.Term) {w : View} {shadow : vt.Term}
      → o ≡ some w
      → s ≡ some shadow
      → ShadowFits s o
      → vt.size shadow ≡ (w.rows, w.cols)
  view_fits none s eo es h = absurd cc
  view_fits (some v) none eo es h = elim h [ ]
  view_fits (some v) (some t) eo es h = cc

  module _ (laws : SizeLaws vt) where
    Keeps-IsValid : {m m' : Mirror vt} → Keeps vt (sizes vt laws) m m' → IsValid m → IsValid m'
    Keeps-IsValid {m} {m'} k v = record {
      fits = ground (arith, k.view_eq, k.shadow_eq, v.fits);
      sized = ground (arith, k.view_eq, k.host_rows_eq, k.host_cols_eq, k.like, v.sized);
    }

    start_view-IsInStep :
        (m : Mirror vt) (v : View) (told : ℕ × ℕ) → IsInStep (transition told (start_view vt m v))
    unfolding start_view rebuilt
    start_view-IsInStep m v told =
        let e = laws.size-process _ _ ∙ laws.size-new v.rows v.cols _ in
        (record { fits = laws.size-process _ _ ∙ laws.size-new v.rows v.cols 0; sized = e }, e)

    pub start_view-IsValid : (m : Mirror vt) (v : View) → IsValid (start_view vt m v).0
    start_view-IsValid m v = (start_view-IsInStep m v (0, 0)).0

    pub end_view-IsInStep :
        (m : Mirror vt) (told : ℕ × ℕ) → IsInStep (transition told (end_view vt m))
    unfolding end_view
    end_view-IsInStep m told = let e = laws.size-new _ _ _ in (record { fits = tt; sized = e }, e)

    pub host_resized-IsInStep :
        (m : Mirror vt) (r c : ℕ) (told : ℕ × ℕ)
        → IsInStep (m, told)
        → IsInStep (transition told (host_resized vt m r c))
    unfolding host_resized
    host_resized-IsInStep m r c told (v, e) =
        let sized : Mirror vt = record m { host_rows = r; host_cols = c } in
        let k = harvest-Keeps vt (sizes vt laws) sized in
        if_intro (λ (w : Mirror vt × Transition). IsInStep (transition told w)) (is_some m.view) _ _
          (λ h. (
            record {
              fits = v.fits;
              sized = v.sized ∙ shown m.view (m.host_rows, m.host_cols) (r, c) h;
            },
            e,
          ))
          (λ h.
            let hidden : child_size (harvest vt sized) ≡ (r, c) =
              ground (arith, k.view_eq, k.host_rows_eq, k.host_cols_eq, h) in
            let fits : ShadowFits (harvest vt sized).shadow (harvest vt sized).view =
              ground (arith, k.view_eq, k.shadow_eq, v.fits) in
            let e' = laws.size-set_size r c (harvest vt sized).parser in
            (record { fits = fits; sized = e' ∙ sym hidden }, e'))

    process_shadow-IsValid :
        (m : Mirror vt) (bytes : Bytes) (n : ℕ) (o : Option View) (s : Option vt.Term)
        → m.view ≡ o
        → m.shadow ≡ s
        → IsValid m
        → (r : Mirror vt × Output) × (process_shadow vt m o s bytes n ≡ some r)
          × IsValid r.0
          × (vt.size r.0.parser ≡ vt.size m.parser)
    unfolding process_shadow process_view pass_through
    process_shadow-IsValid m bytes n none s eo es v =
        let k = taken-Keeps vt (sizes vt laws) m in
        (pass_through vt m bytes, refl, Keeps-IsValid k v, k.like)
    process_shadow-IsValid m bytes n (some w) none eo es v = absurd (ground (arith, eo, es, v.fits))
    process_shadow-IsValid m bytes n (some w) (some shadow) eo es v =
        let k = taken-Keeps vt (sizes vt laws) m in
        let fits : vt.size shadow ≡ (w.rows, w.cols) = view_fits m.view m.shadow eo es v.fits in
        let there = k.view_eq ∙ eo in
        (
          process_view vt m w shadow bytes n,
          refl,
          record {
            fits =
                subst (ShadowFits (some (vt.process shadow bytes))) (sym there)
                  (laws.size-process shadow bytes ∙ fits);
            sized = (Keeps-IsValid k v).sized;
          },
          k.like,
        )

    pub process-IsValid :
        (m : Mirror vt) (bytes : Bytes)
        → IsValid m
        → (r : Mirror vt × Output) × (process vt m bytes ≡ some r)
          × IsValid r.0
          × (vt.size r.0.parser ≡ vt.size m.parser)
    unfolding process
    process-IsValid m bytes v =
        let k = slices-Keeps vt laws (chunks process_slice bytes) m in
        let (r, e, valid, same) =
          process_shadow-IsValid (process_slices vt (chunks process_slice bytes) m) bytes _ _ _ refl
            refl (Keeps-IsValid k v) in
        (r, e, valid, same ∙ k.like)

    step-IsInStep :
        (s : Mirror vt × (ℕ × ℕ)) (u : Use)
        → IsInStep s
        → (s' : Mirror vt × (ℕ × ℕ)) × (step s u ≡ some s') × IsInStep s'
    step-IsInStep (m, told) (processes bytes) (v, e) =
        let (r, p, valid, same) = process-IsValid m bytes v in
        ((r.0, told), rw p refl, (valid, same ∙ e))
    step-IsInStep (m, told) (starts w) h = (_, refl, start_view-IsInStep m w told)
    step-IsInStep (m, told) ends h = (_, refl, end_view-IsInStep m told)
    step-IsInStep (m, told) (resizes r c) h = (_, refl, host_resized-IsInStep m r c told h)
    step-IsInStep (m, told) (titles t) (v, e) =
        (_, refl, unfold set_title in (record { fits = v.fits; sized = v.sized }, e))
    step-IsInStep (m, told) (limits n) (v, e) =
        (_, refl, unfold set_history_limit in (record { fits = v.fits; sized = v.sized }, e))

    run-IsInStep :
        (us : List Use) (s : Mirror vt × (ℕ × ℕ))
        → IsInStep s
        → (s' : Mirror vt × (ℕ × ℕ)) × (run us s ≡ some s') × IsInStep s'
    run-IsInStep [] s h = (s, refl, h)
    run-IsInStep (u ∷ us) s h =
        let (s', e, h') = step-IsInStep s u h in
        let (s'', e', h'') = run-IsInStep us s' h' in (s'', rw e e', h'')

    -- Whatever a mirror goes through after its start (output, views that start and end, resizes of
    -- the host, titles, limits), it never misses the shadow that `process` expects: a shadow of the
    -- view's size is there exactly while there is a view. The model has the size of the view, or of
    -- the host if there is none, and that is the size that the child was last told.
    pub run-new-IsInStep :
        (us : List Use) (rows cols : ℕ)
        → (s : Mirror vt × (ℕ × ℕ)) × (run us (new vt rows cols, (rows, cols)) ≡ some s)
          × IsInStep s
    unfolding new
    run-new-IsInStep us rows cols =
        let e = laws.size-new rows cols _ in
        run-IsInStep us (new vt rows cols, (rows, cols)) (record { fits = tt; sized = e }, e)

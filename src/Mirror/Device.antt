-- ===== src/Mirror/Device.antt =====
-- The promise of src/mirror.rs to a viewing device: a terminal that is fed the snapshot and then
-- the remote stream shows the screen of the mirror's model, which is that of the app's output.
use g2mirror.Prelude.{
  ℕ, ◌≡◌, refl, sym, ◌∙◌, subst, List, [], ◌∷◌, Option, some, Bytes, ◌>>=◌, unwrap_or, arith,
  if_intro,
}
use g2mirror.Screen.{Vt100}
use g2mirror.Screen.Laws.{SizeLaws, DiffLaws}
use g2mirror.Session.View.{View}
use g2mirror.Mirror.State.{Mirror, Output, parse, process_slice}
use g2mirror.Mirror.Staging.{park, harvest}
use g2mirror.Mirror.Views.{start_view, rebuilt}
use g2mirror.Mirror.Process.{
  chunks, pushed_since, process_slices, process_view, process_shadow, process,
}
use g2mirror.Mirror.Keeps.{
  Unmoved, sizes, park-Keeps, harvest-Keeps, slices-Keeps, taken-parser, taken-Keeps,
}
use g2mirror.Mirror.Chunks.{join, join-chunks}

module _ (vt : Vt100) where
  -- The mirror and the device's terminal after chunks of output, each followed by its stream.
  abbrev pub feed : Mirror vt → vt.Term → List Bytes → Option (Mirror vt × vt.Term)
  feed m d [] = some (m, d)
  feed m d (bytes ∷ more) =
      process vt m bytes >>= λ r. feed r.0 (vt.process d (unwrap_or r.1.remote [])) more

  module _ (laws : SizeLaws vt) (diffs : DiffLaws vt) where
    -- The model's state, but for the scrollback, is the shadow's, whose screen the device shows.
    record IsFed (d : vt.Term) (m : Mirror vt) (w : View) (shadow : vt.Term) : Type 0 where
      viewing : m.view ≡ some w
      shadowed : m.shadow ≡ some shadow
      agrees : diffs.Same m.parser shadow
      sized : vt.size m.parser ≡ vt.size shadow
      at_end : vt.scrollback m.parser ≡ 0
      flat : vt.scrollback shadow ≡ 0
      looks : diffs.Looks d shadow

    abbrev same : Unmoved vt
    same = record {
      Like = diffs.Same;
      like_refl = diffs.same_refl;
      like_trans = diffs.same_trans;
      like-set = diffs.same-set;
    }

    scrollback-harvest : (m : Mirror vt) → vt.scrollback (harvest vt m).parser ≡ 0
    unfolding harvest
    scrollback-harvest m =
        if_intro (λ (r : Mirror vt). vt.scrollback r.parser ≡ 0) (vt.alternate_screen m.parser) _ _
          (λ e. diffs.scrollback-alternate m.parser e) (λ _. diffs.scrollback-set_zero _)

    scrollback-slices :
        (slices : List Bytes) (m : Mirror vt)
        → vt.scrollback m.parser ≡ 0
        → vt.scrollback (process_slices vt slices m).parser ≡ 0
    unfolding process_slices
    scrollback-slices [] m h = h
    scrollback-slices (slice ∷ slices) m h = scrollback-slices slices _ (scrollback-harvest _)

    -- In slices or at once, the bytes have the same effect.
    slices-Same :
        (slices : List Bytes) (m : Mirror vt) (t : vt.Term)
        → diffs.Same m.parser t
        → diffs.Same (process_slices vt slices m).parser (vt.process t (join slices))
    unfolding process_slices
    slices-Same [] m t h = diffs.same_trans _ _ _ h (diffs.same_sym _ _ (diffs.process-nil t))
    slices-Same (slice ∷ slices) m t h =
        let parked = (park-Keeps vt same m).like in
        let harvested = (harvest-Keeps vt same (parse vt (park vt m) slice)).like in
        let parsed = diffs.same-process _ t slice (diffs.same_trans _ _ _ parked h) in
        diffs.same_trans _ _ _
          (slices-Same slices _ (vt.process t slice) (diffs.same_trans _ _ _ harvested parsed))
          (diffs.process-append t slice (join slices))

    start_view-IsFed :
        (m : Mirror vt) (w : View) (d : vt.Term)
        → (let snapshot = unwrap_or (start_view vt m w).1.remote_output [] in
            diffs.Looks (vt.process d snapshot) (vt.process (vt.new w.rows w.cols 0) snapshot)
            → IsFed
                (vt.process d snapshot)
                (start_view vt m w).0
                w
                (vt.process (vt.new w.rows w.cols 0) snapshot))
    unfolding start_view rebuilt
    start_view-IsFed m w d looks = record {
      viewing = refl;
      shadowed = refl;
      agrees = diffs.same-process _ _ _ (diffs.same-new w.rows w.cols _ 0);
      sized =
          laws.size-process _ _
          ∙ laws.size-new w.rows w.cols _
          ∙ sym (laws.size-process _ _ ∙ laws.size-new w.rows w.cols 0);
      at_end = diffs.scrollback-process _ _ (diffs.scrollback-new w.rows w.cols _);
      flat = diffs.scrollback-process _ _ (diffs.scrollback-new w.rows w.cols 0);
      looks = looks;
    }

    process_view-IsFed :
        (m : Mirror vt) (w : View) (s : vt.Term) (d : vt.Term) (bytes : Bytes) (n : ℕ)
        → m.view ≡ some w
        → vt.size m.parser ≡ vt.size s
        → diffs.Same m.parser (vt.process s bytes)
        → vt.scrollback m.parser ≡ 0
        → vt.scrollback s ≡ 0
        → diffs.Looks d s
        → IsFed
            (vt.process d (vt.state_diff m.parser s))
            (process_view vt m w s bytes n).0
            w
            (vt.process s bytes)
    unfolding process_view
    process_view-IsFed m w s d bytes n viewing sized agrees at_end flat looks =
        let e = taken-parser vt m in
        let like = λ (P : vt.Term → Type 0) (h : P m.parser). subst P (sym e) h in
        record {
          viewing = (taken-Keeps vt (sizes vt laws) m).view_eq ∙ viewing;
          shadowed = refl;
          agrees = like (λ t. diffs.Same t (vt.process s bytes)) agrees;
          sized =
              like (λ t. vt.size t ≡ vt.size (vt.process s bytes))
                (sized ∙ sym (laws.size-process s bytes));
          at_end = like (λ t. vt.scrollback t ≡ 0) at_end;
          flat = diffs.scrollback-process s bytes flat;
          looks =
              diffs.looks-same _ m.parser _
                (diffs.looks-state_diff d m.parser s at_end flat sized looks) agrees;
        }

    process-IsFed :
        (m : Mirror vt) (w : View) (s : vt.Term) (d : vt.Term) (bytes : Bytes)
        → IsFed d m w s
        → (r : Mirror vt × Output) × (process vt m bytes ≡ some r)
          × IsFed (vt.process d (unwrap_or r.1.remote [])) r.0 w (vt.process s bytes)
    unfolding process process_shadow
    process-IsFed m w s d bytes h =
        let slices = chunks process_slice bytes in
        let k = slices-Keeps vt laws slices m in
        let view_eq = k.view_eq ∙ h.viewing in
        let shadow_eq = k.shadow_eq ∙ h.shadowed in
        let n = pushed_since m.history (process_slices vt slices m).history in
        let agrees =
          subst (λ b. diffs.Same (process_slices vt slices m).parser (vt.process s b))
            (join-chunks process_slice bytes (omega arith)) (slices-Same slices m s h.agrees) in
        (
          process_view vt (process_slices vt slices m) w s bytes n,
          λ i. process_shadow vt (process_slices vt slices m) (view_eq i) (shadow_eq i) bytes n,
          process_view-IsFed (process_slices vt slices m) w s d bytes n view_eq (k.like ∙ h.sized)
              agrees (scrollback-slices slices m h.at_end) h.flat h.looks,
        )

    feed-IsFed :
        (more : List Bytes) (m : Mirror vt) (w : View) (s : vt.Term) (d : vt.Term)
        → IsFed d m w s
        → (r : Mirror vt × vt.Term) × (feed m d more ≡ some r)
          × diffs.Looks r.1 r.0.parser
          × diffs.Same r.0.parser (vt.process s (join more))
    feed-IsFed [] m w s d h = (
      (m, d),
      refl,
      diffs.looks-same d s m.parser h.looks (diffs.same_sym _ _ h.agrees),
      diffs.same_trans _ _ _ h.agrees (diffs.same_sym _ _ (diffs.process-nil s)),
    )
    feed-IsFed (bytes ∷ more) m w s d h =
        let (r, e, fed) = process-IsFed m w s d bytes h in
        let (r', e', looks, agrees) = feed-IsFed more r.0 w (vt.process s bytes) _ fed in
        (
          r',
          rw e e',
          looks,
          diffs.same_trans _ _ _ agrees (diffs.process-append s bytes (join more)),
        )

    -- A view starts, and the device's terminal, fed the snapshot, shows what a terminal of the
    -- view's size makes of it. Then after any chunks of the app's output, the mirror has not
    -- missed its shadow; the device, fed the stream of each chunk, shows the screen of the
    -- mirror's model; and the model's state, but for the scrollback, is what a terminal of the
    -- view's size makes of the snapshot and all the output.
    pub feed-start_view :
        (m : Mirror vt) (w : View) (d : vt.Term) (more : List Bytes)
        → (let snapshot = unwrap_or (start_view vt m w).1.remote_output [] in
            let primed = vt.process (vt.new w.rows w.cols 0) snapshot in
            diffs.Looks (vt.process d snapshot) primed
            → (r : Mirror vt × vt.Term) × (feed (start_view vt m w).0 (vt.process d snapshot) more
                ≡ some r)
              × diffs.Looks r.1 r.0.parser
              × diffs.Same r.0.parser (vt.process primed (join more)))
    feed-start_view m w d more looks =
        feed-IsFed more (start_view vt m w).0 w _ _ (start_view-IsFed m w d looks)

-- ===== src/Mirror/Model.antt =====
-- `Mirror` of src/mirror.rs as the mirror of the session: it fills the interface that the view and
-- the handlers of src/main.rs are proved over.
use g2mirror.Prelude.{◌≡◌, refl, none, some}
use g2mirror.Screen.{Vt100}
use g2mirror.Session.View.{View, MirrorModel}
use g2mirror.Mirror.State.{Mirror, host_size}
use g2mirror.Mirror.Views.{start_view, rebuilt, end_view}

module _ (vt : Vt100) where
  pub view-start : (m : Mirror vt) (v : View) → (start_view vt m v).0.view ≡ some v
  unfolding start_view rebuilt
  view-start m v = refl

  pub view-end : (m : Mirror vt) → (end_view vt m).0.view ≡ none
  unfolding end_view
  view-end m = refl

  abbrev pub mirror_model : MirrorModel
  mirror_model = record {
    Mirror = Mirror vt;
    view = λ m. m.view;
    host_size = host_size vt;
    title = λ m. m.title;
    history = λ m. m.history;
    start_view = start_view vt;
    end_view = end_view vt;
    view-start = view-start;
    view-end = view-end;
  }

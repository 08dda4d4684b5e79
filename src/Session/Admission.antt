-- ===== src/Session/Admission.antt =====
-- The first message of a connection, and the turns of the main loop that the clients take
-- (`run_async` of src/main.rs).
pub mod Roles
pub mod Sizes
mod Tests
use g2mirror.Prelude.{
  ℕ, zero, suc, ◌+◌, Bool, true, false, not, ◌&&◌, ◌||◌, List, [], ◌∷◌, ◌++◌, Option, none, some,
  unwrap_or, Bytes, any, ◌==◌, if◌then◌else◌,
}
use g2mirror.Prelude.Results.{Result, ok, err}
use g2mirror.Session.Client.{
  is_host_role, Client, Role, host, viewer, ready, FromSession, title, error, SessionError,
  unsupported_version, invalid_dimensions, has_real_host, already_attached, taken_over, send,
  is_host, is_live_host,
}
use g2mirror.Session.View.{MirrorModel}
use g2mirror.Session.Sweep.{Clients, sweep_and_refresh}
use g2mirror.Session.Handler.{
  Init, ToSession, Outcome, done, fails, crashes, at, Session, with_viewers, handle_viewer_message,
}

abbrev pub session_version : ℕ
session_version = 1

-- The chain of checks of an init message.
pub reject : Bool → Bool → Init → Option SessionError
reject headless host_role_held fields =
    if not (fields.version == session_version)
    then some unsupported_version
    else if fields.width == 0 || fields.height == 0
    then some invalid_dimensions
    else if is_host_role fields.role && not headless
    then some has_real_host
    else if is_host_role fields.role && host_role_held && not fields.force
    then some already_attached
    else none

-- `--force`: the holders of the host role are told, and die.
pub displace : List Client → List Client
displace [] = []
displace (c ∷ cs) =
    (if is_host c then record (send c (error taken_over)).0 { dead = true } else c) ∷ displace cs

-- The pending client as its init message describes it.
pub described : Client → Init → Client
described p fields = record p {
  device = fields.device;
  width = fields.width;
  height = fields.height;
  size_rank = unwrap_or fields.size_rank 0;
  role = fields.role;
  state = ready;
}

-- The viewers with the new one, unless the title cannot be sent to it.
pub welcome : Option Bytes → Client → List Client → List Client
welcome none p viewers = viewers ++ p ∷ []
welcome (some t) p viewers =
    let (p', went) = send p (title t) in if went then viewers ++ p' ∷ [] else viewers

module _ (mm : MirrorModel) where
  -- An accepted client joins the viewers; a rejected one is told why and forgotten.
  pub admit : Session mm → Client → Init → Session mm
  unfolding reject displace described welcome
  admit s p fields =
      let held = any is_live_host s.clients.viewers in
      let stay =
        if is_host_role fields.role && held
        then displace s.clients.viewers
        else s.clients.viewers in
      elim (reject s.headless held fields) [
        | some e ↦ s
        | none ↦
            record (with_viewers mm s
              (welcome (mm.title s.clients.mirror) (described p fields) stay)) {
                host_rank = unwrap_or fields.host_size_rank s.host_rank;
              }
      ]

  -- `sweep_and_refresh(…).await?`, whose error, `false`, ends the wrapper.
  pub sweep : Session mm → Option (Session mm × Bool)
  sweep s = elim (sweep_and_refresh mm s.clients s.host_rank s.headless) [
    | none ↦ none
    | some (clients, works) ↦ some (record s { clients = clients }, works)
  ]

  -- The arm of a pending connection's init message.
  pub on_init : Session mm → Client → Init → Option (Session mm × Bool)
  unfolding admit sweep
  on_init s p fields = sweep (admit s p fields)

  -- `let _ = viewers[i].send(…).await; viewers[i].dead = true;`
  abbrev pub expel : SessionError → Client → Client
  expel e c = record (send c (error e)).0 { dead = true }

  -- What is left of viewer `i` after its message.
  abbrev pub settle : Session mm → ℕ → Outcome → Session mm
  settle s i done = s
  settle s i crashes = s
  settle s i (fails e) = with_viewers mm s (at i (expel e) s.clients.viewers)

  module _ (decode : Bytes → Option Bytes) (clock : ℕ → ℕ) (pty : ℕ → Bool) where
    -- The arm of viewer `i`: a message, or the end of its stream.
    pub on_viewer : Session mm → ℕ → Option ToSession → Option (Session mm × Bool)
    unfolding sweep
    on_viewer s i none =
        sweep (with_viewers mm s (at i (λ c. record c { dead = true }) s.clients.viewers))
    on_viewer s i (some message) =
        let (s', o) = handle_viewer_message mm decode clock pty s i message in sweep (settle s' i o)

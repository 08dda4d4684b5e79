-- ===== src/Server/Launch/Granted.antt =====
-- What a launch request cannot get around (`launch_session` of src/bin/g2mirror-server.rs).
use g2mirror.Prelude.{
  ap, sym, ◌∙◌, ◌≡◌, ◌⊎◌, inl, inr, refl, true, false, not, ◌&&◌, ◌||◌, ◌==◌, List, [], ◌∷◌, ◌++◌,
  Option, none, some, unwrap_or, Bytes, is_empty, ascii, Bool-cases, arith,
}
use g2mirror.Prelude.Maps.{lookup}
use g2mirror.Prelude.Results.{ok, err, ok_or, bind_ok, ensure_ok, ok_injective, ok_or_ok}
use g2mirror.Server.Config.{
  RegexEngine, CompiledRule, filter_allows, LaunchPreset, TokenConfig, Config, allows,
}
use g2mirror.Server.Config.Sees.{Sees, filter_allows-Sees}
use g2mirror.Server.Protocol.{
  may_not_launch, no_such_preset, no_cwd_override, bad_directory, would_hide,
}
use g2mirror.Server.Launch.{
  Command, System, launch_command, requested_cwd, expand_tilde, starts_with_slash,
}

-- The path `asked` is the home directory or in it, written with a tilde.
abbrev pub IsHome : Bytes → Bytes → Type 0
IsHome asked rest = (asked ≡ b'~' ∷ rest) × ((rest ≡ []) ⊎ ((more : Bytes) × (rest ≡ b'/' ∷ more)))

-- A leading tilde that is a part of its own stands for the home directory, if there is one.
abbrev pub Expands : Option Bytes → Bytes → Bytes → Type 0
Expands home asked path =
    ((h : Bytes) × (rest : Bytes) × (home ≡ some h) × IsHome asked rest × (path ≡ h ++ rest))
    ⊎ (((home ≡ none) ⊎ ((rest : Bytes) → ¬ IsHome asked rest)) × (path ≡ asked))

-- The directory that is asked for: with no override the preset's or else the home directory, and
-- an override only of a preset that allows it.
abbrev pub Asks : LaunchPreset → Option Bytes → Bytes → Type 0
Asks preset override asked =
    ((override ≡ none) × (asked ≡ unwrap_or preset.cwd (ascii "~")))
    ⊎ ((override ≡ some asked) × (preset.allow_cwd ≡ true))

-- A command as the configuration and the token allow it.
pub record IsGranted (engine : RegexEngine) (system : System) (config : Config)
    (token : TokenConfig) (rules : List (CompiledRule engine)) (name : Bytes)
    (override : Option Bytes) (command : Command) : Type 0 where
  pub preset : LaunchPreset
  pub writable : token.readonly ≡ false
  pub allowed : allows token.launch name ≡ true
  pub configured : lookup config.launch name ≡ some preset
  pub named : command.launched ≡ name
  pub titled : command.title ≡ unwrap_or preset.title name
  pub own_readonly : command.readonly ≡ preset.readonly
  pub own_scrollback : command.scrollback ≡ preset.scrollback
  pub own_size : command.initial_size ≡ preset.size
  pub own_argv : command.argv ≡ preset.argv
  pub own_envs : command.envs ≡ preset.env
  pub asked : Bytes
  pub asks : Asks preset override asked
  pub path : Bytes
  pub expands : Expands system.home asked path
  pub real : system.canonicalize path ≡ some command.current_dir
  pub visible : Sees engine rules (some command.current_dir) (some command.title)

tilde_part :
    (rest : Bytes)
    → (is_empty rest || starts_with_slash rest) ≡ true
    → (rest ≡ []) ⊎ ((more : Bytes) × (rest ≡ b'/' ∷ more))
tilde_part [] h = inl refl
tilde_part (c ∷ cs) h = inr (cs, let e : c ≡ b'/' = ground (arith, h) in ap (λ b. b ∷ cs) e)

part_tilde :
    (rest : Bytes)
    → (rest ≡ []) ⊎ ((more : Bytes) × (rest ≡ b'/' ∷ more))
    → (is_empty rest || starts_with_slash rest) ≡ true
part_tilde rest (inl e) = rw e refl
part_tilde rest (inr (more, e)) = rw e refl

expand_tilde-Expands :
    (home : Option Bytes) (asked : Bytes) → Expands home asked (expand_tilde home asked)
unfolding expand_tilde
expand_tilde-Expands none [] = inr (inl refl, refl)
expand_tilde-Expands none (c ∷ rest) = inr (inl refl, refl)
expand_tilde-Expands (some home) [] = inr (inr (λ rest (e, p). absurd cc), refl)
expand_tilde-Expands (some home) (c ∷ rest) =
    elim (Bool-cases (c == b'~' && (is_empty rest || starts_with_slash rest))) [
      | inl homed ↦
          let e : c ≡ b'~' = ground (arith, homed) in
          inl (
            home,
            rest,
            refl,
            (ap (λ b. b ∷ rest) e, tilde_part rest (ground (arith, homed))),
            rw (expand_tilde, homed) refl,
          )
      | inr other ↦ inr (
        inr (λ r (e, p).
            let tilde : c ≡ b'~' = cc in
            let same_rest : rest ≡ r = cc in
            let part : (is_empty rest || starts_with_slash rest) ≡ true =
              rw same_rest (part_tilde r p) in
            ground (arith, other, tilde, part)),
        rw (expand_tilde, other) refl,
      )
    ]

requested_cwd-Asks :
    (preset : LaunchPreset) (override : Option Bytes) {cwd : Bytes}
    → requested_cwd preset override ≡ ok cwd
    → Asks preset override cwd
unfolding requested_cwd
requested_cwd-Asks preset none h = inl (refl, sym (ok_injective h))
requested_cwd-Asks preset (some cwd) h =
    let (allowed, h1) = ensure_ok preset.allow_cwd no_cwd_override _ h in
    inr (ap some (ok_injective h1), allowed)

module _ (engine : RegexEngine) (system : System) where
  -- Whatever a launch request asks for, a command is run only for a writable token that is granted
  -- the preset of that name, and the token's filter shows the new session. The command is the
  -- preset's: its argv, environment, scrollback, size and read-only flag, its title or else its
  -- name. Its directory is, tilde expanded and made canonical, the one of the request if the preset
  -- allows that, and with none in the request the preset's or else the home directory.
  pub launch_command-IsGranted :
      (config : Config) (token : TokenConfig) (rules : List (CompiledRule engine)) (name : Bytes)
      (override : Option Bytes) (command : Command)
      → launch_command engine system config token rules name override ≡ ok command
      → IsGranted engine system config token rules name override command
  unfolding launch_command
  launch_command-IsGranted config token rules name override command h =
      let (granted, h1) =
        ensure_ok (not token.readonly && allows token.launch name) may_not_launch _ h in
      let (preset, found, h2) = bind_ok (ok_or (lookup config.launch name) no_such_preset) _ h1 in
      let (asked, asks, h3) = bind_ok (requested_cwd preset override) _ h2 in
      let path = expand_tilde system.home asked in
      let (cwd, real, h4) = bind_ok (ok_or (system.canonicalize path) bad_directory) _ h3 in
      let (visible, h5) =
        ensure_ok (filter_allows engine rules (some cwd) (some (unwrap_or preset.title name)))
          would_hide _ h4 in
      let e = sym (ok_injective h5) in
      record {
        preset = preset;
        writable = ground (arith, granted);
        allowed = ground (arith, granted);
        configured = ok_or_ok (lookup config.launch name) no_such_preset found;
        named = ap (λ c. c.launched) e;
        titled = ap (λ c. c.title) e;
        own_readonly = ap (λ c. c.readonly) e;
        own_scrollback = ap (λ c. c.scrollback) e;
        own_size = ap (λ c. c.initial_size) e;
        own_argv = ap (λ c. c.argv) e;
        own_envs = ap (λ c. c.envs) e;
        asked = asked;
        asks = requested_cwd-Asks preset override asks;
        path = path;
        expands = expand_tilde-Expands system.home asked;
        real =
            ok_or_ok (system.canonicalize path) bad_directory real
            ∙ ap (λ c. some c.current_dir) (ok_injective h5);
        visible =
            filter_allows-Sees engine rules (some command.current_dir) (some command.title) (
              ap (λ c. filter_allows engine rules (some c.current_dir) (some c.title)) e ∙ visible);
      }

  -- A read-only token launches nothing.
  pub launch_command-readonly :
      (config : Config) (token : TokenConfig) (rules : List (CompiledRule engine)) (name : Bytes)
      (override : Option Bytes)
      → token.readonly ≡ true
      → launch_command engine system config token rules name override ≡ err may_not_launch
  unfolding launch_command
  launch_command-readonly config token rules name override r = rw r refl

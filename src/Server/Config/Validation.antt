-- ===== src/Server/Config/Validation.antt =====
-- What `validate_launch` of src/bin/g2mirror-server.rs makes sure of at startup.
use g2mirror.Prelude.{
  ◌∙◌, sym, ◌≡◌, refl, true, false, not, List, [], ◌∷◌, Option, none, some, Bytes, All, is_empty,
  arith,
}
use g2mirror.Prelude.Maps.{Map, contains_key}
use g2mirror.Prelude.Results.{◌>>◌, ◌>>◌, ok, ensure, bind_ok, ensure_ok, ensure-true}
use g2mirror.Server.Config.{
  LaunchGrant, flag, named, is_none, TokenConfig, LaunchPreset, Config, tokens, parse_preset_size,
  check_size, check_named, check_preset, check_presets, check_names, check_grant, check_grants,
  validate_launch, empty_argv, bad_size, no_such_preset, readonly_grant,
}

-- A preset that can be started: it has a command, and its size, if any, parses.
abbrev pub IsStartable : LaunchPreset → Type 0
IsStartable preset =
    (is_empty preset.argv ≡ false)
    × ((size : Bytes) → preset.size ≡ some size → parse_preset_size size ≡ true)

-- A grant that makes sense: only a writable token has one, and what it names exists.
abbrev pub IsSound : Config → TokenConfig → Type 0
IsSound config token =
    is_none token.launch ≡ false
    → (token.readonly ≡ false)
      × ((names : List Bytes)
          → token.launch ≡ named names
          → All (λ n. contains_key config.launch n ≡ true) names)

check_size-parses :
    (name : Bytes) (o : Option Bytes)
    → check_size name o ≡ ok tt
    → (size : Bytes) → o ≡ some size
    → parse_preset_size size ≡ true
unfolding check_size
check_size-parses name none h size e = absurd cc
check_size-parses name (some s) h size e =
    let f : s ≡ size = cc in rw (sym f) (ensure-true (parse_preset_size s) (bad_size name s) h)

check_preset-IsStartable :
    (name : Bytes) (preset : LaunchPreset) → check_preset name preset ≡ ok tt → IsStartable preset
unfolding check_preset
check_preset-IsStartable name preset h =
    let (full, k) = ensure_ok (not (is_empty preset.argv)) (empty_argv name) _ h in
    (ground (arith, full), check_size-parses name preset.size k)

check_names-All :
    (config : Config) (token : Bytes) (names : List Bytes)
    → check_names config token names ≡ ok tt
    → All (λ n. contains_key config.launch n ≡ true) names
unfolding check_names
check_names-All config token [] h = tt
check_names-All config token (name ∷ names) h =
    let (known, k) = ensure_ok (contains_key config.launch name) (no_such_preset token name) _ h in
    (known, check_names-All config token names k)

check_named-All :
    (config : Config) (token : Bytes) (grant : LaunchGrant)
    → check_named config token grant ≡ ok tt
    → (names : List Bytes) → grant ≡ named names
    → All (λ n. contains_key config.launch n ≡ true) names
unfolding check_named
check_named-All config token (flag all) h names e = absurd cc
check_named-All config token (named ns) h names e =
    let f : ns ≡ names = cc in rw (sym f) (check_names-All config token ns h)

check_grant-IsSound :
    (config : Config) (token : TokenConfig)
    → check_grant config token ≡ ok tt
    → IsSound config token
unfolding check_grant
check_grant-IsSound config token h granted =
    let checked : check_grant config token ≡ (
        ensure (not token.readonly) (readonly_grant token.name)
        >> check_named config token.name token.launch) =
      rw (check_grant, granted) refl in
    let (writable, k) =
      ensure_ok (not token.readonly) (readonly_grant token.name) _ (sym checked ∙ h) in
    (ground (arith, writable), check_named-All config token.name token.launch k)

check_presets-All :
    (presets : Map LaunchPreset)
    → check_presets presets ≡ ok tt
    → All (λ p. IsStartable p.1) presets
unfolding check_presets
check_presets-All [] h = tt
check_presets-All ((name, preset) ∷ presets) h =
    let (u, e, k) = bind_ok (check_preset name preset) _ h in
    (check_preset-IsStartable name preset e, check_presets-All presets k)

check_grants-All :
    (config : Config) (ts : List TokenConfig)
    → check_grants config ts ≡ ok tt
    → All (IsSound config) ts
unfolding check_grants
check_grants-All config [] h = tt
check_grants-All config (token ∷ ts) h =
    let (u, e, k) = bind_ok (check_grant config token) _ h in
    (check_grant-IsSound config token e, check_grants-All config ts k)

-- A configuration that passes the startup check has only presets that can be started, and only
-- writable tokens with a launch grant, each of which names presets that exist.
pub validate_launch-ok :
    (config : Config)
    → validate_launch config ≡ ok tt
    → All (λ p. IsStartable p.1) config.launch × All (IsSound config) (tokens config)
unfolding validate_launch
validate_launch-ok config h =
    let (u, e, k) = bind_ok (check_presets config.launch) _ h in
    (check_presets-All config.launch e, check_grants-All config (tokens config) k)

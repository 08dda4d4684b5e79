-- ===== src/Server/AddToken.antt =====
-- `add_token` of src/bin/g2mirror-server.rs up to the text that it writes. The config that the text
-- parses to, the printing of JSON, the digest and the new token are parameters.
pub mod Asked
pub mod Added
mod Tests
use g2mirror.Prelude.{
  ℕ, ◌+◌, Bool, true, false, not, ◌&&◌, ◌||◌, List, [], ◌∷◌, ◌++◌, Option, none, some, is_some,
  Bytes, any, ◌==◌, if◌then◌else◌, same, ascii,
}
use g2mirror.Prelude.Maps.{contains_key}
use g2mirror.Prelude.Results.{Result, ok, err, ◌>>=◌, ◌>>◌, ensure, ok_or}
use g2mirror.Server.Config.{LaunchGrant, flag, named, is_none, TokenConfig, Config, tokens}
use g2mirror.Server.Auth.{hex}
use g2mirror.Server.Splice.{Spliced, SpliceError, insert_token_text}

pub data AddError : Type 0 where
  requires_preset : AddError
  unexpected : Bytes → AddError
  usage : AddError
  reserved : AddError
  requires_writable : AddError
  unparsable : AddError
  exists : Bytes → AddError
  no_preset : Bytes → AddError
  broken_array : SpliceError → AddError
  reparse_failed : AddError

-- What the arguments ask for.
pub record Request : Type 0 where
  pub name : Option Bytes
  pub writable : Bool
  pub launch_all : Bool
  pub launch_names : List Bytes

abbrev pub nothing_asked : Request
nothing_asked = record { name = none; writable = false; launch_all = false; launch_names = [] }

abbrev pub starts_with_dash : Bytes → Bool
starts_with_dash [] = false
starts_with_dash (c ∷ cs) = c == b'-'

unfoldable pub request_from : Request → List Bytes → Result AddError Request
request_from r [] = ok r
request_from r (arg ∷ []) =
    if same arg (ascii "--writable")
    then ok (record r { writable = true })
    else (if same arg (ascii "--launch-all")
        then ok (record r { launch_all = true })
        else (if same arg (ascii "--launch")
            then err requires_preset
            else (if not (starts_with_dash arg) && not (is_some r.name)
                then ok (record r { name = some arg })
                else err (unexpected arg))))
request_from r (arg ∷ next ∷ args) =
    let writable = request_from (record r { writable = true }) (next ∷ args) in
    let all = request_from (record r { launch_all = true }) (next ∷ args) in
    let one = request_from (record r { launch_names = r.launch_names ++ next ∷ [] }) args in
    let named = request_from (record r { name = some arg }) (next ∷ args) in
    if same arg (ascii "--writable")
    then writable
    else (if same arg (ascii "--launch-all")
        then all
        else (if same arg (ascii "--launch")
            then one
            else (if not (starts_with_dash arg) && not (is_some r.name)
                then named
                else err (unexpected arg))))

abbrev pub grant_of : Request → LaunchGrant
grant_of r = if r.launch_all then flag true else named r.launch_names

unfoldable pub presets_exist : Config → List Bytes → Result AddError (Unit {0})
presets_exist config [] = ok tt
presets_exist config (preset ∷ presets) = do
  ensure (contains_key config.launch preset) (no_preset preset)
  presets_exist config presets

unfoldable pub grant_exists : Config → LaunchGrant → Result AddError (Unit {0})
unfolding presets_exist
grant_exists config (flag all) = ok tt
grant_exists config (named names) = presets_exist config names

module _ (sha256 : Bytes → Bytes) where
  abbrev pub entry_of : Request → Bytes → Bytes → TokenConfig
  entry_of r name token = record {
    name = name;
    token_hash = hex (sha256 token);
    readonly = not r.writable;
    filter = [];
    launch = grant_of r;
  }

  -- The checks, up to the new entry.
  unfoldable pub new_entry :
      Request → Bytes → Option Config → Bytes → Result AddError (Config × TokenConfig)
  unfolding grant_exists
  new_entry r name parsed token = do
    ensure (not (same name (ascii "host"))) reserved
    ensure (is_none (grant_of r) || r.writable) requires_writable
    config ← ok_or parsed unparsable
    ensure (not (any (λ t. same t.name name) (tokens config))) (exists name)
    grant_exists config (grant_of r)
    ok (config, entry_of r name token)

  module _ (parse_config : Bytes → Option Config) (pretty : TokenConfig → Bytes)
      (pretty_config : Config → Bytes) where
    -- The text that is written back; a config without the array is printed anew.
    unfoldable pub edited : Bytes → Config → TokenConfig → Spliced → Option (Result AddError Bytes)
    edited text config entry none = none
    edited text config entry (some (err e)) = some (err (broken_array e))
    edited text config entry (some (ok (some t))) = some (ok t)
    edited text config entry (some (ok none)) = some (
        ok (
          pretty_config (record config { auth_tokens = config.auth_tokens ++ entry ∷ [] })
          ++ ascii "\n"))

    abbrev pub reparsed : Option (Result AddError Bytes) → Option (Result AddError Bytes)
    reparsed none = none
    reparsed (some (err e)) = some (err e)
    reparsed (some (ok t)) = some (if is_some (parse_config t) then ok t else err reparse_failed)

    abbrev pub written :
        Bytes → Result AddError (Config × TokenConfig) → Option (Result AddError Bytes)
    written text (err e) = some (err e)
    written text (ok (config, entry)) =
        reparsed (edited text config entry (insert_token_text text (pretty entry)))

    abbrev pub named_entry :
        Bytes → Bytes → Result AddError Request → Result AddError (Config × TokenConfig)
    named_entry text token asked = do
      r ← asked
      name ← ok_or r.name usage
      new_entry r name (parse_config text) token

    -- `none`: a panic of the splice.
    unfoldable pub add_token : List Bytes → Bytes → Bytes → Option (Result AddError Bytes)
    unfolding request_from new_entry edited
    add_token args text token =
        written text (named_entry text token (request_from nothing_asked args))

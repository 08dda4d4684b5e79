-- ===== src/Server/AddToken/Added.antt =====
-- What a token that `add_token` of src/bin/g2mirror-server.rs adds is like, and what it writes.
use g2mirror.Prelude.{
  ◌≡◌, ◌⊎◌, true, false, not, List, [], ◌∷◌, ◌++◌, Option, some, is_some, Bytes, any, is_empty,
  same, ascii, if◌then◌else◌,
}
use g2mirror.Server.Config.{flag, named, TokenConfig, Config, tokens}
use g2mirror.Server.Config.Validation.{IsSound}
use g2mirror.Server.Auth.{hex}
use g2mirror.Server.Splice.Kept.{Splices}
use g2mirror.Server.AddToken.Asked.{Item, spell, any_writes, any_all, presets, positional, NoFlags}

-- The entry is what the arguments spell: one name that is no flag, writable with `--writable`, and
-- the grant of `--launch-all`, or else of the presets behind each `--launch`, in order.
pub record IsAsked (args : List Bytes) (entry : TokenConfig) : Type 0 where
  pub items : List Item
  pub spelled : args ≡ spell items
  pub no_flags : NoFlags items
  pub named_once : entry.name ∷ [] ≡ positional items
  pub own_readonly : entry.readonly ≡ not (any_writes items)
  pub own_launch : entry.launch ≡ (if any_all items then flag true else named (presets items))

module _ (sha256 : Bytes → Bytes) where
  -- A new entry for the config that the text parses to.
  pub record IsNew (parsed : Option Config) (token : Bytes) (config : Config) (entry : TokenConfig)
      : Type 0 where
    pub parses : parsed ≡ some config
    pub not_host : same entry.name (ascii "host") ≡ false
    pub unused : any (λ t. same t.name entry.name) (tokens config) ≡ false
    pub hash_only : entry.token_hash ≡ hex (sha256 token)
    pub unfiltered : is_empty entry.filter ≡ true
    pub sound : IsSound config entry

  module _ (parse_config : Bytes → Option Config) (pretty : TokenConfig → Bytes)
      (pretty_config : Config → Bytes) where
    -- What is written: the old text with the entry inserted, or the config printed anew with it.
    abbrev pub Carries : Bytes → Config → TokenConfig → Bytes → Type 0
    Carries text config entry out =
        Splices text (pretty entry) out
        ⊎ (out
            ≡ pretty_config (record config { auth_tokens = config.auth_tokens ++ entry ∷ [] })
              ++ ascii "\n")

    -- The arguments, the text, the token and what is written: for a config and an entry.
    abbrev pub Adds : List Bytes → Bytes → Bytes → Bytes → Type 0
    Adds args text token out =
        (config : Config) × (entry : TokenConfig) × IsNew (parse_config text) token config entry
        × IsAsked args entry
        × (is_some (parse_config out) ≡ true)
        × Carries text config entry out

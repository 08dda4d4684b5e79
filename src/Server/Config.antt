-- ===== src/Server/Config.antt =====
-- The server's configuration (src/bin/g2mirror-server.rs): tokens, filters, launch presets and the
-- size policy. JSON parsing is left out; the regex engine is a parameter.
pub mod Validation
pub mod Ranks
pub mod Filters
pub mod Sees
mod Tests
use g2mirror.Prelude.{
  is_empty, ℕ, suc, ◌+◌, ◌%◌, Bool, true, false, not, ◌&&◌, ◌||◌, List, [], ◌∷◌, ◌++◌, Option, none,
  some, is_some, unwrap_or, Bytes, length, any, ltb, ◌==◌, if◌then◌else◌, same, ascii, u16_mod,
  u32_mod,
}
use g2mirror.Prelude.Decimal.{parse}
use g2mirror.Prelude.Maps.{Map, entry, get_or, contains_key}
use g2mirror.Prelude.Results.{Result, ok, ◌>>=◌, ◌>>◌, ensure, ok_or}

-- The regex crate: its compiled form, `Regex::new` and `is_match`.
pub record RegexEngine : Type 1 where
  pub Regex : Type 0
  pub new : Bytes → Option Regex
  pub is_match : Regex → Bytes → Bool

pub data LaunchGrant : Type 0 where
  flag : Bool → LaunchGrant
  named : List Bytes → LaunchGrant

abbrev pub allows : LaunchGrant → Bytes → Bool
allows (flag all) preset = all
allows (named names) preset = any (λ n. same n preset) names

abbrev pub is_none : LaunchGrant → Bool
is_none (flag all) = not all
is_none (named names) = is_empty names

pub record FilterRule : Type 0 where
  pub path : Option Bytes
  pub windowtitle : Option Bytes

pub record TokenConfig : Type 0 where
  pub name : Bytes
  pub token_hash : Bytes
  pub readonly : Bool
  pub filter : List FilterRule
  pub launch : LaunchGrant

pub record LaunchPreset : Type 0 where
  pub argv : List Bytes
  pub cwd : Option Bytes
  pub title : Option Bytes
  pub env : Map Bytes
  pub allow_cwd : Bool
  pub scrollback : Option ℕ
  pub readonly : Bool
  pub size : Option Bytes

pub data ListenAddrs : Type 0 where
  one : Bytes → ListenAddrs
  many : List Bytes → ListenAddrs

pub addresses : ListenAddrs → List Bytes
addresses (one addr) = addr ∷ []
addresses (many addrs) = addrs

pub record Config : Type 0 where
  pub listen_addr : ListenAddrs
  pub port : ℕ
  pub server_name : Option Bytes
  pub auth_tokens : List TokenConfig
  pub size_precedence : List Bytes
  pub launch : Map LaunchPreset
  pub auth_token_hash : Option Bytes
  pub readonly : Option Bool

-- The name in the init reply, given the host's own.
unfoldable pub server_name : Bytes → Config → Bytes
server_name nodename config = unwrap_or config.server_name nodename

pub data ConfigError : Type 0 where
  empty_rule : Bytes → ConfigError
  invalid_regex : Bytes → ConfigError
  empty_argv : Bytes → ConfigError
  bad_size : Bytes → Bytes → ConfigError
  readonly_grant : Bytes → ConfigError
  no_such_preset : Bytes → Bytes → ConfigError

module _ (engine : RegexEngine) where
  pub record CompiledRule : Type 0 where
    pub path : Option engine.Regex
    pub windowtitle : Option engine.Regex

  anchored : Bytes → Result ConfigError engine.Regex
  anchored pattern =
      ok_or (engine.new (ascii "^(?:" ++ pattern ++ ascii ")$")) (invalid_regex pattern)

  -- `.as_deref().map(anchored).transpose()`
  compile_part : Option Bytes → Result ConfigError (Option engine.Regex)
  unfolding anchored
  compile_part none = ok none
  compile_part (some pattern) = do re ← anchored pattern; ok (some re)

  compile_rule : Bytes → FilterRule → Result ConfigError CompiledRule
  unfolding compile_part
  compile_rule name rule = do
    ensure (is_some rule.path || is_some rule.windowtitle) (empty_rule name)
    path ← compile_part rule.path
    windowtitle ← compile_part rule.windowtitle
    ok (record { path = path; windowtitle = windowtitle })

  compile_rules : Bytes → List FilterRule → Result ConfigError (List CompiledRule)
  compile_rules name [] = ok []
  compile_rules name (rule ∷ rules) = do
    r ← compile_rule name rule
    rs ← compile_rules name rules
    ok (r ∷ rs)

  pub compile_filter : TokenConfig → Result ConfigError (List CompiledRule)
  unfolding compile_rules
  compile_filter token = compile_rules token.name token.filter

  -- `re.is_none_or(|re| value.is_some_and(|v| re.is_match(v)))`
  abbrev pub part_matches : Option engine.Regex → Option Bytes → Bool
  part_matches none value = true
  part_matches (some re) none = false
  part_matches (some re) (some value) = engine.is_match re value

  abbrev pub rule_matches : Option Bytes → Option Bytes → CompiledRule → Bool
  rule_matches cwd title rule = part_matches rule.path cwd && part_matches rule.windowtitle title

  unfoldable pub filter_allows : List CompiledRule → Option Bytes → Option Bytes → Bool
  filter_allows rules cwd title = is_empty rules || any (rule_matches cwd title) rules

unfoldable pub tokens : Config → List TokenConfig
tokens config = config.auth_tokens ++ elim config.auth_token_hash [
  | none ↦ []
  | some hash ↦
      (record {
        name = ascii "default";
        token_hash = hash;
        readonly = unwrap_or config.readonly false;
        filter = [];
        launch = flag false;
      })
      ∷ []
]

-- The filters that `serve` compiles, under the names of their tokens. A later token replaces an
-- earlier one of its name, as in a `HashMap` that is collected.
module _ (engine : RegexEngine) where
  pub filters_from :
      Map (List (CompiledRule engine))
      → List TokenConfig
      → Result ConfigError (Map (List (CompiledRule engine)))
  unfolding compile_filter
  filters_from filters [] = ok filters
  filters_from filters (token ∷ ts) = do
    rules ← compile_filter engine token
    filters_from (entry filters token.name rules (λ _. rules)) ts

  pub filters : Config → Result ConfigError (Map (List (CompiledRule engine)))
  unfolding filters_from tokens
  filters config = filters_from [] (tokens config)

  -- The filter of a connection: `filters.get(&token.name)`.
  pub filter_of : Map (List (CompiledRule engine)) → TokenConfig → List (CompiledRule engine)
  filter_of compiled token = get_or compiled token.name []

-- `s.split_once('x')`
split_once : ℕ → Bytes → Option (Bytes × Bytes)
split_once sep [] = none
split_once sep (c ∷ cs) =
    let rest = split_once sep cs in
    if c == sep then some ([], cs) else elim rest [ none ↦ none | some (l, r) ↦ some (c ∷ l, r) ]

pub parse_preset_size : Bytes → Bool
unfolding split_once
parse_preset_size s = elim (split_once b'x' s) [
  | none ↦ false
  | some (c, r) ↦ elim (parse u16_mod c) [
    | none ↦ false
    | some cols ↦ elim (parse u16_mod r) [ none ↦ false | some rows ↦ ltb 0 cols && ltb 0 rows ]
  ]
]

pub check_size : Bytes → Option Bytes → Result ConfigError (Unit {0})
unfolding parse_preset_size
check_size name none = ok tt
check_size name (some size) = ensure (parse_preset_size size) (bad_size name size)

pub check_preset : Bytes → LaunchPreset → Result ConfigError (Unit {0})
unfolding check_size
check_preset name preset = do
  ensure (not (is_empty preset.argv)) (empty_argv name)
  check_size name preset.size

pub check_presets : Map LaunchPreset → Result ConfigError (Unit {0})
check_presets [] = ok tt
check_presets ((name, preset) ∷ presets) = do check_preset name preset; check_presets presets

pub check_names : Config → Bytes → List Bytes → Result ConfigError (Unit {0})
check_names config token [] = ok tt
check_names config token (name ∷ names) = do
  ensure (contains_key config.launch name) (no_such_preset token name)
  check_names config token names

pub check_named : Config → Bytes → LaunchGrant → Result ConfigError (Unit {0})
unfolding check_names
check_named config token (flag all) = ok tt
check_named config token (named names) = check_names config token names

pub check_grant : Config → TokenConfig → Result ConfigError (Unit {0})
unfolding check_named
check_grant config token = if is_none token.launch then ok tt else (do
  ensure (not token.readonly) (readonly_grant token.name)
  check_named config token.name token.launch)

pub check_grants : Config → List TokenConfig → Result ConfigError (Unit {0})
check_grants config [] = ok tt
check_grants config (token ∷ ts) = do check_grant config token; check_grants config ts

pub validate_launch : Config → Result ConfigError (Unit {0})
unfolding check_presets check_grants
validate_launch config = do check_presets config.launch; check_grants config (tokens config)

-- `self.size_precedence.iter().position(|e| e == name)`
pub position : List Bytes → Bytes → Option ℕ
position [] name = none
position (e ∷ es) name =
    let rest = position es name in
    if same e name then some 0 else elim rest [ none ↦ none | some p ↦ some (suc p) ]

-- The viewer's rank and the host's, as u32.
pub size_ranks : Config → Bytes → ℕ × ℕ
unfolding position
size_ranks config token_name =
    let len = length config.size_precedence % u32_mod in
    (
      elim (position config.size_precedence token_name) [ none ↦ len | some p ↦ p % u32_mod ],
      elim (position config.size_precedence (ascii "host")) [
        | none ↦ (len + 1) % u32_mod
        | some p ↦ p % u32_mod
      ],
    )

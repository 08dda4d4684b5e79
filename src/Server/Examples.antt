-- ===== src/Server/Examples.antt =====
-- A server for the tests: an engine of literal patterns, a JSON of one text, tokens and presets.
use g2mirror.Prelude.{
  ◌++◌, true, false, Bool, List, [], ◌∷◌, none, some, Bytes, ascii, same, length,
}
use g2mirror.Server.Config.{
  one, RegexEngine, FilterRule, TokenConfig, LaunchPreset, Config, flag, named,
}
use g2mirror.Server.Protocol.{Json}

-- A regex engine that knows literal patterns only: what stands between `^(?:` and `)$` is the text.
abbrev pub literal : RegexEngine
literal = record {
  Regex = Bytes;
  new = some;
  is_match = λ re s. same re (ascii "^(?:" ++ s ++ ascii ")$");
}

-- JSON of which every text is an object whose fields are all the text itself.
abbrev pub echo : Json
echo = record {
  Value = Bytes;
  from_str = some;
  str_at = λ v key. some v;
  u64_at = λ v key. some (length v);
  bool_at = λ v key. some true;
}

abbrev pub token : Bytes → Bool → List FilterRule → TokenConfig
token name readonly filter = record {
  name = name;
  token_hash = [];
  readonly = readonly;
  filter = filter;
  launch = flag false;
}

abbrev pub glasses : TokenConfig
glasses = record {
  name = ascii "glasses";
  token_hash = [];
  readonly = false;
  filter = [];
  launch = named (ascii "shell" ∷ []);
}

abbrev pub titled : FilterRule
titled = record { path = none; windowtitle = some (ascii "vim") }

abbrev pub shell : LaunchPreset
shell = record {
  argv = ascii "/bin/sh" ∷ [];
  cwd = none;
  title = none;
  env = [];
  allow_cwd = true;
  scrollback = none;
  readonly = false;
  size = some (ascii "80x24");
}

abbrev pub config : Config
config = record {
  listen_addr = one (ascii "127.0.0.1");
  port = 8737;
  server_name = none;
  auth_tokens = glasses ∷ token (ascii "default") true (titled ∷ []) ∷ [];
  size_precedence = ascii "glasses" ∷ ascii "host" ∷ ascii "tablet" ∷ [];
  launch = (ascii "shell", shell) ∷ [];
  auth_token_hash = some (ascii "abc");
  readonly = none;
}

-- ===== src/Server/AddToken/Tests.antt =====
-- Tokens that are added and that are not, with a small config in place of JSON.
use g2mirror.Prelude.{
  ◌≡◌, refl, false, List, [], ◌∷◌, Option, none, some, Bytes, is_empty, if◌then◌else◌, ascii,
}
use g2mirror.Prelude.Results.{err}
use g2mirror.Server.Config.{LaunchPreset, TokenConfig, Config, one}
use g2mirror.Server.AddToken.{reserved, requires_writable, add_token}

abbrev shell : LaunchPreset
shell = record {
  argv = ascii "sh" ∷ [];
  cwd = none;
  title = none;
  env = [];
  allow_cwd = false;
  scrollback = none;
  readonly = false;
  size = none;
}

abbrev config : Config
config = record {
  listen_addr = one (ascii "localhost");
  port = 1;
  server_name = none;
  auth_tokens = [];
  size_precedence = [];
  launch = (ascii "shell", shell) ∷ [];
  auth_token_hash = none;
  readonly = none;
}

abbrev parse : Bytes → Option Config
parse text = if is_empty text then none else some config

abbrev text : Bytes
text = ascii "{\"auth_tokens\": []}"

abbrev print : TokenConfig → Bytes
print t = t.name

abbrev print_config : Config → Bytes
print_config c = []

abbrev digest : Bytes → Bytes
digest b = b

abbrev asked : List Bytes
asked = ascii "rob" ∷ ascii "--launch" ∷ ascii "shell" ∷ ascii "--writable" ∷ []

abbrev out : Bytes
out = ascii "{\"auth_tokens\": [\n    rob\n  ]}"

not_host :
    add_token digest parse print print_config (ascii "host" ∷ []) text [] ≡ some (err reserved)
unfolding add_token
not_host = refl

not_readonly :
    add_token digest parse print print_config (ascii "rob" ∷ ascii "--launch-all" ∷ []) text []
    ≡ some (err requires_writable)
unfolding add_token
not_readonly = refl

-- ===== src/Server/Auth/Tests.antt =====
-- Authentication at a configuration of one token, with a digest that is the secret itself.
use g2mirror.Prelude.{◌%◌, ◌≡◌, refl, false, map, [], ◌∷◌, Option, none, some, Bytes, ascii, arith}
use g2mirror.Server.Config.{Config, TokenConfig, one, flag, tokens, server_name}
use g2mirror.Server.Protocol.{DeviceInit, protocol_version}
use g2mirror.Server.Auth.{accepted, InitReply, authenticate_device}
use g2mirror.Server.Auth.Sound.{AreBytes, Holds, authenticate_device-exact}

abbrev digest : Bytes → Bytes
digest = map (λ b. b % 256)

digest-AreBytes : (b : Bytes) → AreBytes (digest b)
digest-AreBytes [] = tt
digest-AreBytes (c ∷ cs) = (omega arith, digest-AreBytes cs)

-- "Az" in hexadecimal, with a capital and white space.
abbrev glasses : TokenConfig
glasses = record {
  name = ascii "glasses";
  token_hash = ascii " 417A ";
  readonly = false;
  filter = [];
  launch = flag false;
}

abbrev config : Config
config = record {
  listen_addr = one (ascii "127.0.0.1");
  port = 8737;
  server_name = some (ascii "laptop");
  auth_tokens = glasses ∷ [];
  size_precedence = [];
  launch = [];
  auth_token_hash = none;
  readonly = none;
}

abbrev hello : DeviceInit
hello = record {
  msg_type = ascii "init";
  version = protocol_version;
  auth_token = ascii "Az";
  device = ascii "g2";
  width = 96;
  height = 24;
}

abbrev read_init : Bytes → Option DeviceInit
read_init message = some hello

greets :
    authenticate_device digest read_init (ascii "host") config (some (ascii "{}"))
    ≡ accepted hello glasses
        (record { version = protocol_version; readonly = false; server_name = ascii "laptop" })
unfolding authenticate_device tokens server_name
greets = refl

authenticate_device-exact_example :
    ((i : DeviceInit) (t : TokenConfig) (reply : InitReply)
      → authenticate_device digest read_init (ascii "host") config (some (ascii "{}"))
        ≡ accepted i t reply
      → (i ≡ hello)
        × (hello.msg_type ≡ ascii "init")
        × (hello.version ≡ protocol_version)
        × Holds digest digest-AreBytes read_init (ascii "host") hello.auth_token (tokens config) t
        × (reply.readonly ≡ t.readonly))
    × ((t : TokenConfig)
        → hello.msg_type ≡ ascii "init"
        → hello.version ≡ protocol_version
        → Holds digest digest-AreBytes read_init (ascii "host") hello.auth_token (tokens config) t
        → (s : TokenConfig) × (reply : InitReply) × (authenticate_device digest read_init
              (ascii "host")
              config
              (some (ascii "{}"))
            ≡ accepted hello s reply))
unfolding tokens
authenticate_device-exact_example =
    authenticate_device-exact digest digest-AreBytes read_init (ascii "host") config (ascii "{}")
      hello refl (omega arith)

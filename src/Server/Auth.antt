-- ===== src/Server/Auth.antt =====
-- Authentication in src/bin/g2mirror-server.rs: `token_matches`, `constant_time_eq`, `hex` and
-- `authenticate_device`. The digest and the JSON form of the init message are parameters.
pub mod Sound
mod Tests
use Prim.Native.Nat.{bit_or, bit_xor}
use g2mirror.Prelude.{
  is_empty, ℕ, ◌+◌, ◌-◌, ◌/◌, ◌%◌, Bool, true, false, not, ◌&&◌, ◌||◌, List, [], ◌∷◌, ◌++◌, Option,
  none, some, Bytes, length, ltb, within, ◌==◌, if◌then◌else◌, same, ascii,
}
use g2mirror.Server.Config.{TokenConfig, Config, tokens, server_name}
use g2mirror.Server.Protocol.{protocol_version, DeviceInit}

-- The text of a half byte, `{:x}`.
abbrev pub hex_digit : ℕ → ℕ
hex_digit n = if ltb n 10 then b'0' + n else b'a' + (n - 10)

unfoldable pub hex : Bytes → Bytes
hex [] = []
hex (b ∷ bs) = hex_digit (b / 16) ∷ hex_digit (b % 16) ∷ hex bs

-- `a.iter().zip(b).fold(acc, |acc, (x, y)| acc | (x ^ y))`
unfoldable pub fold_differences : ℕ → Bytes → Bytes → ℕ
fold_differences acc [] ys = acc
fold_differences acc (x ∷ xs) [] = acc
fold_differences acc (x ∷ xs) (y ∷ ys) = fold_differences (bit_or acc (bit_xor x y)) xs ys

unfoldable pub constant_time_eq : Bytes → Bytes → Bool
unfolding fold_differences
constant_time_eq a b = length a == length b && fold_differences 0 a b == 0

-- The characters that `trim` takes for white space, by the length of their encoding.
abbrev pub is_space : ℕ → Bool
is_space c = c == b' ' || within 9 13 c

abbrev pub is_space_of_two : ℕ → ℕ → Bool
is_space_of_two c d = c == 0xc2 && (d == 0x85 || d == 0xa0)

abbrev pub is_space_of_three : ℕ → ℕ → ℕ → Bool
is_space_of_three c d e =
    (c == 0xe1 && d == 0x9a && e == 0x80)
    || (c == 0xe2 && d == 0x80 && (within 0x80 0x8a e || e == 0xa8 || e == 0xa9 || e == 0xaf))
    || (c == 0xe2 && d == 0x81 && e == 0x9f)
    || (c == 0xe3 && d == 0x80 && e == 0x80)

unfoldable pub trim_start : Bytes → Bytes
trim_start [] = []
trim_start (c ∷ []) = if is_space c then [] else c ∷ []
trim_start (c ∷ d ∷ []) =
    let one = trim_start (d ∷ []) in
    if is_space c then one else if is_space_of_two c d then [] else c ∷ d ∷ []
trim_start (c ∷ d ∷ e ∷ cs) =
    let one = trim_start (d ∷ e ∷ cs) in
    let two = trim_start (e ∷ cs) in
    let three = trim_start cs in
    if is_space c
    then one
    else if is_space_of_two c d
    then two
    else if is_space_of_three c d e
    then three
    else c ∷ d ∷ e ∷ cs

-- What is left ends where only white space follows.
unfoldable pub trim_end : Bytes → Bytes
unfolding trim_start
trim_end [] = []
trim_end (c ∷ cs) =
    let rest = trim_end cs in if is_empty (trim_start (c ∷ cs)) then [] else c ∷ rest

unfoldable pub to_ascii_lowercase : Bytes → Bytes
to_ascii_lowercase [] = []
to_ascii_lowercase (c ∷ cs) = (if within b'A' b'Z' c then c + 32 else c) ∷ to_ascii_lowercase cs

-- The messages of a rejection.
pub data Rejection : Type 0 where
  first_must_be_init : Rejection
  unsupported_version : ℕ → Rejection
  authentication_failed : Rejection

-- The init reply.
pub record InitReply : Type 0 where
  pub version : ℕ
  pub readonly : Bool
  pub server_name : Bytes

-- How `authenticate_device` ends: a clean close before the first message, an init message that is
-- not one, a rejection (its message is sent and the socket closed), or the init and the token.
pub data Outcome : Type 0 where
  closed : Outcome
  malformed : Outcome
  rejected : Rejection → Outcome
  accepted : DeviceInit → TokenConfig → InitReply → Outcome

module _ (sha256 : Bytes → Bytes) where
  unfoldable pub token_matches : Bytes → Bytes → Bool
  unfolding constant_time_eq hex to_ascii_lowercase trim_end trim_start
  token_matches token expected_hex =
      constant_time_eq (hex (sha256 token))
        (to_ascii_lowercase (trim_end (trim_start expected_hex)))

  unfoldable pub find_token : Bytes → List TokenConfig → Option TokenConfig
  unfolding token_matches
  find_token auth_token [] = none
  find_token auth_token (t ∷ ts) =
      if token_matches auth_token t.token_hash then some t else find_token auth_token ts

  module _ (parse_init : Bytes → Option DeviceInit) (nodename : Bytes) where
    unfoldable pub answer_init : Config → DeviceInit → Option TokenConfig → Outcome
    answer_init config init none = rejected (
        if not (same init.msg_type (ascii "init"))
        then first_must_be_init
        else (if not (init.version == protocol_version)
            then unsupported_version init.version
            else authentication_failed))
    answer_init config init (some token) =
        if same init.msg_type (ascii "init") && init.version == protocol_version
        then accepted init token (record {
          version = protocol_version;
          readonly = token.readonly;
          server_name = server_name nodename config;
        })
        else rejected (
            if not (same init.msg_type (ascii "init"))
            then first_must_be_init
            else (if not (init.version == protocol_version)
                then unsupported_version init.version
                else authentication_failed))

    -- The first text message, if there is one.
    unfoldable pub authenticate_device : Config → Option Bytes → Outcome
    unfolding find_token answer_init
    authenticate_device config none = closed
    authenticate_device config (some text) = elim (parse_init text) [
      | none ↦ malformed
      | some init ↦ answer_init config init (find_token init.auth_token (tokens config))
    ]

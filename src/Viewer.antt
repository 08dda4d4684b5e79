-- ===== src/Viewer.antt =====
-- The viewer program (src/bin/g2mirror-view.rs): its connection strings and the keys of its list.
pub mod Dialed
mod Tests
use g2mirror.Prelude.{
  ℕ, Bool, true, false, not, ◌&&◌, ◌||◌, List, [], ◌∷◌, ◌++◌, Option, none, some, is_some, Bytes,
  any, is_empty, ◌==◌, if◌then◌else◌, ascii,
}
use g2mirror.Prelude.Decimal.{decimal}
use g2mirror.Prelude.Results.{Result, ok, err, ◌>>=◌, ◌>>◌, ensure, ok_or}
use g2mirror.Attach.Args.{strip_prefix}

abbrev pub default_port : ℕ
default_port = 8737

pub data StringError : Type 0 where
  bad_scheme no_at_sign empty_token empty_host : StringError

-- The scheme to dial, what is left, and the port.
unfoldable pub scheme_of : Bytes → Result StringError (Bytes × (Bytes × ℕ))
unfolding strip_prefix
scheme_of s = elim (strip_prefix (ascii "g2mirrors://") s) [
  | some rest ↦ ok (ascii "wss", (rest, 443))
  | none ↦ elim (strip_prefix (ascii "g2mirror://") s) [
    | some rest ↦ ok (ascii "ws", (rest, default_port))
    | none ↦ err bad_scheme
  ]
]

-- `rsplit_once`
unfoldable pub rsplit_once : ℕ → Bytes → Option (Bytes × Bytes)
rsplit_once sep [] = none
rsplit_once sep (c ∷ cs) = elim (rsplit_once sep cs) [
  | some (l, r) ↦ some (c ∷ l, r)
  | none ↦ if c == sep then some ([], cs) else none
]

-- Whether a port is there: a last colon with no closing bracket behind it.
abbrev pub is_port : Option (Bytes × Bytes) → Bool
is_port none = false
is_port (some (name, port)) = not (any (λ c. c == b']') port)

unfoldable pub has_port : Bytes → Bool
unfolding rsplit_once
has_port host = is_port (rsplit_once b':' host)

unfoldable pub with_port : Bytes → ℕ → Bytes
unfolding has_port
with_port host port = if has_port host then host else host ++ b':' ∷ decimal port

unfoldable pub parse_connection_string : Bytes → Result StringError (Bytes × Bytes)
unfolding scheme_of rsplit_once with_port
parse_connection_string s = do
  (scheme, (rest, port)) ← scheme_of s
  (token, host) ← ok_or (rsplit_once b'@' rest) no_at_sign
  ensure (not (is_empty token)) empty_token
  ensure (not (is_empty host)) empty_host
  ok (token, scheme ++ ascii "://" ++ with_port host port)

pub data ListKey : Type 0 where
  up down enter refresh quit : ListKey

abbrev pub key_of : ℕ → List ListKey
key_of b =
    if b == 0x03 || b == 0x04 || b == b'q'
    then quit ∷ []
    else (if b == b'\r' || b == b'\n'
        then enter ∷ []
        else (if b == b'k'
            then up ∷ []
            else (if b == b'j' then down ∷ [] else (if b == b'r' then refresh ∷ [] else []))))

abbrev pub arrow_of : ℕ → List ListKey
arrow_of b = if b == b'A' then up ∷ [] else (if b == b'B' then down ∷ [] else [])

unfoldable pub parse_list_keys : Bytes → List ListKey
parse_list_keys [] = []
parse_list_keys (b ∷ []) = key_of b
parse_list_keys (b ∷ c ∷ []) = key_of b ++ key_of c
parse_list_keys (b ∷ c ∷ d ∷ bytes) =
    let skipped = arrow_of d ++ parse_list_keys bytes in
    let next = key_of b ++ parse_list_keys (c ∷ d ∷ bytes) in
    if b == 0x1b && (c == b'[' || c == b'O') then skipped else next

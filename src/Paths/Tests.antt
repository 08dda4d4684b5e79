-- ===== src/Paths/Tests.antt =====
-- Runs of the code of src/paths.rs, its own tests among them, and the theorems at work.
use g2mirror.Prelude.{
  ℕ, ◌≡◌, ◌≢◌, ◌↔◌, refl, true, false, List, [], ◌∷◌, some, map, keep, Bytes, All, arith, ◌==◌,
  if◌then◌else◌,
}
use g2mirror.Prelude.Decimal.{decimal, parse, digits, parse_digits}
use g2mirror.Paths.{
  KillAnswer, perm, other, DirEntry, is_name_char, socket_name, sanitize_cwd, socket_pid,
  is_valid_socket_name, pid_exists, is_old, removes, cleanup_stale_sockets,
}
use g2mirror.Paths.Names.{socket_pid-socket_name, is_valid-stays_inside}
use g2mirror.Paths.Stale.{IsStale, cleanup-exact}

-- `/a b/x`
abbrev project : List ℕ
project = b'/' ∷ b'a' ∷ b' ' ∷ b'b' ∷ b'/' ∷ b'x' ∷ []

-- `1234-_a_b_x`
abbrev session : Bytes
session = b'1' ∷ b'2' ∷ b'3' ∷ b'4' ∷ b'-' ∷ b'_' ∷ b'a' ∷ b'_' ∷ b'b' ∷ b'_' ∷ b'x' ∷ []

named : socket_name 1234 project ≡ session
unfolding socket_name decimal digits sanitize_cwd is_name_char
named = refl

valid : is_valid_socket_name session ≡ true
unfolding is_valid_socket_name socket_pid parse parse_digits is_name_char
valid = refl

-- `../123-x`
climbing : is_valid_socket_name (b'.' ∷ b'.' ∷ b'/' ∷ b'1' ∷ b'2' ∷ b'3' ∷ b'-' ∷ b'x' ∷ []) ≡ false
unfolding is_valid_socket_name socket_pid parse parse_digits is_name_char
climbing = refl

-- `123-../x`
climbing_later :
    is_valid_socket_name (b'1' ∷ b'2' ∷ b'3' ∷ b'-' ∷ b'.' ∷ b'.' ∷ b'/' ∷ b'x' ∷ []) ≡ false
unfolding is_valid_socket_name socket_pid parse parse_digits is_name_char
climbing_later = refl

nopid : is_valid_socket_name (b'n' ∷ b'o' ∷ b'p' ∷ b'i' ∷ b'd' ∷ []) ≡ false
unfolding is_valid_socket_name socket_pid parse parse_digits
nopid = refl

nothing : is_valid_socket_name [] ≡ false
unfolding is_valid_socket_name socket_pid parse
nothing = refl

socket_pid-socket_name_example : socket_pid (socket_name 1234 project) ≡ some 1234
socket_pid-socket_name_example = socket_pid-socket_name 1234 project (omega arith)

is_valid-stays_inside_example :
    All (λ c. c ≢ b'/') session
    × (session ≢ [])
    × (session ≢ b'.' ∷ [])
    × (session ≢ b'.' ∷ b'.' ∷ [])
is_valid-stays_inside_example = is_valid-stays_inside session valid

-- Only process 1234 is alive.
abbrev only_1234 : ℕ → KillAnswer
only_1234 pid = if pid == 1234 then perm else other

abbrev entry : Bytes → ℕ → DirEntry
entry name modified = record {
  name = some name;
  metadata = some (record { is_socket = true; modified = some modified });
  removable = true;
}

-- A live session, a fresh socket of a dead one, and an old one.
abbrev entries : List DirEntry
entries = entry session 0 ∷ entry (b'7' ∷ b'-' ∷ []) 9000000 ∷ entry (b'8' ∷ b'-' ∷ []) 0 ∷ []

cleaned :
    cleanup_stale_sockets only_1234 9000000 (map some entries)
    ≡ some (entry (b'8' ∷ b'-' ∷ []) 0 ∷ [])
unfolding cleanup_stale_sockets removes socket_pid parse parse_digits pid_exists is_old
cleaned = refl

cleanup-exact_example :
    (cleanup_stale_sockets only_1234 9000000 (map some entries)
      ≡ some (keep (removes only_1234 9000000) entries))
    × ((e : DirEntry) → (removes only_1234 9000000 e ≡ true) ↔ IsStale only_1234 9000000 e)
cleanup-exact_example = cleanup-exact only_1234 9000000 entries

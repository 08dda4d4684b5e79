-- ===== src/Paths.antt =====
-- src/paths.rs: socket names, and the removal of stale sockets. A name is its bytes, a path its
-- characters; times are milliseconds. What the operating system answers is an argument.
pub mod Names
pub mod Stale
mod Tests
use g2mirror.Prelude.Decimal.{is_digit, decimal, parse}
use g2mirror.Prelude.{
  is_empty, ℕ, ◌+◌, ◌-◌, ◌*◌, ◌^◌, Bool, true, false, not, ◌&&◌, ◌||◌, List, [], ◌∷◌, ◌++◌, map,
  Option, none, some, ◌>>=◌, is_some, unwrap_or, Bytes, length, drop, all, any, ltb, within, ◌==◌,
  if◌then◌else◌, u32_mod,
}

abbrev pub stale_socket_age : ℕ
stale_socket_age = 60 * 60 * 1000

abbrev pub is_ascii_alphanumeric : ℕ → Bool
is_ascii_alphanumeric c = within b'a' b'z' c || within b'A' b'Z' c || within b'0' b'9' c

-- The characters of a socket name.
pub is_name_char : ℕ → Bool
is_name_char c = is_ascii_alphanumeric c || (c == b'-' || c == b'_' || c == b'.')

abbrev sanitize_char : ℕ → ℕ
sanitize_char c = if is_name_char c then c else b'_'

abbrev max_cwd : ℕ
max_cwd = 60

-- The sanitized text is ASCII, so its bytes are its characters.
sanitize_cwd : List ℕ → Bytes
sanitize_cwd cwd =
    let sanitized = map sanitize_char cwd in
    if ltb max_cwd (length sanitized)
    then drop (length sanitized - max_cwd) sanitized
    else sanitized

-- `format!("{pid}-{}", sanitize_cwd(cwd))`
pub socket_name : ℕ → List ℕ → Bytes
socket_name pid cwd = decimal pid ++ (b'-' ∷ sanitize_cwd cwd)

-- `name.split('-').next()`
abbrev pub before_dash : Bytes → Bytes
before_dash [] = []
before_dash (c ∷ cs) = if c == b'-' then [] else c ∷ before_dash cs

pub socket_pid : Bytes → Option ℕ
socket_pid name = parse u32_mod (before_dash name)

pub is_valid_socket_name : Bytes → Bool
is_valid_socket_name name =
    is_some (socket_pid name) && not (is_empty name) && all is_name_char name

-- What `kill(pid, 0)` says.
pub data KillAnswer : Type 0 where
  ok perm other : KillAnswer

-- `i32::try_from` refuses the upper half, and `Pid::from_raw` refuses zero.
pub pid_exists : (ℕ → KillAnswer) → ℕ → Bool
pid_exists kill pid =
    if ltb pid (2 ^ 31) && not (pid == 0)
    then elim (kill pid) [ ok ↦ true | perm ↦ true | other ↦ false ]
    else false

-- The metadata of a file, `modified` if the system has it.
pub record Metadata : Type 0 where
  pub is_socket : Bool
  pub modified : Option ℕ

-- An entry of the directory: its name if it is UTF-8, its metadata if they can be read, and
-- whether its removal succeeds.
pub record DirEntry : Type 0 where
  pub name : Option Bytes
  pub metadata : Option Metadata
  pub removable : Bool

-- `now.duration_since(m).ok()` and `age > STALE_SOCKET_AGE`
is_old : ℕ → Metadata → Bool
is_old now meta = elim meta.modified [
  | none ↦ false
  | some m ↦ not (ltb now m) && ltb stale_socket_age (now - m)
]

-- The body of the loop: whether the entry is removed.
pub removes : (ℕ → KillAnswer) → ℕ → DirEntry → Bool
unfolding pid_exists is_old
removes kill now entry = is_some (do
  name ← entry.name
  pid ← socket_pid name
  meta ← entry.metadata
  if meta.is_socket && is_old now meta && not (pid_exists kill pid) && entry.removable
      then some pid
      else none)

-- `none` among the entries is an error of `read_dir`, which ends the function.
pub cleanup_stale_sockets : (ℕ → KillAnswer) → ℕ → List (Option DirEntry) → Option (List DirEntry)
cleanup_stale_sockets kill now [] = some []
cleanup_stale_sockets kill now (entry ∷ entries) = do
  e ← entry
  removed ← cleanup_stale_sockets kill now entries
  some (if removes kill now e then e ∷ removed else removed)

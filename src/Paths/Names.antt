-- ===== src/Paths/Names.antt =====
-- The socket names of src/paths.rs: what is written can be read, and what is accepted is one
-- component of a path.
use g2mirror.Prelude.Decimal.{is_digit, decimal, parse, decimal-All, length-decimal, parse-decimal}
use g2mirror.Prelude.{
  ℕ, zero, suc, ◌-◌, ◌≤◌, ◌<◌, ◌≡◌, ◌≢◌, refl, ap, ◌∙◌, Bool, true, List, [], ◌∷◌, ◌++◌, map, some,
  none, Bytes, arith, length, length-append, length-drop, drop, all, All, ltb, u32_mod, Bool-cases,
  inl, inr,
}
use g2mirror.Paths.{
  is_name_char, sanitize_char, sanitize_cwd, socket_name, before_dash, socket_pid,
  is_valid_socket_name, max_cwd,
}

before_dash-append :
    (ds rest : Bytes) → All (λ c. is_digit c ≡ true) ds → before_dash (ds ++ (b'-' ∷ rest)) ≡ ds
before_dash-append [] rest h = refl
before_dash-append (d ∷ ds) rest (h, t) = ground (arith, before_dash-append ds rest t)

all-append :
    (p : ℕ → Bool) (xs ys : Bytes) → all p xs ≡ true → all p ys ≡ true → all p (xs ++ ys) ≡ true
all-append p [] ys hx hy = hy
all-append p (x ∷ xs) ys hx hy = ground (arith, all-append p xs ys)

all-drop : (p : ℕ → Bool) (n : ℕ) (xs : Bytes) → all p xs ≡ true → all p (drop n xs) ≡ true
all-drop p zero xs h = h
all-drop p (suc n) [] h = h
all-drop p (suc n) (x ∷ xs) h = all-drop p n xs (ground arith)

all-is_digit : (ds : Bytes) → All (λ c. is_digit c ≡ true) ds → all is_name_char ds ≡ true
unfolding is_name_char
all-is_digit [] h = refl
all-is_digit (d ∷ ds) (h, t) = ground (arith, all-is_digit ds t)

sanitize_char-is_name_char : (c : ℕ) → is_name_char (sanitize_char c) ≡ true
sanitize_char-is_name_char c = elim (Bool-cases (is_name_char c)) [
  | inl fits ↦ rw fits fits
  | inr other ↦ rw other (unfold is_name_char in refl)
]

all-sanitize_char : (cwd : List ℕ) → all is_name_char (map sanitize_char cwd) ≡ true
all-sanitize_char [] = refl
all-sanitize_char (c ∷ cwd) = ground (arith, sanitize_char-is_name_char c, all-sanitize_char cwd)

all-sanitize_cwd : (cwd : List ℕ) → all is_name_char (sanitize_cwd cwd) ≡ true
unfolding sanitize_cwd
all-sanitize_cwd cwd =
    let xs = map sanitize_char cwd in
    elim (Bool-cases (ltb max_cwd (length xs))) [
      | inl long ↦ rw long (all-drop is_name_char (length xs - max_cwd) xs (all-sanitize_char cwd))
      | inr short ↦ rw short (all-sanitize_char cwd)
    ]

length-map : (f : ℕ → ℕ) (xs : List ℕ) → length (map f xs) ≡ length xs
length-map f [] = refl
length-map f (x ∷ xs) = ap suc (length-map f xs)

length-sanitize_cwd : (cwd : List ℕ) → length (sanitize_cwd cwd) ≤ max_cwd
unfolding sanitize_cwd
length-sanitize_cwd cwd =
    let xs = map sanitize_char cwd in ground (arith, length-drop (length xs - max_cwd) xs)

-- The pid of 32 bits that is written into a socket name is the pid read from it.
pub socket_pid-socket_name :
    (pid : ℕ) (cwd : List ℕ) → pid < u32_mod → socket_pid (socket_name pid cwd) ≡ some pid
unfolding socket_pid socket_name
socket_pid-socket_name pid cwd u32 =
    ap (parse u32_mod) (before_dash-append (decimal pid) (sanitize_cwd cwd) (decimal-All pid))
    ∙ parse-decimal u32_mod pid u32

dash-is_name_char : (cs : Bytes) → all is_name_char cs ≡ true → all is_name_char (b'-' ∷ cs) ≡ true
unfolding is_name_char
dash-is_name_char cs h = h

all-socket_name : (pid : ℕ) (cwd : List ℕ) → all is_name_char (socket_name pid cwd) ≡ true
unfolding socket_name
all-socket_name pid cwd =
    all-append is_name_char (decimal pid) (b'-' ∷ sanitize_cwd cwd)
      (all-is_digit (decimal pid) (decimal-All pid))
      (dash-is_name_char (sanitize_cwd cwd) (all-sanitize_cwd cwd))

empty_name : {n : ℕ} → socket_pid [] ≡ some n → ⊥
unfolding socket_pid parse
empty_name e = cc

-- What has a pid is not empty.
is_valid-socket_pid :
    (name : Bytes) (pid : ℕ)
    → socket_pid name ≡ some pid
    → all is_name_char name ≡ true
    → is_valid_socket_name name ≡ true
unfolding is_valid_socket_name
is_valid-socket_pid [] pid e h = absurd (empty_name e)
is_valid-socket_pid (c ∷ cs) pid e h = rw (e, h) refl

-- Every name that the wrapper makes for a pid of 32 bits is valid and at most 71 bytes long,
-- whatever its directory is called.
pub socket_name-is_valid :
    (pid : ℕ) (cwd : List ℕ)
    → pid < u32_mod
    → (is_valid_socket_name (socket_name pid cwd) ≡ true) × (length (socket_name pid cwd) ≤ 71)
socket_name-is_valid pid cwd u32 = (
  is_valid-socket_pid (socket_name pid cwd) pid (socket_pid-socket_name pid cwd u32)
      (all-socket_name pid cwd),
  short,
)
  where
    short : length (socket_name pid cwd) ≤ 71
    short =
        unfold socket_name in
        omega (
          arith,
          length-append (decimal pid) (b'-' ∷ sanitize_cwd cwd),
          length-decimal pid 10 (omega arith) (omega arith),
          length-sanitize_cwd cwd,
        )

no_slash : (name : Bytes) → all is_name_char name ≡ true → All (λ c. c ≢ b'/') name
unfolding is_name_char
no_slash [] h = tt
no_slash (c ∷ cs) h = (ground arith, no_slash cs (ground arith))

-- A valid name has no slash, and is neither `.` nor `..`: joined to the directory, it names a file
-- in it.
pub is_valid-stays_inside :
    (name : Bytes)
    → is_valid_socket_name name ≡ true
    → All (λ c. c ≢ b'/') name × (name ≢ []) × (name ≢ b'.' ∷ []) × (name ≢ b'.' ∷ b'.' ∷ [])
unfolding is_valid_socket_name socket_pid parse
is_valid-stays_inside name h = (
  no_slash name (ground arith),
  λ e. refused [] e refl,
  λ e. refused (b'.' ∷ []) e refl,
  λ e. refused (b'.' ∷ b'.' ∷ []) e refl,
)
  where
    refused : (n : Bytes) → name ≡ n → socket_pid n ≡ none → ⊥
    refused n e r = ground arith

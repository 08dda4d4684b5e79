-- ===== src/Paths/Stale.antt =====
-- What `cleanup_stale_sockets` of src/paths.rs removes.
use g2mirror.Prelude.{
  ℕ, ◌+◌, ◌-◌, ◌<◌, ◌≡◌, refl, true, false, List, [], ◌∷◌, Option, none, some, map, keep, is_some,
  ltb, Bytes, arith, Option-cases, inl, inr, ◌>>=◌, ◌↔◌, ◌⊎◌, ◌≤◌, Bool-cases, if_intro, not, ◌&&◌,
  ◌==◌, ◌^◌,
}
use g2mirror.Paths.{
  KillAnswer, ok, perm, other, Metadata, DirEntry, socket_pid, pid_exists, stale_socket_age, is_old,
  removes, cleanup_stale_sockets,
}

-- No process has the pid: it is not a positive 32-bit signed number, or `kill` finds none (any
-- answer but success and EPERM).
abbrev pub NoProcess : (ℕ → KillAnswer) → ℕ → Type 0
NoProcess kill pid = (2 ^ 31 ≤ pid) ⊎ ((pid ≡ 0) ⊎ (kill pid ≡ other))

is_dead : (a : KillAnswer) → elim a [ ok ↦ true | perm ↦ true | other ↦ false ] ≡ false → a ≡ other
is_dead ok h = absurd cc
is_dead perm h = absurd cc
is_dead other h = refl

pid_exists→NoProcess :
    (kill : ℕ → KillAnswer) (pid : ℕ) → pid_exists kill pid ≡ false → NoProcess kill pid
unfolding pid_exists
pid_exists→NoProcess kill pid h = elim (Bool-cases (ltb pid (2 ^ 31))) [
  | inr big ↦ inl (ground (arith, big))
  | inl small ↦ elim (Bool-cases (pid == 0)) [
    | inl zero ↦ inr (inl (ground (arith, zero)))
    | inr positive ↦ inr (inr (is_dead (kill pid) (ground (arith, small, positive, h))))
  ]
]

NoProcess→pid_exists :
    (kill : ℕ → KillAnswer) (pid : ℕ) → NoProcess kill pid → pid_exists kill pid ≡ false
unfolding pid_exists
NoProcess→pid_exists kill pid (inl big) = ground (arith, big)
NoProcess→pid_exists kill pid (inr (inl zero)) = ground (arith, zero)
NoProcess→pid_exists kill pid (inr (inr gone)) =
    rw gone
      (if_intro (λ b. b ≡ false) (ltb pid (2 ^ 31) && not (pid == 0)) _ _ (λ _. refl) (λ _. refl))

-- A stale entry: a socket named after a pid that no process has, modified more than the age ago,
-- that can be removed.
pub record IsStale (kill : ℕ → KillAnswer) (now : ℕ) (e : DirEntry) : Type 0 where
  pub file : Bytes
  pub pid : ℕ
  pub meta : Metadata
  pub changed : ℕ
  pub has_name : e.name ≡ some file
  pub has_pid : socket_pid file ≡ some pid
  pub has_meta : e.metadata ≡ some meta
  pub socket : meta.is_socket ≡ true
  pub has_changed : meta.modified ≡ some changed
  pub old : changed + stale_socket_age < now
  pub dead : NoProcess kill pid
  pub removed : e.removable ≡ true

-- What a chain of options went through.
bind_some :
    {A B : Type 0} (o : Option A) (f : A → Option B)
    → is_some (o >>= f) ≡ true
    → (a : A) × (o ≡ some a) × (is_some (f a) ≡ true)
bind_some none f h = absurd (ground arith)
bind_some (some a) f h = (a, refl, h)

is_old-changed :
    (now : ℕ) (meta : Metadata)
    → is_old now meta ≡ true
    → (m : ℕ) × (meta.modified ≡ some m) × (m + stale_socket_age < now)
unfolding is_old
is_old-changed now meta h = elim (Option-cases meta.modified) [
  | inl e ↦ absurd (ground arith)
  | inr (m, e) ↦ (m, e, ground arith)
]

removes→IsStale :
    (kill : ℕ → KillAnswer) (now : ℕ) (e : DirEntry)
    → removes kill now e ≡ true
    → IsStale kill now e
unfolding removes
removes→IsStale kill now e h =
    let (file, has_name, h1) = bind_some e.name _ h in
    let (pid, has_pid, h2) = bind_some (socket_pid file) _ h1 in
    let (meta, has_meta, h3) = bind_some e.metadata _ h2 in
    let (m, has_changed, old) = is_old-changed now meta (ground arith) in
    record {
      file = file;
      pid = pid;
      meta = meta;
      changed = m;
      has_name = has_name;
      has_pid = has_pid;
      has_meta = has_meta;
      socket = ground arith;
      has_changed = has_changed;
      old = old;
      dead = pid_exists→NoProcess kill pid (ground arith);
      removed = ground arith;
    }

IsStale→removes :
    (kill : ℕ → KillAnswer) (now : ℕ) (e : DirEntry)
    → IsStale kill now e
    → removes kill now e ≡ true
unfolding removes is_old
IsStale→removes kill now e stale =
    let young : ltb now stale.changed ≡ false = ground (arith, stale.old) in
    let aged : ltb stale_socket_age (now - stale.changed) ≡ true = ground (arith, stale.old) in
    let dead = NoProcess→pid_exists kill stale.pid stale.dead in
    rw
      (
        stale.has_name, stale.has_pid, stale.has_meta, stale.socket, stale.has_changed, young, aged,
        dead, stale.removed,
      )
      refl

cleanup-keep :
    (kill : ℕ → KillAnswer) (now : ℕ) (entries : List DirEntry)
    → cleanup_stale_sockets kill now (map some entries) ≡ some (keep (removes kill now) entries)
unfolding cleanup_stale_sockets
cleanup-keep kill now [] = refl
cleanup-keep kill now (e ∷ entries) = rw (cleanup-keep kill now entries) (ground arith)

-- In a directory whose entries can be read, what is removed is exactly what is stale: a socket
-- named after a pid that no process has (zero, 2^31 or more, or one for which `kill` fails with
-- another error than EPERM), changed more than the stale age ago, whose removal succeeds.
pub cleanup-exact :
    (kill : ℕ → KillAnswer) (now : ℕ) (entries : List DirEntry)
    → (cleanup_stale_sockets kill now (map some entries) ≡ some (keep (removes kill now) entries))
      × ((e : DirEntry) → (removes kill now e ≡ true) ↔ IsStale kill now e)
cleanup-exact kill now entries =
    (cleanup-keep kill now entries, λ e. (removes→IsStale kill now e, IsStale→removes kill now e))

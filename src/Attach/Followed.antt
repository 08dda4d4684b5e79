-- ===== src/Attach/Followed.antt =====
-- The stream of an attached session (src/attach.rs): whenever the history reply comes, the live
-- view has the snapshot and all the output behind it.
use g2mirror.Prelude.{
  ℕ, ◌+◌, ◌-◌, ◌<◌, ◌≡◌, refl, sym, ◌∙◌, subst, Bool, true, false, List, [], ◌∷◌, ◌++◌, Option,
  none, some, ◌>>=◌, Bytes, append-nil, append_assoc, All, ltb, Bool-cases, inl, inr, arith,
}
use g2mirror.Session.Client.{
  FromSession, snapshot, output, title, exit, error, history_lines, connect, bell, activity,
  host_changed, SessionError, HistoryLine,
}
use g2mirror.Screen.{Vt100}
use g2mirror.Screen.Laws.{SizeLaws}
use g2mirror.Mirror.Valid.{IsValid, process-IsValid}
use g2mirror.Follow.{Fetching, start_live}
use g2mirror.Follow.Replay.{start_live-IsValid, start_live-snoc}
use g2mirror.Attach.{
  Mode, await_snapshot, fetching_history, live, Attached, Effect, go_live, on_output, on_history,
  on_message,
}

-- Not a snapshot, which starts the stream anew, and not an error.
abbrev pub is_plain : FromSession → Bool
is_plain (snapshot bytes width height next) = false
is_plain (error e) = false
is_plain (output bytes) = true
is_plain (history_lines start oldest next lines) = true
is_plain (title t) = true
is_plain (exit status) = true
is_plain (connect greeting) = true
is_plain (bell at) = true
is_plain (activity at) = true
is_plain (host_changed attached) = true

abbrev pub chunk_of : FromSession → List Bytes
chunk_of (output bytes) = bytes ∷ []
chunk_of (history_lines start oldest next lines) = []
chunk_of (snapshot bytes width height next) = []
chunk_of (error e) = []
chunk_of (title t) = []
chunk_of (exit status) = []
chunk_of (connect greeting) = []
chunk_of (bell at) = []
chunk_of (activity at) = []
chunk_of (host_changed attached) = []

abbrev pub reply_of : FromSession → ℕ
reply_of (history_lines start oldest next lines) = 1
reply_of (output bytes) = 0
reply_of (snapshot bytes width height next) = 0
reply_of (error e) = 0
reply_of (title t) = 0
reply_of (exit status) = 0
reply_of (connect greeting) = 0
reply_of (bell at) = 0
reply_of (activity at) = 0
reply_of (host_changed attached) = 0

-- The output and the number of history replies among messages.
abbrev pub chunks_of : List FromSession → List Bytes
chunks_of [] = []
chunks_of (m ∷ ms) = chunk_of m ++ chunks_of ms

abbrev pub replies_of : List FromSession → ℕ
replies_of [] = 0
replies_of (m ∷ ms) = reply_of m + replies_of ms

module _ (vt : Vt100) where
  -- The client over messages, up to an error that ends it.
  pub run : Attached vt → List FromSession → Option (Attached vt × Option SessionError)
  run a [] = some (a, none)
  run a (m ∷ ms) = on_message vt a m >>= λ (a', effects, failed).
      let rest = run a' ms in elim failed [ none ↦ rest | some e ↦ some (a', some e) ]

  module _ (rows cols : ℕ) (f : Fetching) where
    -- After `chunks` of output and `n` replies behind the snapshot of `f`: with no more replies
    -- than are to be skipped, the output is kept; with more, the mirror is what processing the
    -- snapshot and all the output leaves.
    abbrev pub Shows : List Bytes → ℕ → Mode vt → Type 0
    Shows chunks n await_snapshot = ⊥
    Shows chunks n (fetching_history g) =
        (g ≡ record f { pending = chunks; skip_replies = g.skip_replies })
        × (g.skip_replies + n ≡ f.skip_replies)
    Shows chunks n (live m) =
        (out : Bytes) × (start_live vt rows cols (record f { pending = chunks }) ≡ some (m, out))
        × IsValid vt m
        × (f.skip_replies < n)

    -- The client has the terminal's size and shows this.
    abbrev pub Follows : List Bytes → ℕ → Attached vt → Type 0
    Follows chunks n a = (a.rows ≡ rows) × (a.cols ≡ cols) × Shows chunks n a.mode

    abbrev Goes : List Bytes → ℕ → Option (Attached vt × List Effect × Option SessionError) → Type 0
    Goes chunks n r =
        (a : Attached vt) × (effects : List Effect) × (r ≡ some (a, effects, none))
        × Follows chunks n a

    module _ (laws : SizeLaws vt) (a : Attached vt) (chunks : List Bytes) (n : ℕ)
        (re : a.rows ≡ rows) (ce : a.cols ≡ cols) where
      -- A message that leaves the mode.
      alone : (o : Mode vt) → Shows chunks n o → Shows (chunks ++ []) (n + 0) o
      alone o h =
          let e : n ≡ n + 0 = omega arith in
          subst (λ c. Shows c (n + 0) o) (sym (append-nil chunks))
            (subst (λ k. Shows chunks k o) e h)

      output-Follows :
          (o : Mode vt) (bytes : Bytes)
          → Shows chunks n o
          → Goes (chunks ++ bytes ∷ []) (n + 0) (on_output vt a o bytes)
      unfolding on_output
      output-Follows await_snapshot bytes h = elim h [ ]
      output-Follows (fetching_history g) bytes (e, k) = (
        _,
        _,
        refl,
        (re, ce, ((λ i. record (e i) { pending = (e i).pending ++ bytes ∷ [] }), omega (arith, k))),
      )
      output-Follows (live m) bytes (out, e, v, k) =
          let (s, p, v', same) = process-IsValid vt laws m bytes v in
          rw p (
            _,
            _,
            refl,
            (
              re,
              ce,
              (
                out ++ s.1.host,
                start_live-snoc vt laws rows cols (record f { pending = chunks }) bytes (m, out) s e
                    p,
                v',
                omega (arith, k),
              ),
            ),
          )

      history-Follows :
          (o : Mode vt) (lines : List HistoryLine)
          → a.mode ≡ o
          → Shows chunks n o
          → Goes chunks (n + 1) (on_history vt a o lines)
      unfolding on_history go_live
      history-Follows await_snapshot lines eo h = elim h [ ]
      history-Follows (live m) lines eo (out, e, v, k) = (
        _,
        _,
        refl,
        (re, ce, subst (Shows chunks (n + 1)) (sym eo) (out, e, v, omega (arith, k))),
      )
      history-Follows (fetching_history g) lines eo (e, k) =
          elim (Bool-cases (ltb 0 g.skip_replies)) [
            | inl stale ↦ rw stale (
              _,
              _,
              refl,
              (
                re,
                ce,
                (
                  (λ i. record (e i) { skip_replies = g.skip_replies - 1 }),
                  ground (arith, k, stale),
                ),
              ),
            )
            | inr awaited ↦
                let (r, started, v) =
                  start_live-IsValid vt laws rows cols (record f { pending = chunks }) in
                let same : start_live vt a.rows a.cols g ≡ some r =
                  (λ i. start_live vt (re i) (ce i) (e i)) ∙ (unfold start_live in started) in
                rw (awaited, same)
                  (_, _, refl, (re, ce, (r.1, started, v, ground (arith, k, awaited))))
          ]

      message-Follows :
          (message : FromSession)
          → is_plain message ≡ true
          → Shows chunks n a.mode
          → Goes (chunks ++ chunk_of message) (n + reply_of message) (on_message vt a message)
      unfolding on_message
      message-Follows (snapshot bytes width height next) p h = absurd cc
      message-Follows (error e) p h = absurd cc
      message-Follows (output bytes) p h = output-Follows a.mode bytes h
      message-Follows (history_lines start oldest next lines) p h =
          rw append-nil (history-Follows a.mode lines refl h)
      message-Follows (title t) p h = (_, _, refl, (re, ce, alone a.mode h))
      message-Follows (exit status) p h = (_, _, refl, (re, ce, alone a.mode h))
      message-Follows (connect greeting) p h = (_, _, refl, (re, ce, alone a.mode h))
      message-Follows (bell at) p h = (_, _, refl, (re, ce, alone a.mode h))
      message-Follows (activity at) p h = (_, _, refl, (re, ce, alone a.mode h))
      message-Follows (host_changed attached) p h = (_, _, refl, (re, ce, alone a.mode h))

    module _ (laws : SizeLaws vt) where
      run-Follows :
          (ms : List FromSession) (a : Attached vt) (chunks : List Bytes) (n : ℕ)
          → All (λ m. is_plain m ≡ true) ms
          → Follows chunks n a
          → (a' : Attached vt) × (run a ms ≡ some (a', none))
            × Follows (chunks ++ chunks_of ms) (n + replies_of ms) a'
      unfolding run
      run-Follows [] a chunks n p (re, ce, h) =
          let e : n ≡ n + 0 = omega arith in
          (
            a,
            refl,
            subst (λ c. Follows c (n + 0) a) (sym (append-nil chunks))
                (subst (λ k. Follows chunks k a) e (re, ce, h)),
          )
      run-Follows (m ∷ ms) a chunks n (p, ps) (re, ce, h) =
          let (a', effects, e, h') = message-Follows laws a chunks n re ce m p h in
          let (a'', e', h'') = run-Follows ms a' (chunks ++ chunk_of m) (n + reply_of m) ps h' in
          let count : n + reply_of m + replies_of ms ≡ n + (reply_of m + replies_of ms) =
            omega arith in
          (
            a'',
            rw (e) e',
            subst (λ k. Follows (chunks ++ (chunk_of m ++ chunks_of ms)) k a'') count
                (subst (λ c. Follows c (n + reply_of m + replies_of ms) a'')
                  (append_assoc chunks (chunk_of m) (chunks_of ms)) h''),
          )

  -- A client that has its snapshot and waits for the history reply gets any messages but a new
  -- snapshot or an error, in any order. It does not fail or panic. While no more history replies
  -- have come than are to be skipped, it keeps all output in its order; with one more it is live,
  -- and at the end the mirror is exactly what processing the snapshot, what was pending, and all
  -- the output in its order leaves, whether a chunk came before or after that reply.
  pub run-fetching :
      (laws : SizeLaws vt) (a : Attached vt) (f : Fetching) (ms : List FromSession)
      → a.mode ≡ fetching_history f
      → All (λ m. is_plain m ≡ true) ms
      → (a' : Attached vt) × (run a ms ≡ some (a', none))
        × Follows a.rows a.cols f (f.pending ++ chunks_of ms) (0 + replies_of ms) a'
  run-fetching laws a f ms e p =
      run-Follows a.rows a.cols f laws ms a f.pending 0 p
        (refl, refl, subst (Shows a.rows a.cols f f.pending 0) (sym e) (refl, omega arith))

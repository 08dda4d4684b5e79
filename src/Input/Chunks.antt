-- ===== src/Input/Chunks.antt =====
-- What one input message puts into the queue of src/main.rs, and what one pump takes out.
use g2mirror.Prelude.{
  ℕ, ◌+◌, ◌-◌, ◌≤◌, ◌≡◌, ◌≢◌, inl, inr, refl, sym, ap, ◌∙◌, Bool, true, false, List, [], ◌∷◌, ◌++◌,
  Option, none, some, Bytes, arith, length, take, drop, take-append-drop, drop-drop, Bool-cases,
  All, append-nil, append_assoc, length-drop, take_all, min,
}
use g2mirror.Input.{
  InputDelay, Chunk, InputQueue, panics, slice, split, push, offsets_ok, pump_from, receive,
  max_input_delay_ms,
}

-- The bytes that wait.
abbrev pub contents : List Chunk → Bytes
contents [] = []
contents ((pause, bytes) ∷ cs) = bytes ++ contents cs

contents-append : (cs ds : List Chunk) → contents (cs ++ ds) ≡ contents cs ++ contents ds
contents-append [] ds = refl
contents-append ((pause, bytes) ∷ cs) ds =
    ap (◌++◌ bytes) (contents-append cs ds) ∙ sym (append_assoc bytes (contents cs) (contents ds))

slice_lem :
    (bytes : Bytes) (lo hi : ℕ)
    → lo ≤ hi
    → hi ≤ length bytes
    → slice bytes lo hi ≡ some (take (hi - lo) (drop lo bytes))
unfolding slice
slice_lem bytes lo hi h k = ground arith

take-drop-append-drop :
    (bytes : Bytes) (lo hi : ℕ)
    → lo ≤ hi
    → take (hi - lo) (drop lo bytes) ++ drop hi bytes ≡ drop lo bytes
take-drop-append-drop bytes lo hi h =
    let e : lo + (hi - lo) ≡ hi = omega arith in
    ap (λ k. take (hi - lo) (drop lo bytes) ++ drop k bytes) (sym e)
    ∙ ap (◌++◌ (take (hi - lo) (drop lo bytes))) (sym (drop-drop (hi - lo) lo bytes))
    ∙ take-append-drop (hi - lo) (drop lo bytes)

-- The chunks that an input is split into.
pub record IsSplit (bytes : Bytes) (prev pause : ℕ) (ds : List InputDelay) (cs : List Chunk)
    : Type 0 where
  pub whole : contents cs ≡ drop prev bytes
  pub count : length cs ≡ length ds + 1
  pub short : pause ≤ max_input_delay_ms → All (λ c. c.0 ≤ max_input_delay_ms) cs

split-IsSplit :
    (bytes : Bytes) (prev pause : ℕ) (ds : List InputDelay)
    → prev ≤ length bytes
    → offsets_ok (length bytes) prev ds ≡ true
    → (cs : List Chunk) × (split bytes prev pause ds ≡ some cs) × IsSplit bytes prev pause ds cs
unfolding split offsets_ok
split-IsSplit bytes prev pause [] h k = (
  (pause, drop prev bytes) ∷ [],
  rw (
    slice_lem bytes prev (length bytes) h (omega arith),
    take_all (length bytes - prev) (drop prev bytes) (omega (arith, length-drop prev bytes)),
  ),
  record { whole = append-nil _; count = omega arith; short = λ p. (p, tt) },
)
split-IsSplit bytes prev pause (d ∷ ds) h k =
    let lo : prev ≤ d.at = ground arith in
    let hi : d.at ≤ length bytes = ground arith in
    let rest : offsets_ok (length bytes) d.at ds ≡ true = ground arith in
    let (cs, e, p) = split-IsSplit bytes d.at (min d.ms max_input_delay_ms) ds hi rest in
    (
      (pause, take (d.at - prev) (drop prev bytes)) ∷ cs,
      rw (slice_lem bytes prev d.at lo hi, e),
      record {
        whole =
            ap (◌++◌ (take (d.at - prev) (drop prev bytes))) p.whole
            ∙ take-drop-append-drop bytes prev d.at lo;
        count = omega (arith, p.count);
        short = λ s. (s, p.short (omega arith));
      },
    )

-- An input whose offsets pass the check is queued whole and in order, behind what waits, and the
-- timer is left alone: it makes one chunk more than it has pauses, none with a pause above the
-- cap.
pub push-contents :
    (q : InputQueue) (bytes : Bytes) (ds : List InputDelay)
    → offsets_ok (length bytes) 0 ds ≡ true
    → (cs : List Chunk) × (push q bytes ds ≡ some (record { queue = q.queue ++ cs; due = q.due }))
      × (contents (q.queue ++ cs) ≡ contents q.queue ++ bytes)
      × (length cs ≡ length ds + 1)
      × All (λ c. c.0 ≤ max_input_delay_ms) cs
unfolding push
push-contents q bytes ds k =
    let (cs, e, p) = split-IsSplit bytes 0 0 ds (omega arith) k in
    (
      cs,
      rw e,
      contents-append q.queue cs ∙ ap (◌++◌ (contents q.queue)) p.whole,
      p.count,
      p.short (omega arith),
    )

-- The check leaves no index out of range: no input message makes the wrapper panic.
pub receive-ne-panics :
    (clock : ℕ → ℕ) (pty : ℕ → Bool) (q : InputQueue) (bytes : Bytes) (ds : List InputDelay)
    → receive clock pty q bytes ds ≢ panics
unfolding receive
receive-ne-panics clock pty q bytes ds e = elim (Bool-cases (offsets_ok (length bytes) 0 ds)) [
  | inl good ↦ let (cs, p, _, _, _) = push-contents q bytes ds good in ground arith
  | inr bad ↦ ground arith
]

-- The pump fails only if a write to the pty does.
pub pump_from-fails :
    (clock : ℕ → ℕ) (pty : ℕ → Bool) (n : ℕ) (cs : List Chunk) (due : Option ℕ)
    → (pump_from clock pty n cs due).failed ≡ true
    → (k : ℕ) × (pty k ≡ false)
unfolding pump_from
pump_from-fails clock pty n [] due e = absurd cc
pump_from-fails clock pty n ((pause, []) ∷ cs) due e =
    pump_from-fails clock pty (n + 1) cs none (ground (arith, e))
pump_from-fails clock pty n ((pause, b ∷ bs) ∷ cs) due e = elim (Bool-cases (pty n)) [
  | inl writes ↦ pump_from-fails clock pty (n + 1) cs none (ground (arith, e, writes))
  | inr bad ↦ (n, bad)
]

pub pump_from-contents :
    (clock : ℕ → ℕ) (pty : ℕ → Bool) (n : ℕ) (cs : List Chunk) (due : Option ℕ)
    → (pump_from clock pty n cs due).failed ≡ false
    → (pump_from clock pty n cs due).written ++ contents (pump_from clock pty n cs due).left.queue
      ≡ contents cs
unfolding pump_from
pump_from-contents clock pty n [] due e = refl
pump_from-contents clock pty n ((pause, []) ∷ cs) due e =
    ground (arith, pump_from-contents clock pty (n + 1) cs none)
pump_from-contents clock pty n ((pause, b ∷ bs) ∷ cs) due e =
    let rest = pump_from clock pty (n + 1) cs none in
    ground (
      arith,
      pump_from-contents clock pty (n + 1) cs none,
      append_assoc (b ∷ bs) rest.written (contents rest.left.queue),
    )

-- ===== src/Attach/Tests.antt =====
-- Runs of the attach client with the small terminal, and the theorems at concrete inputs.
use g2mirror.Prelude.{ℕ, ◌≡◌, refl, Bool, true, false, [], ◌∷◌, List, none, some, Bytes, ascii}
use g2mirror.Session.Client.{FromSession, output, title, history_lines}
use g2mirror.Mirror.Ticker.{ticker, ticker_sizes}
use g2mirror.Follow.{Fetching}
use g2mirror.Attach.{Attached, fetching_history}
use g2mirror.Attach.Args.{AttachOpts}
use g2mirror.Attach.Choice.{Probe, Chosen, attach_choice}
use g2mirror.Attach.Choice.Claimable.{IsClaimable, FineChosen, attach_choice-IsClaimable}
use g2mirror.Attach.Followed.{run, Follows, run-fetching}

abbrev waiting : Fetching
waiting = record {
  stream_rows = 4;
  stream_cols = 8;
  snapshot = ascii "ab";
  pending = ascii "c" ∷ [];
  skip_replies = 1;
}

abbrev attached : Attached ticker
attached = record {
  rows = 6;
  cols = 8;
  mode = fetching_history waiting;
  history_oldest = 0;
  detach_key = some 0x1c;
  exit_status = none;
  last_error = none;
  detached = false;
}

abbrev messages : List FromSession
messages =
    output (ascii "d")
    ∷ history_lines 0 0 0 []
    ∷ title (ascii "t")
    ∷ output (ascii "e")
    ∷ history_lines 0 0 0 []
    ∷ output (ascii "f")
    ∷ []

run-fetching_example :
    (a : Attached ticker) × (run ticker attached messages ≡ some (a, none))
    × Follows ticker 6 8 waiting (ascii "c" ∷ ascii "d" ∷ ascii "e" ∷ ascii "f" ∷ []) 2 a
run-fetching_example =
    run-fetching ticker ticker_sizes attached waiting messages refl
      (refl, (refl, (refl, (refl, (refl, (refl, tt))))))

abbrev probe : ℕ → Bool → Probe
probe pid detached = record {
  path = ascii "/run/s";
  pid = pid;
  command = ascii "sh";
  cwd = ascii "/home";
  title = none;
  headless = true;
  detached = detached;
  launched = none;
}

abbrev probes : List Probe
probes = probe 7 true ∷ probe 5 false ∷ probe 3 true ∷ []

abbrev any_of_them : AttachOpts
any_of_them = record { pattern = none; force = false; detach_key = none }

-- An arrow down, then a return.
abbrev presses : List Bytes
presses = (0x1b ∷ b'[' ∷ b'B' ∷ []) ∷ (b'\r' ∷ []) ∷ []

attach_choice-IsClaimable_example :
    (r : Chosen) × (attach_choice (λ s. s) any_of_them probes presses ≡ some r)
    × FineChosen (IsClaimable (λ p. p.headless ≡ true) (λ s. s) any_of_them) r
attach_choice-IsClaimable_example =
    attach_choice-IsClaimable (λ p. p.headless ≡ true) (λ s. s) any_of_them probes presses
      (refl, (refl, (refl, tt)))

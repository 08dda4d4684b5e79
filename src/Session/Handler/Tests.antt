-- ===== src/Session/Handler/Tests.antt =====
-- Messages to a session with one viewer.
use g2mirror.Prelude.{ℕ, ◌≡◌, refl, Bool, true, List, [], ◌∷◌, Option, some, Bytes, arith, ◌⊎◌}
use g2mirror.Input.{InputDelay}
use g2mirror.Session.Client.{viewer, stalled}
use g2mirror.Session.Handler.{input, done, fails, handle_viewer_message}
use g2mirror.Session.Handler.ReadOnly.{IsUntouched, handle_viewer_message-IsUntouched}
use g2mirror.Session.Examples.{remembering, client, session}

abbrev decode : Bytes → Option Bytes
decode = some

abbrev clock : ℕ → ℕ
clock n = 0

abbrev pty : ℕ → Bool
pty n = true

handle_viewer_message-IsUntouched_example :
    IsUntouched remembering decode clock pty (session (client 1 0 viewer true) true) (
      handle_viewer_message remembering decode clock pty
        (session (client 1 0 viewer true) true)
        0
        (input (b'x' ∷ []) []))
    × ((text : Bytes) (delays : List InputDelay)
        → input (b'x' ∷ []) [] ≡ input text delays
        → ((handle_viewer_message remembering decode clock pty
              (session (client 1 0 viewer true) true)
              0
              (input (b'x' ∷ []) [])).1
            ≡ done)
          ⊎ ((handle_viewer_message remembering decode clock pty
                (session (client 1 0 viewer true) true)
                0
                (input (b'x' ∷ []) [])).1
              ≡ fails stalled))
handle_viewer_message-IsUntouched_example =
    handle_viewer_message-IsUntouched remembering decode clock pty
      (session (client 1 0 viewer true) true) 0 (input (b'x' ∷ []) []) refl (omega arith)

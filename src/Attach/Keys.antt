-- ===== src/Attach/Keys.antt =====
-- What typed bytes make the attach client (src/attach.rs) do.
use g2mirror.Prelude.{
  ℕ, ◌≡◌, refl, ◌∙◌, append-nil, Bool, true, false, List, [], ◌∷◌, ◌++◌, some, Bytes, All, any,
  is_empty, ◌==◌, if◌then◌else◌, arith,
}
use g2mirror.Session.Handler.{ToSession, unview, input}
use g2mirror.Screen.{Vt100}
use g2mirror.Attach.{
  refresh_key, until_key, Mode, await_snapshot, fetching_history, live, refreshes, Attached, Effect,
  writes, sends, on_keys,
}

until_key-none :
    (k : ℕ) (bytes : Bytes)
    → All (λ b. (b == k) ≡ false) bytes
    → until_key (some k) bytes ≡ (bytes, false)
unfolding until_key
until_key-none k [] h = refl
until_key-none k (b ∷ bytes) (e, h) = rw (e, until_key-none k bytes h) refl

until_key-first :
    (k : ℕ) (before after : Bytes)
    → All (λ b. (b == k) ≡ false) before
    → until_key (some k) (before ++ k ∷ after) ≡ (before, true)
unfolding until_key
until_key-first k [] after h = let same : (k == k) ≡ true = ground arith in rw same refl
until_key-first k (b ∷ before) after (e, h) = rw (e, until_key-first k before after h) refl

-- What is sent to the session.
abbrev pub sent : List Effect → List ToSession
sent [] = []
sent (writes bytes ∷ effects) = sent effects
sent (sends message ∷ effects) = message ∷ sent effects

abbrev pub typed : Bytes → List ToSession
typed bytes = if is_empty bytes then [] else input bytes [] ∷ []

module _ (vt : Vt100) where
  -- The refresh writes only, whatever the mode.
  sent-refresh :
      (refresh : Bool) (mode : Mode vt) (bytes : Bytes) (more : List Effect)
      → sent (
          (if refresh then refreshes vt mode else [])
          ++ (if is_empty bytes then [] else sends (input bytes []) ∷ [])
          ++ more)
        ≡ typed bytes ++ sent more
  sent-refresh false mode [] more = refl
  sent-refresh false mode (b ∷ bytes) more = refl
  sent-refresh true await_snapshot [] more = refl
  sent-refresh true await_snapshot (b ∷ bytes) more = refl
  sent-refresh true (fetching_history f) [] more = refl
  sent-refresh true (fetching_history f) (b ∷ bytes) more = refl
  sent-refresh true (live m) [] more = refl
  sent-refresh true (live m) (b ∷ bytes) more = refl

  -- Bytes without the detach key go to the session as they are and do not detach; those in front of
  -- the first detach key go to it, then the request to leave the view, and nothing after the key.
  pub on_keys-sends :
      (a : Attached vt) (k : ℕ) (before after : Bytes)
      → a.detach_key ≡ some k
      → All (λ b. (b == k) ≡ false) before
      → (sent (on_keys vt a before).1 ≡ typed before)
        × ((on_keys vt a before).0.detached ≡ a.detached)
        × (sent (on_keys vt a (before ++ k ∷ after)).1 ≡ typed before ++ unview ∷ [])
        × ((on_keys vt a (before ++ k ∷ after)).0.detached ≡ true)
  unfolding on_keys
  on_keys-sends a k before after e h =
      rw (e, until_key-none k before h, until_key-first k before after h)
        (
          sent-refresh (any (λ b. b == refresh_key) before) a.mode before []
              ∙ append-nil (typed before),
          refl,
          sent-refresh (any (λ b. b == refresh_key) before) a.mode before (sends unview ∷ []),
          refl,
        )

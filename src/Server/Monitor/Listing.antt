-- ===== src/Server/Monitor/Listing.antt =====
-- What `list_sessions` of src/bin/g2mirror-server.rs shows.
use g2mirror.Prelude.{ℕ, List, [], ◌∷◌, Option, Bytes, map, All, All-keep}
use g2mirror.Paths.{KillAnswer}
use g2mirror.Server.Config.{RegexEngine, CompiledRule}
use g2mirror.Server.Monitor.{
  BellState, session_allowed, live_session_sockets, session_info, list_sessions,
}
use g2mirror.Server.Monitor.Allowed.{Allows, session_allowed-Allows}

module _ (kill : ℕ → KillAnswer) (engine : RegexEngine) where
  All-session_info :
      (P : Bytes → Type 0) (state : BellState) (names : List Bytes)
      → All P names
      → All (λ i. P i.socket) (map (session_info kill engine state) names)
  unfolding session_info
  All-session_info P state [] h = tt
  All-session_info P state (name ∷ names) (h, t) = (h, All-session_info P state names t)

  -- Every session that is listed is allowed by the filter.
  pub list_sessions-allowed :
      (dir : Option (List (Option Bytes))) (state : BellState) (rules : List (CompiledRule engine))
      → All (λ i. Allows engine rules state i.socket) (list_sessions kill engine dir state rules)
  unfolding list_sessions
  list_sessions-allowed dir state rules = All-session_info (Allows engine rules state) state _ (
      All-keep (Allows engine rules state) (session_allowed engine rules state)
        (live_session_sockets kill dir) (session_allowed-Allows engine rules state))

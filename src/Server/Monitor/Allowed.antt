-- ===== src/Server/Monitor/Allowed.antt =====
-- Which sessions a filter shows (`session_allowed` of src/bin/g2mirror-server.rs).
use g2mirror.Prelude.{
  ◌≡◌, refl, true, List, [], ◌∷◌, Option, none, some, Bytes, Option-cases, inl, inr, subst,
}
use g2mirror.Prelude.Maps.{lookup, get_or}
use g2mirror.Server.Config.{RegexEngine, CompiledRule}
use g2mirror.Server.Config.Sees.{Sees, filter_allows-Sees}
use g2mirror.Server.Monitor.{BellState, TerminalState, unknown, terminal, session_allowed}

-- The directory and the title that are known of a session, if any.
abbrev pub known_cwd : Option TerminalState → Option Bytes
known_cwd none = none
known_cwd (some t) = t.cwd

abbrev pub known_title : Option TerminalState → Option Bytes
known_title none = none
known_title (some t) = t.title

module _ (engine : RegexEngine) where
  -- The filter lets the session through as far as it is known.
  abbrev pub Allows : List (CompiledRule engine) → BellState → Bytes → Type 0
  Allows rules state socket =
      Sees engine rules (known_cwd (lookup state.terminals socket))
        (known_title (lookup state.terminals socket))

  pub session_allowed-Allows :
      (rules : List (CompiledRule engine)) (state : BellState) (socket : Bytes)
      → session_allowed engine rules state socket ≡ true
      → Allows rules state socket
  unfolding session_allowed terminal
  session_allowed-Allows [] state socket h = inl refl
  session_allowed-Allows (r ∷ rules) state socket h =
      let sees : (t : TerminalState)
          → terminal state socket ≡ t
          → Sees engine (r ∷ rules) t.cwd t.title =
        λ t e.
          subst (λ x. Sees engine (r ∷ rules) x.cwd x.title) e
            (filter_allows-Sees engine (r ∷ rules) _ _ h) in
      elim (Option-cases (lookup state.terminals socket)) [
        | inl e ↦ rw e (sees unknown (rw (get_or, e) refl))
        | inr (t, e) ↦ rw e (sees t (rw (get_or, e) refl))
      ]

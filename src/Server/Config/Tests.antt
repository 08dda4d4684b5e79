-- ===== src/Server/Config/Tests.antt =====
-- The configuration of a small server, and the theorems about it at work.
use g2mirror.Prelude.{◌<◌, ◌≡◌, refl, true, List, [], ◌∷◌, none, All, arith, ascii}
use g2mirror.Prelude.Decimal.{parse, parse_digits}
use g2mirror.Prelude.Maps.{Map}
use g2mirror.Prelude.Results.{ok}
use g2mirror.Server.Config.{
  CompiledRule, Config, tokens, compile_filter, compile_rules, compile_rule, compile_part, anchored,
  filters, filters_from, filter_of, filter_allows, validate_launch, check_presets, check_preset,
  check_size, check_grants, check_grant, check_named, check_names, size_ranks, parse_preset_size,
  split_once, position,
}
use g2mirror.Server.Config.Validation.{IsStartable, IsSound, validate_launch-ok}
use g2mirror.Server.Config.Ranks.{viewer, host, rank, rank_host_last}
use g2mirror.Server.Config.Filters.{filters_unfiltered}
use g2mirror.Server.Examples.{literal, token, titled, glasses, config}

ranked : size_ranks config (ascii "tablet") ≡ (2, 1)
unfolding size_ranks position
ranked = refl

validated : validate_launch config ≡ ok tt
unfolding validate_launch tokens check_presets check_preset check_size check_grants check_grant
    check_named check_names parse_preset_size split_once parse parse_digits
validated = refl

validate_launch-ok_example :
    All (λ p. IsStartable p.1) config.launch × All (IsSound config) (tokens config)
validate_launch-ok_example = validate_launch-ok config validated

-- No entry for the host.
abbrev hostless : Config
hostless = record config { size_precedence = ascii "glasses" ∷ [] }

rank_host_last_example : rank hostless (viewer (ascii "phone")) < rank hostless host
rank_host_last_example = rank_host_last hostless (ascii "phone") refl (omega arith)

abbrev compiled : Map (List (CompiledRule literal))
compiled = (ascii "glasses", []) ∷ (ascii "default", []) ∷ []

compiles : filters literal config ≡ ok compiled
unfolding filters filters_from tokens compile_filter compile_rules compile_rule compile_part
    anchored
compiles = refl

only_glasses : filters_from literal [] (glasses ∷ []) ≡ ok ((ascii "glasses", []) ∷ [])
unfolding filters_from compile_filter compile_rules
only_glasses = refl

-- The token called `default` has a filter of its own, which is not in force.
filters_unfiltered_example :
    filter_allows literal
      (filter_of literal compiled (token (ascii "default") true (titled ∷ [])))
      none
      none
    ≡ true
filters_unfiltered_example =
    filters_unfiltered literal config (ascii "abc") (token (ascii "default") true (titled ∷ []))
      refl refl compiles none none

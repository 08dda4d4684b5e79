-- ===== src/Server/Config/Filters.antt =====
-- Filters (src/bin/g2mirror-server.rs): what a rule allows, and whose filter is in force.
use g2mirror.Prelude.{
  unwrap_or, same, All, sym, ap, ◌∙◌, ◌≡◌, refl, true, false, List, [], ◌∷◌, ◌++◌, Option, some,
  Bytes, ascii,
}
use g2mirror.Prelude.Maps.{Map, entry, get_or, lookup-entry, lookup-entry_other}
use g2mirror.Prelude.Results.{ok_injective, ok, bind_ok}
use g2mirror.Server.Config.{
  tokens, compile_rules, filter_allows, flag, RegexEngine, CompiledRule, TokenConfig, Config,
  compile_filter, filters_from, filters, filter_of,
}

module _ (engine : RegexEngine) where
  -- A later token of another name changes nothing.
  filters_from-keeps :
      (m : Map (List (CompiledRule engine))) (later : List TokenConfig) (name : Bytes)
      {result : Map (List (CompiledRule engine))}
      → All (λ t. same t.name name ≡ false) later
      → filters_from engine m later ≡ ok result
      → get_or result name [] ≡ get_or m name []
  unfolding filters_from
  filters_from-keeps m [] name h e =
      let f : _ ≡ m = sym (ok_injective e) in ap (λ r. get_or r name []) f
  filters_from-keeps m (token ∷ later) name (other, h) e =
      let (rules, c, k) = bind_ok (compile_filter engine token) _ e in
      filters_from-keeps (entry m token.name rules (λ _. rules)) later name h k
      ∙ rw (get_or, lookup-entry_other m token.name name rules (λ _. rules) other) refl

  -- The filter under a name is the compiled filter of the last token that has it.
  pub filters_from-last :
      (m : Map (List (CompiledRule engine))) (earlier : List TokenConfig) (token : TokenConfig)
      (later : List TokenConfig) {result : Map (List (CompiledRule engine))}
      → All (λ t. same t.name token.name ≡ false) later
      → filters_from engine m (earlier ++ token ∷ later) ≡ ok result
      → compile_filter engine token ≡ ok (filter_of engine result token)
  unfolding filters_from filter_of
  filters_from-last m [] token later h e =
      let (rules, c, k) = bind_ok (compile_filter engine token) _ e in
      let kept = filters_from-keeps (entry m token.name rules (λ _. rules)) later token.name h k in
      let put : get_or (entry m token.name rules (λ _. rules)) token.name [] ≡ rules =
        rw (get_or, lookup-entry m token.name rules (λ _. rules)) refl in
      c ∙ ap ok (sym (kept ∙ put))
  filters_from-last m (t ∷ earlier) token later h e =
      let (rules, c, k) = bind_ok (compile_filter engine t) _ e in
      filters_from-last (entry m t.name rules (λ _. rules)) earlier token later h k

  unfolded_rules : (token : TokenConfig) → token.filter ≡ [] → compile_filter engine token ≡ ok []
  unfolding compile_filter compile_rules
  unfolded_rules token e = rw (compile_filter, e) refl

  -- With the legacy single-token field, no token that is called `default` is filtered, whatever
  -- its own filter says: the legacy entry takes its place.
  pub filters_unfiltered :
      (config : Config) (hash : Bytes) (token : TokenConfig)
      {compiled : Map (List (CompiledRule engine))}
      → config.auth_token_hash ≡ some hash
      → token.name ≡ ascii "default"
      → filters engine config ≡ ok compiled
      → (cwd title : Option Bytes)
      → filter_allows engine (filter_of engine compiled token) cwd title ≡ true
  unfolding filters tokens filter_of filter_allows
  filters_unfiltered config hash token {compiled} legacy named e cwd title =
      let entry_of : TokenConfig = record {
        name = ascii "default";
        token_hash = hash;
        readonly = unwrap_or config.readonly false;
        filter = [];
        launch = flag false;
      } in
      let listed : tokens config ≡ config.auth_tokens ++ entry_of ∷ [] = rw (tokens, legacy) refl in
      let e' : filters_from engine [] (config.auth_tokens ++ entry_of ∷ []) ≡ ok compiled =
        ap (filters_from engine []) (sym listed) ∙ e in
      let none_later : All (λ (t : TokenConfig). same t.name entry_of.name ≡ false) [] = tt in
      let last : compile_filter engine entry_of ≡ ok (filter_of engine compiled entry_of) =
        filters_from-last [] config.auth_tokens entry_of [] none_later e' in
      let no_rules : compile_filter engine entry_of ≡ ok [] = unfolded_rules entry_of refl in
      let empty : filter_of engine compiled entry_of ≡ [] = ok_injective (sym last ∙ no_rules) in
      let same_name : filter_of engine compiled token ≡ [] =
        ap (λ n. get_or compiled n []) named ∙ empty in
      rw (filter_allows, same_name) refl

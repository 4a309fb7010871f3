-- ===== src/Declarations/Strategies.antt =====
-- services/source-redaction-strategies.ts: the strategies of a resource, whichever field has them.
use chameleon_vault.Prelude.{Bool, false, ◌||◌, Option, none, some, List, [], ◌∷◌}
use chameleon_vault.Declarations.Types.{
  SourceRedactionStrategy, no_redaction, strategy_eq, PiiRegistryEntry,
}

-- The legacy field: NONE and absence mean no strategy.
abbrev legacy_strategies : Option SourceRedactionStrategy → List SourceRedactionStrategy
legacy_strategies none = []
legacy_strategies (some no_redaction) = []
legacy_strategies (some s) = s ∷ []

unfoldable pub resolve_source_redaction_strategies :
    Option SourceRedactionStrategy
    → Option (List SourceRedactionStrategy)
    → List SourceRedactionStrategy
resolve_source_redaction_strategies legacy (some strategies) = strategies
resolve_source_redaction_strategies legacy none = legacy_strategies legacy

abbrev pub includes_strategy : SourceRedactionStrategy → List SourceRedactionStrategy → Bool
includes_strategy s [] = false
includes_strategy s (x ∷ xs) = strategy_eq x s || includes_strategy s xs

unfoldable pub has_source_redaction_strategy : PiiRegistryEntry → SourceRedactionStrategy → Bool
unfolding resolve_source_redaction_strategies
has_source_redaction_strategy entry strategy = includes_strategy strategy (
    resolve_source_redaction_strategies entry.source_redaction_strategy
      entry.source_redaction_strategies)

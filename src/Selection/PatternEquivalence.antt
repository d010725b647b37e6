-- ===== src/Selection/PatternEquivalence.antt =====
-- The rule set of a pair's flat pattern list selects exactly what the list matches.
use qlabs_catalog_sync.Prelude.{
  ℕ, ◌+◌, ◌<◌, ◌≡◌, refl, sym, ap, ◌∙◌, ◌≢◌, ◌↔◌, inl, inr, subst, true, false, List, [], ◌∷◌, map,
  String, none, some, All, All-middle, arith, if◌then◌else◌, Bool-cases, ok, string_eq,
}
use qlabs_catalog_sync.Prelude.Dict.{lookup}
use qlabs_catalog_sync.Prelude.Distinct.{DistinctBy, first_repeat}
use qlabs_catalog_sync.Prelude.Sort.{sort}
use qlabs_catalog_sync.Prelude.Sort.Ordinal.{IsAscending, sort_by_ascending, IsAscending-DistinctBy}
use qlabs_catalog_sync.Prelude.Text.{split, before, after}
use qlabs_catalog_sync.Prelude.Text.Split.{split-two}
use qlabs_catalog_sync.PairPatterns.{matches_catalog_schema, matches}
use qlabs_catalog_sync.Selection.Types.{
  RuleScope, object, dataset, scope_eq, include, match, no_match,
}
use qlabs_catalog_sync.Selection.Glob.{translate}
use qlabs_catalog_sync.Selection.Pattern.{validate_pattern, validate_glob}
use qlabs_catalog_sync.Selection.Candidate.{SelectionCandidate, override_keys, name_segments}
use qlabs_catalog_sync.Selection.Matcher.{
  SelectionRule, Matcher, glob_matcher, compile_matcher, evaluate_matcher,
}
use qlabs_catalog_sync.Selection.RuleSet.{
  SelectionRuleSet, CompiledRule, compile_all, build_scope, build, rules_for, override_for,
  overrides_in, in_scope, pattern_rule, check_ordinals, first_override, pattern_rules_from,
  object_rules_from_catalog_schema_patterns, collect_overrides,
}
use qlabs_catalog_sync.Selection.Evaluate.{evaluate_rule, evaluate, included}
use qlabs_catalog_sync.Selection.LastMatch.{Decides, NoneMatches, evaluate_last_match}
use qlabs_catalog_sync.Selection.Ordering.{ordinal_of, id_of, Arranged-build_scope, Built-build}

-- The patterns pass `_validate_catalog_schema_pattern`, and `validate_pattern` with it.
abbrev pub AllValid : List String → Type 0
AllValid patterns = All (λ p. validate_glob p object ≡ ok tt) patterns

-- The text of an index, `f"{prefix}-{index}"`, tells the index.
abbrev pub IsInjective : (ℕ → String) → Type 0
IsInjective name = (i j : ℕ) → name i ≡ name j → i ≡ j

valid-split :
    (p : String) → validate_glob p object ≡ ok tt → split b'.' p ≡ before b'.' p ∷ after b'.' p ∷ []
unfolding validate_glob
valid-split p h = split-two b'.' p (ground arith)

module _ (name : ℕ → String) where
  pattern_rules-above :
      (k i : ℕ) (patterns : List String)
      → k < i
      → All (λ r. k < ordinal_of r) (pattern_rules_from name i patterns)
  unfolding pattern_rules_from
  pattern_rules-above k i [] h = tt
  pattern_rules-above k i (p ∷ patterns) h =
      (h, pattern_rules-above k (i + 1) patterns (omega arith))

  pattern_rules-IsAscending :
      (i : ℕ) (patterns : List String) → IsAscending ordinal_of (pattern_rules_from name i patterns)
  unfolding pattern_rules_from
  pattern_rules-IsAscending i [] = tt
  pattern_rules-IsAscending i (p ∷ patterns) = (
    pattern_rules-above i (i + 1) patterns (omega arith),
    pattern_rules-IsAscending (i + 1) patterns,
  )

  module _ (injective : IsInjective name) where
    pattern_rules-ids_above :
        (k i : ℕ) (patterns : List String)
        → k < i
        → All (λ r. name k ≢ id_of r) (pattern_rules_from name i patterns)
    unfolding pattern_rules_from
    pattern_rules-ids_above k i [] h = tt
    pattern_rules-ids_above k i (p ∷ patterns) h = (
      λ e. absurd (omega (arith, injective k i e)),
      pattern_rules-ids_above k (i + 1) patterns (omega arith),
    )

    pattern_rules-ids :
        (i : ℕ) (patterns : List String) → DistinctBy id_of (pattern_rules_from name i patterns)
    unfolding pattern_rules_from
    pattern_rules-ids i [] = tt
    pattern_rules-ids i (p ∷ patterns) = (
      pattern_rules-ids_above i (i + 1) patterns (omega arith),
      pattern_rules-ids (i + 1) patterns,
    )

  in_object :
      (i : ℕ) (patterns : List String)
      → in_scope object (pattern_rules_from name i patterns) ≡ pattern_rules_from name i patterns
  unfolding pattern_rules_from in_scope
  in_object i [] = refl
  in_object i (p ∷ patterns) = rw (in_object (i + 1) patterns) (ground arith)

  in_dataset :
      (i : ℕ) (patterns : List String) → in_scope dataset (pattern_rules_from name i patterns) ≡ []
  unfolding pattern_rules_from in_scope
  in_dataset i [] = refl
  in_dataset i (p ∷ patterns) = rw (in_dataset (i + 1) patterns) (ground arith)

build_scope-nil : (casefold : String → String) → build_scope casefold [] ≡ ok []
unfolding build_scope check_ordinals compile_all first_repeat sort
build_scope-nil casefold = refl

abbrev compiled_pattern : String → Matcher
compiled_pattern p = glob_matcher (map translate (split b'.' p))

module _ (casefold : String → String) (name : ℕ → String) where
  compiled_from : List SelectionRule → List CompiledRule
  compiled_from [] = []
  compiled_from (r ∷ rules) =
      record { rule = r; matcher = compiled_pattern r.pattern } ∷ compiled_from rules

  abbrev rules_at : ℕ → List String → List CompiledRule
  rules_at i patterns = compiled_from (pattern_rules_from name i patterns)

  compile_all-patterns :
      (i : ℕ) (patterns : List String)
      → AllValid patterns
      → compile_all casefold (pattern_rules_from name i patterns) ≡ ok (rules_at i patterns)
  unfolding pattern_rules_from compiled_from compile_all compile_matcher validate_pattern
  compile_all-patterns i [] h = refl
  compile_all-patterns i (p ∷ patterns) (h, hs) = rw (h, compile_all-patterns (i + 1) patterns hs)

  abbrev pattern_rule_set : List String → SelectionRuleSet
  pattern_rule_set patterns = record {
    object_rules = rules_at 0 patterns;
    dataset_rules = [];
    object_overrides = [];
    dataset_overrides = [];
  }

  build-patterns :
      (patterns : List String)
      → IsInjective name
      → AllValid patterns
      → build casefold (object_rules_from_catalog_schema_patterns name patterns) []
        ≡ ok (pattern_rule_set patterns)
  unfolding compiled_from object_rules_from_catalog_schema_patterns collect_overrides
  build-patterns patterns injective valid = Built-build casefold _ [] _ (record {
    ids = pattern_rules-ids name injective 0 patterns;
    objects = rw (in_object name 0 patterns) (
        Arranged-build_scope casefold (record {
          ordinals =
              IsAscending-DistinctBy ordinal_of _ (pattern_rules-IsAscending name 0 patterns);
          compiled_from =
              rw (sort_by_ascending ordinal_of _ (pattern_rules-IsAscending name 0 patterns))
                (compile_all-patterns 0 patterns valid);
        }));
    datasets = rw (in_dataset name 0 patterns) (build_scope-nil casefold);
    scoped = refl;
  })

  first_override-nil : (keys : List String) → first_override [] keys ≡ none
  unfolding first_override lookup
  first_override-nil [] = refl
  first_override-nil (k ∷ keys) = first_override-nil keys

  overrides_in-patterns :
      (patterns : List String) (scope : RuleScope)
      → overrides_in scope (pattern_rule_set patterns) ≡ []
  overrides_in-patterns patterns object = refl
  overrides_in-patterns patterns dataset = refl

  no_override :
      (patterns : List String) (c : SelectionCandidate)
      → override_for (pattern_rule_set patterns) c ≡ none
  unfolding override_for
  no_override patterns c =
      rw (overrides_in-patterns patterns c.scope) (first_override-nil (override_keys c))

  All-include :
      (i : ℕ) (patterns : List String) → All (λ x. x.rule.decision ≡ include) (rules_at i patterns)
  unfolding compiled_from pattern_rules_from
  All-include i [] = tt
  All-include i (p ∷ patterns) = (refl, All-include (i + 1) patterns)

  module _ (c : SelectionCandidate) {n catalog schema : String} (named : c.qualified_name ≡ some n)
      (parts : split b'.' n ≡ catalog ∷ schema ∷ []) where
    verdict-pattern :
        (r : SelectionRule) (p : String)
        → validate_glob p object ≡ ok tt
        → evaluate_rule casefold (record { rule = r; matcher = compiled_pattern p }) c
          ≡ (if matches_catalog_schema p catalog schema then match else no_match)
    unfolding matches_catalog_schema evaluate_matcher
    verdict-pattern r p valid = rw (valid-split p valid, named, name_segments, parts) (ground arith)

    -- No rule matches exactly when no pattern does.
    none_matches :
        (i : ℕ) (patterns : List String)
        → AllValid patterns
        → (NoneMatches casefold c (rules_at i patterns)) ↔ (matches patterns catalog schema ≡ false)
    unfolding compiled_from pattern_rules_from matches
    none_matches i [] valid = (λ _. refl, λ _. tt)
    none_matches i (p ∷ patterns) (v, vs) =
        let rest = none_matches (i + 1) patterns vs in
        let head = verdict-pattern (pattern_rule name i p) p v in ground (arith, head, rest)

    matches_of_Decides :
        (patterns : List String) {r : SelectionRule}
        → AllValid patterns
        → Decides casefold c (rules_at 0 patterns) r
        → (r.decision ≡ include) × (matches patterns catalog schema ≡ true)
    matches_of_Decides patterns valid d = (
      sym (ap (λ (r : SelectionRule). r.decision) d.named)
          ∙ All-middle (λ x. x.rule.decision ≡ include) d.earlier d.entry d.later
              (subst (All (λ x. x.rule.decision ≡ include)) d.split (All-include 0 patterns)),
      elim (Bool-cases (matches patterns catalog schema)) [
        | inl yes_ ↦ yes_
        | inr no_ ↦
            let missed =
              subst (NoneMatches casefold c) d.split ((none_matches 0 patterns valid).1 no_) in
            absurd (
              All-middle (λ x. evaluate_rule casefold x c ≢ match) d.earlier d.entry d.later missed
                d.hit)
      ],
    )

    included-matches :
        (patterns : List String)
        → AllValid patterns
        → c.scope ≡ object
        → included (evaluate casefold (pattern_rule_set patterns) c)
          ≡ matches patterns catalog schema
    unfolding rules_for
    included-matches patterns valid scoped =
        let s = pattern_rule_set patterns in
        let e : rules_for s c.scope ≡ rules_at 0 patterns = rw scoped in
        elim (evaluate_last_match casefold s c (no_override patterns c)) [
          | inl (r, d, result) ↦
              let (decides, matched) =
                matches_of_Decides patterns valid (subst (λ l. Decides casefold c l r) e d) in
              rw (result, decides, matched)
          | inr (missed, result) ↦
              rw (
                result,
                (none_matches 0 patterns valid).0 (subst (NoneMatches casefold c) e missed),
              )
        ]

    -- The rules made from a pair's valid patterns build, and the rule set selects a schema-level
    -- object with a readable `catalog.schema` name exactly when the pattern list matches it.
    pub pattern_selection :
        (patterns : List String)
        → IsInjective name
        → AllValid patterns
        → c.scope ≡ object
        → (s : SelectionRuleSet) × (build casefold
              (object_rules_from_catalog_schema_patterns name patterns)
              []
            ≡ ok s)
          × (included (evaluate casefold s c) ≡ matches patterns catalog schema)
    pattern_selection patterns injective valid scoped = (
      pattern_rule_set patterns,
      build-patterns patterns injective valid,
      included-matches patterns valid scoped,
    )

-- ===== src/Selection/RuleSet.antt =====
-- `SelectionRuleSet` of selection/rules.py.
use qlabs_catalog_sync.Prelude.{
  ℕ, ◌+◌, List, [], ◌∷◌, String, Option, none, some, filter, ◌==◌, string_eq, nat_eq, Result, ok,
  err, ◌>>=◌, ◌>>◌,
}
use qlabs_catalog_sync.Prelude.Dict
use qlabs_catalog_sync.Prelude.Distinct.{first_repeat}
use qlabs_catalog_sync.Prelude.Dict.{Dict}
use qlabs_catalog_sync.Prelude.Sort.{sort_by}
use qlabs_catalog_sync.Selection.Types.{
  RuleScope, object, dataset, scope_eq, SelectionDecision, include, glob,
}
use qlabs_catalog_sync.Selection.Pattern.{PatternError}
use qlabs_catalog_sync.Selection.Candidate.{SelectionCandidate, override_keys}
use qlabs_catalog_sync.Selection.Matcher.{SelectionRule, Matcher, compile_matcher}

pub record SelectionOverride : Type 0 where
  pub scope : RuleScope
  pub object_id : String
  pub decision : SelectionDecision
  pub reason : Option String

pub record CompiledRule : Type 0 where
  pub rule : SelectionRule
  pub matcher : Matcher

pub data BuildError : Type 0 where
  duplicate_rule_id : String → BuildError
  shared_ordinal : ℕ → BuildError
  bad_rule : PatternError → BuildError
  duplicate_override : String → BuildError

pub record SelectionRuleSet : Type 0 where
  pub object_rules : List CompiledRule
  pub dataset_rules : List CompiledRule
  pub object_overrides : Dict String SelectionOverride
  pub dataset_overrides : Dict String SelectionOverride

unfoldable pub in_scope : RuleScope → List SelectionRule → List SelectionRule
in_scope scope = filter (λ r. r.scope == scope)

-- The loop over `seen_ids`.
unfoldable pub check_ids : List SelectionRule → Result BuildError Unit
check_ids rules = elim (first_repeat (λ (r : SelectionRule). r.rule_id) [] rules) [
  | none ↦ ok tt
  | some id ↦ err (duplicate_rule_id id)
]

-- The loop over `ordinals`.
unfoldable pub check_ordinals : List SelectionRule → Result BuildError Unit
check_ordinals rules = elim (first_repeat (λ (r : SelectionRule). r.ordinal) [] rules) [
  | none ↦ ok tt
  | some ordinal ↦ err (shared_ordinal ordinal)
]

abbrev pub as_bad_rule : {A : Type 0} → Result PatternError A → Result BuildError A
as_bad_rule (ok a) = ok a
as_bad_rule (err e) = err (bad_rule e)

abbrev pub overrides_in : RuleScope → SelectionRuleSet → Dict String SelectionOverride
overrides_in object s = s.object_overrides
overrides_in dataset s = s.dataset_overrides

-- The last loop of `build`: one dict for each scope.
unfoldable pub collect_overrides :
    Dict String SelectionOverride
    → Dict String SelectionOverride
    → List SelectionOverride
    → Result BuildError (Dict String SelectionOverride × Dict String SelectionOverride)
collect_overrides objects datasets [] = ok (objects, datasets)
collect_overrides objects datasets (o ∷ rest) =
    let scoped : Dict String SelectionOverride = elim o.scope [
      | object ↦ objects
      | dataset ↦ datasets
    ] in
    let more : Result BuildError (Dict String SelectionOverride × Dict String SelectionOverride) =
      elim o.scope [
        | object ↦ collect_overrides (Dict.insert o.object_id o objects) datasets rest
        | dataset ↦ collect_overrides objects (Dict.insert o.object_id o datasets) rest
      ] in
    elim (Dict.lookup o.object_id scoped) [
      | some existing ↦ err (duplicate_override o.object_id)
      | none ↦ more
    ]

unfoldable pub rules_for : SelectionRuleSet → RuleScope → List CompiledRule
rules_for s object = s.object_rules
rules_for s dataset = s.dataset_rules

unfoldable pub first_override :
    Dict String SelectionOverride → List String → Option SelectionOverride
first_override scoped [] = none
first_override scoped (key ∷ keys) =
    let rest = first_override scoped keys in
    elim (Dict.lookup key scoped) [ some o ↦ some o | none ↦ rest ]

unfoldable pub override_for : SelectionRuleSet → SelectionCandidate → Option SelectionOverride
unfolding first_override override_keys
override_for s c = first_override (overrides_in c.scope s) (override_keys c)

module _ (casefold : String → String) where
  unfoldable pub compile_all : List SelectionRule → Result BuildError (List CompiledRule)
  compile_all [] = ok []
  compile_all (r ∷ rules) = do
    matcher ← as_bad_rule (compile_matcher casefold r.matcher_kind r.pattern r.scope)
    rest ← compile_all rules
    ok (record { rule = r; matcher = matcher } ∷ rest)

  -- The rules of one scope: checked, sorted and compiled.
  unfoldable pub build_scope : List SelectionRule → Result BuildError (List CompiledRule)
  build_scope rules = do
    check_ordinals rules
    compile_all (sort_by (λ (r : SelectionRule). r.ordinal) rules)

  unfoldable pub build :
      List SelectionRule → List SelectionOverride → Result BuildError SelectionRuleSet
  build rules overrides = do
    check_ids rules
    objects ← build_scope (in_scope object rules)
    datasets ← build_scope (in_scope dataset rules)
    scoped ← collect_overrides [] [] overrides
    ok (record {
      object_rules = objects;
      dataset_rules = datasets;
      object_overrides = scoped.0;
      dataset_overrides = scoped.1;
    })

-- One include rule for each pattern of a pair, in order. `name` stands for `f"{prefix}-{index}"`.
module _ (name : ℕ → String) where
  abbrev pub pattern_rule : ℕ → String → SelectionRule
  pattern_rule index pattern = record {
    rule_id = name index;
    ordinal = index;
    scope = object;
    decision = include;
    matcher_kind = glob;
    pattern = pattern;
  }

  unfoldable pub pattern_rules_from : ℕ → List String → List SelectionRule
  pattern_rules_from index [] = []
  pattern_rules_from index (pattern ∷ patterns) =
      pattern_rule index pattern ∷ pattern_rules_from (index + 1) patterns

  unfoldable pub object_rules_from_catalog_schema_patterns : List String → List SelectionRule
  unfolding pattern_rules_from
  object_rules_from_catalog_schema_patterns patterns = pattern_rules_from 0 patterns

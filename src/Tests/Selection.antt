-- ===== src/Tests/Selection.antt =====
-- A rule set with one schema rule, and the candidates it decides on.
use qlabs_catalog_sync.Prelude.{
  ℕ, zero, suc, ap, map, ◌≡◌, refl, ◌⊎◌, inl, inr, Bool, true, false, List, [], ◌∷◌, String, ◌<>◌,
  Option, none, some, Result, ok, err, ◌↔◌, string_eq, nat_eq, ◌≢◌, arith,
}
use mathlib.Core.List.{Permᴰ}
use qlabs_catalog_sync.Prelude.Dict
use qlabs_catalog_sync.Prelude.Distinct.{first_repeat, DistinctBy}
use qlabs_catalog_sync.Prelude.Sort.Ordinal.{IsAscending}
use qlabs_catalog_sync.Prelude.Text.{split}
use qlabs_catalog_sync.PairPatterns.{matches}
use qlabs_catalog_sync.Selection.Types.{
  RuleScope-discrete, object, include, exclude, glob, rule, default, scope_eq, match, unavailable,
}
use qlabs_catalog_sync.Selection.Glob.{Token, star, one, literal, translate, glob_match, accepts}
use qlabs_catalog_sync.Selection.GlobLanguage.{AllIn, evaluate_matcher-InLanguage}
use qlabs_catalog_sync.Selection.Pattern.{validate_pattern, validate_glob}
use qlabs_catalog_sync.Selection.Candidate.{SelectionCandidate, name_segments}
use qlabs_catalog_sync.Selection.Matcher.{
  SelectionRule, glob_matcher, evaluate_matcher, compile_matcher,
}
use qlabs_catalog_sync.Selection.RuleSet.{
  SelectionRuleSet, CompiledRule, build, check_ids, build_scope, check_ordinals, compile_all,
  collect_overrides, override_for, rules_for, object_rules_from_catalog_schema_patterns, in_scope,
}
use qlabs_catalog_sync.Selection.Evaluate.{
  evaluate, included, undetermined_of, decide_by_rules, consult,
}
use qlabs_catalog_sync.Selection.LastMatch.{Decides, NoneMatches, result, evaluate_last_match}
use qlabs_catalog_sync.Selection.FailClosed.{evaluate-KnowsNothing}
use qlabs_catalog_sync.Selection.Ordering.{rules_of, build-perm, build-IsAscending}
use qlabs_catalog_sync.Selection.PatternEquivalence.{AllValid, pattern_selection}

abbrev pub same : String → String
same s = s

abbrev sales_rule : SelectionRule
sales_rule = record {
  rule_id = "r1";
  ordinal = 1;
  scope = object;
  decision = include;
  matcher_kind = glob;
  pattern = "sales.*";
}

abbrev tmp_rule : SelectionRule
tmp_rule = record sales_rule { rule_id = "r2"; ordinal = 2; decision = exclude; pattern = "*.tmp" }

abbrev pub sales_east : SelectionCandidate
sales_east = record {
  scope = object;
  object_id = "sales.east";
  qualified_name = some "sales.east";
  tags = none;
  owners = none;
  display_name = none;
}

abbrev pub compiled : SelectionRule → String → String → CompiledRule
compiled r catalog schema = record {
  rule = r;
  matcher = glob_matcher (translate catalog ∷ translate schema ∷ []);
}

abbrev pub rule_set : SelectionRuleSet
rule_set = record {
  object_rules = compiled sales_rule "sales" "*" ∷ compiled tmp_rule "*" "tmp" ∷ [];
  dataset_rules = [];
  object_overrides = [];
  dataset_overrides = [];
}

rule_set-builds : build same (tmp_rule ∷ sales_rule ∷ []) [] ≡ ok rule_set
unfolding build string_eq check_ids first_repeat build_scope check_ordinals in_scope
    RuleScope-discrete compile_all collect_overrides compile_matcher validate_pattern nat_eq
    qlabs_catalog_sync.Prelude.Sort.sort split
rule_set-builds = refl

included_east : included (evaluate same rule_set sales_east) ≡ true
unfolding evaluate string_eq override_for Dict.lookup decide_by_rules consult rules_for
    evaluate_matcher split glob_match translate accepts
included_east = refl

no_override : override_for rule_set sales_east ≡ none
unfolding override_for string_eq Dict.lookup
no_override = refl

build-perm_example : build same (sales_rule ∷ tmp_rule ∷ []) [] ≡ ok rule_set
build-perm_example =
    build-perm same (tmp_rule ∷ sales_rule ∷ []) (sales_rule ∷ tmp_rule ∷ []) [] rule_set
      (Permᴰ.swap refl refl) rule_set-builds

abbrev tmp_segments : List (List Token)
tmp_segments = (star ∷ []) ∷ (star ∷ one (literal b't') ∷ []) ∷ []

evaluate_matcher-InLanguage_example :
    (evaluate_matcher same (glob_matcher tmp_segments) sales_east ≡ unavailable
      ↔ name_segments sales_east ≡ none)
    × (evaluate_matcher same (glob_matcher tmp_segments) sales_east ≡ match
        ↔ (names : List String) × (name_segments sales_east ≡ some names)
          × AllIn tmp_segments names)
evaluate_matcher-InLanguage_example = evaluate_matcher-InLanguage same tmp_segments sales_east

abbrev unreadable : SelectionCandidate
unreadable = record sales_east { qualified_name = none }

evaluate_last_match_example :
    ((r : SelectionRule) × Decides same sales_east (rules_for rule_set object) r
      × (evaluate same rule_set sales_east
          ≡ result same rule_set sales_east r.decision rule (some r)))
    ⊎ (NoneMatches same sales_east (rules_for rule_set object)
        × (evaluate same rule_set sales_east
            ≡ result same rule_set sales_east exclude default none))
evaluate_last_match_example = evaluate_last_match same rule_set sales_east no_override

build-IsAscending_example :
    IsAscending (λ (r : SelectionRule). r.ordinal) (rules_of (rules_for rule_set object))
    × Permᴰ (in_scope object (tmp_rule ∷ sales_rule ∷ [])) (rules_of (rules_for rule_set object))
    × DistinctBy (λ (r : SelectionRule). r.rule_id) (tmp_rule ∷ sales_rule ∷ [])
build-IsAscending_example =
    build-IsAscending same (tmp_rule ∷ sales_rule ∷ []) [] rule_set object rule_set-builds

no_override_unreadable : override_for rule_set unreadable ≡ none
unfolding override_for string_eq Dict.lookup
no_override_unreadable = refl

evaluate-KnowsNothing_example :
    ((evaluate same rule_set unreadable).decision ≡ exclude)
    × ((evaluate same rule_set unreadable).source ≡ default)
    × ((evaluate same rule_set unreadable).undetermined
        ≡ map (λ x. undetermined_of x.rule) (rules_for rule_set object))
evaluate-KnowsNothing_example =
    evaluate-KnowsNothing same unreadable (record { name = refl; tags = refl; owners = refl })
      rule_set no_override_unreadable

-- Distinct names for the rules of a pair.
tally : ℕ → String
tally zero = String.[]
tally (suc n) = String.◌∷◌ "i" (tally n)

tally-injective : (i j : ℕ) → tally i ≡ tally j → i ≡ j
unfolding tally
tally-injective zero zero e = refl
tally-injective zero (suc j) e = cc
tally-injective (suc i) zero e = cc
tally-injective (suc i) (suc j) e = ap suc (tally-injective i j (cc))

sales_valid : AllValid ("sales.*" ∷ [])
unfolding validate_glob split string_eq
sales_valid = (refl, tt)

sales_parts : split b'.' "sales.east" ≡ "sales" ∷ "east" ∷ []
unfolding split
sales_parts = refl

pattern_selection_example :
    (s : SelectionRuleSet) × (build same
        (object_rules_from_catalog_schema_patterns tally ("sales.*" ∷ []))
        []
      ≡ ok s)
    × (included (evaluate same s sales_east) ≡ matches ("sales.*" ∷ []) "sales" "east")
pattern_selection_example =
    pattern_selection same tally sales_east refl sales_parts ("sales.*" ∷ []) tally-injective
      sales_valid refl

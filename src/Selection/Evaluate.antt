-- ===== src/Selection/Evaluate.antt =====
-- selection/evaluator.py.
use qlabs_catalog_sync.Prelude.{Bool, true, false, List, [], ◌∷◌, ◌++◌, String, Option, none, some}
use qlabs_catalog_sync.Selection.Types.{
  SelectionDecision, include, exclude, CandidateFact, MatchOutcome, match, no_match, unavailable,
  DecisionSource, override, rule, default,
}
use qlabs_catalog_sync.Selection.Candidate.{SelectionCandidate}
use qlabs_catalog_sync.Selection.Matcher.{SelectionRule, required_fact, evaluate_matcher}
use qlabs_catalog_sync.Selection.RuleSet.{
  SelectionOverride, SelectionRuleSet, CompiledRule, rules_for, override_for,
}

pub record UndeterminedRule : Type 0 where
  pub rule : SelectionRule
  pub missing : CandidateFact

pub record SelectionResult : Type 0 where
  pub candidate : SelectionCandidate
  pub decision : SelectionDecision
  pub source : DecisionSource
  pub rule : Option SelectionRule
  pub override : Option SelectionOverride
  pub undetermined : List UndeterminedRule

abbrev pub default_decision : SelectionDecision
default_decision = exclude

abbrev pub included : SelectionResult → Bool
included r = elim r.decision [ include ↦ true | exclude ↦ false ]

abbrev pub undetermined_of : SelectionRule → UndeterminedRule
undetermined_of r = record { rule = r; missing = required_fact r }

abbrev pub Consulted : Type 0
Consulted = Option SelectionRule × List UndeterminedRule

-- One turn of the loop over the rules.
unfoldable pub consult_rule : SelectionRule → MatchOutcome → Consulted → Consulted
consult_rule r match (deciding, undetermined) = (some r, undetermined)
consult_rule r no_match (deciding, undetermined) = (deciding, undetermined)
consult_rule r unavailable (deciding, undetermined) =
    (deciding, undetermined ++ (undetermined_of r ∷ []))

unfoldable pub decide_by_rules : SelectionCandidate → Consulted → SelectionResult
decide_by_rules c (none, undetermined) = record {
  candidate = c;
  decision = default_decision;
  source = default;
  rule = none;
  override = none;
  undetermined = undetermined;
}
decide_by_rules c (some r, undetermined) = record {
  candidate = c;
  decision = r.decision;
  source = rule;
  rule = some r;
  override = none;
  undetermined = undetermined;
}

module _ (casefold : String → String) where
  abbrev pub evaluate_rule : CompiledRule → SelectionCandidate → MatchOutcome
  evaluate_rule compiled c = evaluate_matcher casefold compiled.matcher c

  unfoldable pub consult : List CompiledRule → SelectionCandidate → Consulted → Consulted
  unfolding consult_rule
  consult [] c so_far = so_far
  consult (compiled ∷ rest) c so_far =
      consult rest c (consult_rule compiled.rule (evaluate_rule compiled c) so_far)

  unfoldable pub evaluate : SelectionRuleSet → SelectionCandidate → SelectionResult
  evaluate s c = elim (override_for s c) [
    | some o ↦ record {
      candidate = c;
      decision = o.decision;
      source = override;
      rule = none;
      override = some o;
      undetermined = [];
    }
    | none ↦ decide_by_rules c (consult (rules_for s c.scope) c (none, []))
  ]

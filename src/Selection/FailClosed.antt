-- ===== src/Selection/FailClosed.antt =====
-- Nothing is selected by default: what cannot be evaluated is excluded.
use qlabs_catalog_sync.Prelude.{◌≡◌, refl, inl, inr, List, [], ◌∷◌, map, String, none}
use qlabs_catalog_sync.Selection.Types.{unavailable, default, exclude}
use qlabs_catalog_sync.Selection.Candidate.{SelectionCandidate}
use qlabs_catalog_sync.Selection.Matcher.{
  Matcher, glob_matcher, tag_matcher, owner_matcher, evaluate_matcher,
}
use qlabs_catalog_sync.Selection.RuleSet.{SelectionRuleSet, CompiledRule, rules_for, override_for}
use qlabs_catalog_sync.Selection.Evaluate.{undetermined_of, evaluate}
use qlabs_catalog_sync.Selection.LastMatch.{unavailable_rules, evaluate_last_match}

-- The source reports none of the facts that a rule compares.
pub record KnowsNothing (c : SelectionCandidate) : Type 0 where
  pub name : c.qualified_name ≡ none
  pub tags : c.tags ≡ none
  pub owners : c.owners ≡ none

module _ (casefold : String → String) (c : SelectionCandidate) (unknown : KnowsNothing c) where
  evaluate_matcher-unavailable : (m : Matcher) → evaluate_matcher casefold m c ≡ unavailable
  unfolding evaluate_matcher
  evaluate_matcher-unavailable (glob_matcher segments) = rw (unknown.name)
  evaluate_matcher-unavailable (tag_matcher key value) = rw (unknown.tags)
  evaluate_matcher-unavailable (owner_matcher pattern) = rw (unknown.owners)

  unavailable_rules-all :
      (rules : List CompiledRule)
      → unavailable_rules casefold c rules ≡ map (λ x. undetermined_of x.rule) rules
  unfolding unavailable_rules
  unavailable_rules-all [] = refl
  unavailable_rules-all (x ∷ rest) =
      rw (evaluate_matcher-unavailable x.matcher, unavailable_rules-all rest)

  -- A candidate of which no fact is known and that no override pins is excluded by default, however
  -- the rules read, and every rule of its scope is reported as undetermined.
  pub evaluate-KnowsNothing :
      (s : SelectionRuleSet)
      → override_for s c ≡ none
      → ((evaluate casefold s c).decision ≡ exclude)
        × ((evaluate casefold s c).source ≡ default)
        × ((evaluate casefold s c).undetermined
            ≡ map (λ x. undetermined_of x.rule) (rules_for s c.scope))
  evaluate-KnowsNothing s free = elim (evaluate_last_match casefold s c free) [
    | inl (r, d, e) ↦ absurd (cc (d.hit, evaluate_matcher-unavailable d.entry.matcher))
    | inr (missed, e) ↦ (rw e, rw e, rw (e, unavailable_rules-all (rules_for s c.scope)))
  ]

-- ===== src/Selection/LastMatch.antt =====
-- The loop of `evaluate`: the last matching rule decides, and the undetermined rules are listed.
use mathlib.Core.List.{append-nil, append_assoc}
use qlabs_catalog_sync.Prelude.{
  ◌≡◌, refl, ap, ◌≢◌, ◌⊎◌, inl, inr, List, [], ◌∷◌, ◌++◌, String, Option, none, some, arith, All,
}
use qlabs_catalog_sync.Selection.Types.{
  MatchOutcome, match, no_match, unavailable, SelectionDecision, DecisionSource, rule, default,
  exclude,
}
use qlabs_catalog_sync.Selection.Candidate.{SelectionCandidate}
use qlabs_catalog_sync.Selection.Matcher.{SelectionRule}
use qlabs_catalog_sync.Selection.RuleSet.{SelectionRuleSet, CompiledRule, rules_for, override_for}
use qlabs_catalog_sync.Selection.Evaluate.{
  UndeterminedRule, undetermined_of, SelectionResult, evaluate_rule, consult_rule, consult,
  decide_by_rules, evaluate,
}

abbrev or_keep : Option SelectionRule → Option SelectionRule → Option SelectionRule
or_keep (some r) earlier = some r
or_keep none earlier = earlier

abbrev chosen : MatchOutcome → SelectionRule → Option SelectionRule
chosen match r = some r
chosen no_match r = none
chosen unavailable r = none

abbrev reported : MatchOutcome → SelectionRule → List UndeterminedRule → List UndeterminedRule
reported unavailable r rest = undetermined_of r ∷ rest
reported match r rest = rest
reported no_match r rest = rest

module _ (casefold : String → String) (c : SelectionCandidate) where
  abbrev verdict : CompiledRule → MatchOutcome
  verdict x = evaluate_rule casefold x c

  -- `r` is the rule of the last entry that matches.
  pub record Decides (rules : List CompiledRule) (r : SelectionRule) : Type 0 where
    pub earlier : List CompiledRule
    pub entry : CompiledRule
    pub later : List CompiledRule
    pub split : rules ≡ earlier ++ (entry ∷ later)
    pub named : entry.rule ≡ r
    pub hit : verdict entry ≡ match
    pub misses : All (λ x. verdict x ≢ match) later

  abbrev pub NoneMatches : List CompiledRule → Type 0
  NoneMatches rules = All (λ x. verdict x ≢ match) rules

  -- The rules that could not be evaluated, in the order of the rules.
  unfoldable pub unavailable_rules : List CompiledRule → List UndeterminedRule
  unavailable_rules [] = []
  unavailable_rules (x ∷ rest) = reported (verdict x) x.rule (unavailable_rules rest)

  last_matching : List CompiledRule → Option SelectionRule
  last_matching [] = none
  last_matching (x ∷ rest) = or_keep (last_matching rest) (chosen (verdict x) x.rule)

  step-eq :
      (o : MatchOutcome) (x : CompiledRule) (rest : List CompiledRule) (d : Option SelectionRule)
      (u : List UndeterminedRule)
      → ((d : Option SelectionRule) (u : List UndeterminedRule)
          → consult casefold rest c (d, u)
            ≡ (or_keep (last_matching rest) d, u ++ unavailable_rules rest))
      → consult casefold rest c (consult_rule x.rule o (d, u)) ≡ (
        or_keep (or_keep (last_matching rest) (chosen o x.rule)) d,
        u ++ reported o x.rule (unavailable_rules rest),
      )
  unfolding consult_rule
  step-eq match x rest d u ih = rw ih (ground (arith))
  step-eq no_match x rest d u ih = rw ih (ground (arith))
  step-eq unavailable x rest d u ih = rw (ih, append_assoc) (ground (arith))

  consult-eq :
      (rules : List CompiledRule) (d : Option SelectionRule) (u : List UndeterminedRule)
      → consult casefold rules c (d, u)
        ≡ (or_keep (last_matching rules) d, u ++ unavailable_rules rules)
  unfolding consult last_matching unavailable_rules
  consult-eq [] d u = rw append-nil
  consult-eq (x ∷ rest) d u = step-eq (verdict x) x rest d u (consult-eq rest)

  -- The recursion over the rules finds the last match, or there is none.
  Located : List CompiledRule → Type 0
  Located rules =
      ((last_matching rules ≡ none) × NoneMatches rules)
      ⊎ ((r : SelectionRule) × (last_matching rules ≡ some r) × Decides rules r)

  match-cases : (o : MatchOutcome) → (o ≡ match) ⊎ (o ≢ match)
  match-cases match = inl refl
  match-cases no_match = inr (λ e. cc)
  match-cases unavailable = inr (λ e. cc)

  chosen_ne : (o : MatchOutcome) (r : SelectionRule) → o ≢ match → chosen o r ≡ none
  chosen_ne match r h = absurd (h refl)
  chosen_ne no_match r h = refl
  chosen_ne unavailable r h = refl

  extend :
      {x : CompiledRule} {rules : List CompiledRule} {r : SelectionRule}
      → Decides rules r
      → Decides (x ∷ rules) r
  extend {x} d = record {
    earlier = x ∷ d.earlier;
    entry = d.entry;
    later = d.later;
    split = ap (λ (l : List CompiledRule). x ∷ l) d.split;
    named = d.named;
    hit = d.hit;
    misses = d.misses;
  }

  locate : (rules : List CompiledRule) → Located rules
  unfolding Located last_matching
  locate [] = inl (refl, tt)
  locate (x ∷ rest) = elim (locate rest) [
    | inr (r, e, d) ↦ inr (r, rw e, extend d)
    | inl (e, missed) ↦ elim (match-cases (verdict x)) [
      | inl found ↦ inr (
        x.rule,
        rw (e, found),
        record {
          earlier = [];
          entry = x;
          later = rest;
          split = refl;
          named = refl;
          hit = found;
          misses = missed;
        },
      )
      | inr miss ↦ inl (rw (e, chosen_ne _ x.rule miss), (miss, missed))
    ]
  ]

  last_matching-append :
      (xs ys : List CompiledRule)
      → last_matching (xs ++ ys) ≡ or_keep (last_matching ys) (last_matching xs)
  unfolding last_matching
  last_matching-append [] ys = ground arith
  last_matching-append (x ∷ xs) ys = rw (last_matching-append xs ys) (ground arith)

  last_matching-none : (rules : List CompiledRule) → NoneMatches rules → last_matching rules ≡ none
  unfolding last_matching
  last_matching-none [] h = refl
  last_matching-none (x ∷ rest) (miss, missed) =
      rw (last_matching-none rest missed, chosen_ne _ x.rule miss)

  last_matching-Decides :
      {rules : List CompiledRule} {r : SelectionRule}
      → Decides rules r
      → last_matching rules ≡ some r
  unfolding last_matching
  last_matching-Decides d =
      rw (d.split, last_matching-append, last_matching-none d.later d.misses, d.hit, d.named)

module _ (casefold : String → String) (s : SelectionRuleSet) (c : SelectionCandidate) where
  abbrev candidates : List CompiledRule
  candidates = rules_for s c.scope

  abbrev pub result : SelectionDecision → DecisionSource → Option SelectionRule → SelectionResult
  result decision source by = record {
    candidate = c;
    decision = decision;
    source = source;
    rule = by;
    override = none;
    undetermined = unavailable_rules casefold c candidates;
  }

  evaluate-eq :
      override_for s c ≡ none
      → evaluate casefold s c
        ≡ decide_by_rules c
            (last_matching casefold c candidates, unavailable_rules casefold c candidates)
  unfolding evaluate
  evaluate-eq free = rw (free, evaluate, consult-eq casefold c candidates none []) (ground arith)

  -- For a candidate with no override, either some rule is the last one of its scope that matches
  -- and the result carries that rule and its decision, or no rule matches and the result is the
  -- default exclusion. On both branches the undetermined rules are those whose fact the candidate
  -- lacks, each once and in order.
  pub evaluate_last_match :
      override_for s c ≡ none
      → ((r : SelectionRule) × Decides casefold c candidates r
          × (evaluate casefold s c ≡ result r.decision rule (some r)))
        ⊎ (NoneMatches casefold c candidates
            × (evaluate casefold s c ≡ result exclude default none))
  unfolding decide_by_rules Located
  evaluate_last_match free = elim (locate casefold c candidates) [
    | inl (e, missed) ↦ inr (missed, rw (evaluate-eq free, e))
    | inr (r, e, d) ↦ inl (r, d, rw (evaluate-eq free, e))
  ]

  -- For a candidate with no override, a rule that matches and that no later matching rule of the
  -- scope overrules decides, whatever stands before it.
  pub evaluate-Decides :
      {r : SelectionRule}
      → override_for s c ≡ none
      → Decides casefold c candidates r
      → ((evaluate casefold s c).decision ≡ r.decision) × ((evaluate casefold s c).rule ≡ some r)
  unfolding decide_by_rules
  evaluate-Decides free d =
      let e = last_matching-Decides casefold c d in
      (rw (evaluate-eq free, e), rw (evaluate-eq free, e))

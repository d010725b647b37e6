-- ===== src/Selection/Matcher.antt =====
-- `SelectionRule`, the three matchers and `compile_matcher` of selection/rules.py.
-- A negative `ordinal` is refused by the source's constructor and cannot be written here.
use qlabs_catalog_sync.Prelude.{
  ℕ, Bool, ◌&&◌, true, false, List, [], ◌∷◌, map, String, Option, none, some, if◌then◌else◌, eqb,
  ltb, any, length, ◌==◌, contains, string_eq, option_eq, Result, ok, err, ◌>>◌,
}
use qlabs_catalog_sync.Prelude.Text.{is_blank, split, strip, count, before, after}
use qlabs_catalog_sync.Selection.Types.{
  RuleScope, SelectionDecision, MatcherKind, glob, tag, owner, CandidateFact, qualified_name, tags,
  owners, MatchOutcome, match, no_match, unavailable,
}
use qlabs_catalog_sync.Selection.Glob.{Token, translate, glob_match}
use qlabs_catalog_sync.Selection.Pattern.{PatternError, validate_pattern}
use qlabs_catalog_sync.Selection.Candidate.{
  SelectionCandidate, name_segments, tag_keys, tag_pairs, owner_emails,
}

pub record SelectionRule : Type 0 where
  pub rule_id : String
  pub ordinal : ℕ
  pub scope : RuleScope
  pub decision : SelectionDecision
  pub matcher_kind : MatcherKind
  pub pattern : String

pub data RuleError : Type 0 where
  blank_rule_id : RuleError
  bad_pattern : PatternError → RuleError

abbrev as_rule_error : SelectionRule → Result PatternError Unit → Result RuleError SelectionRule
as_rule_error r (ok _) = ok r
as_rule_error r (err e) = err (bad_pattern e)

-- The constructor with its `__post_init__`.
unfoldable pub make_rule : SelectionRule → Result RuleError SelectionRule
make_rule r =
    if is_blank r.rule_id
    then err blank_rule_id
    else as_rule_error r (validate_pattern r.pattern r.matcher_kind r.scope)

unfoldable pub required_fact : SelectionRule → CandidateFact
required_fact r = elim r.matcher_kind [ glob ↦ qualified_name | tag ↦ tags | owner ↦ owners ]

pub data Matcher : Type 0 where
  glob_matcher : List (List Token) → Matcher
  tag_matcher : String → Option String → Matcher
  owner_matcher : List Token → Matcher

abbrev pub outcome : Bool → MatchOutcome
outcome matched = if matched then match else no_match

-- `all(... for pattern, segment in zip(segments, name_segments))`
unfoldable pub match_segments : List (List Token) → List String → Bool
match_segments [] names = true
match_segments (pattern ∷ patterns) [] = true
match_segments (pattern ∷ patterns) (name ∷ names) =
    let rest = match_segments patterns names in glob_match pattern name && rest

unfoldable pub evaluate_glob : List (List Token) → Option (List String) → MatchOutcome
unfolding match_segments
evaluate_glob segments none = unavailable
evaluate_glob segments (some names) =
    if eqb (length names) (length segments)
    then outcome (match_segments segments names)
    else no_match

contains_pair : List (String × String) → String → String → Bool
contains_pair [] k v = false
contains_pair ((j, w) ∷ pairs) k v =
    let rest = contains_pair pairs k v in if (k == j) && (v == w) then true else rest

unfoldable pub evaluate_tag :
    String → Option String → Option (List String) → Option (List (String × String)) → MatchOutcome
unfolding contains_pair
evaluate_tag key value none pairs = unavailable
evaluate_tag key value (some keys) none = unavailable
evaluate_tag key none (some keys) (some pairs) = outcome (contains keys key)
evaluate_tag key (some value) (some keys) (some pairs) = outcome (contains_pair pairs key value)

unfoldable pub evaluate_owner : List Token → Option (List String) → MatchOutcome
evaluate_owner pattern none = unavailable
evaluate_owner pattern (some emails) = outcome (any (glob_match pattern) emails)

module _ (casefold : String → String) where
  unfoldable pub evaluate_matcher : Matcher → SelectionCandidate → MatchOutcome
  unfolding evaluate_glob evaluate_tag evaluate_owner name_segments tag_keys tag_pairs owner_emails
  evaluate_matcher (glob_matcher segments) c = evaluate_glob segments (name_segments c)
  evaluate_matcher (tag_matcher key value) c = evaluate_tag key value (tag_keys c) (tag_pairs c)
  evaluate_matcher (owner_matcher pattern) c = evaluate_owner pattern (owner_emails casefold c)

  -- The matcher of a pattern that has been validated.
  unfoldable pub build_matcher : MatcherKind → String → Matcher
  build_matcher glob pattern = glob_matcher (map translate (split b'.' pattern))
  build_matcher tag pattern =
      tag_matcher (before b'=' pattern)
        (if ltb 0 (count b'=' pattern) then some (after b'=' pattern) else none)
  build_matcher owner pattern = owner_matcher (translate (casefold (strip pattern)))

  unfoldable pub compile_matcher : MatcherKind → String → RuleScope → Result PatternError Matcher
  unfolding build_matcher
  compile_matcher kind pattern scope = do
    validate_pattern pattern kind scope
    ok (build_matcher kind pattern)

-- ===== src/Selection/Types.antt =====
-- The enums of configstore/types.py and selection/rules.py, and the values that a rule compares.
use qlabs_catalog_sync.Prelude.{refl, Eq, Option, String}

pub data RuleScope : Type 0 where
  object dataset : RuleScope

pub data SelectionDecision : Type 0 where
  include exclude : SelectionDecision

pub data MatcherKind : Type 0 where
  glob tag owner : MatcherKind

pub data CandidateFact : Type 0 where
  qualified_name tags owners : CandidateFact

pub data MatchOutcome : Type 0 where
  match no_match unavailable : MatchOutcome

pub data DecisionSource : Type 0 where
  override rule default : DecisionSource

pub data PartyRole : Type 0 where
  owner steward contact other : PartyRole

unfoldable pub RuleScope-discrete : Discrete RuleScope
RuleScope-discrete object object = yes refl
RuleScope-discrete dataset dataset = yes refl
RuleScope-discrete object dataset = no (λ e. cc)
RuleScope-discrete dataset object = no (λ e. cc)

pub PartyRole-discrete : Discrete PartyRole
PartyRole-discrete = hlevel

instance abbrev pub scope_eq : Eq RuleScope
scope_eq = record { dec = RuleScope-discrete }

pub record Tag : Type 0 where
  pub key : String
  pub value : Option String

pub record Party : Type 0 where
  pub party_id : Option String
  pub display_name : Option String
  pub email : Option String
  pub role : PartyRole

-- `none` is `UNKNOWN`: the source cannot report the fact at all.
abbrev pub Fact : Type 0 → Type 0
Fact A = Option A

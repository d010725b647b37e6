-- ===== src/SourceTree.antt =====
-- selection/source_tree.py: the candidate that a change names, and how a dataset's own selection
-- is composed with its schema's.
pub mod Parent
pub mod Total
use qlabs_catalog_sync.Prelude.{
  Bool, true, false, not, List, [], ◌∷◌, String, ◌<>◌, none, some, if◌then◌else◌, ◌==◌, string_eq,
  Result, ok, err, ◌>>=◌,
}
use qlabs_catalog_sync.Prelude.Text.{is_empty, split}
use qlabs_catalog_sync.Prelude.Dict.{lookup}
use qlabs_catalog_sync.Models.{IdentityRef}
use qlabs_catalog_sync.Changes.{ChangeRef}
use qlabs_catalog_sync.Selection.Types.{
  RuleScope, object, dataset, scope_eq, Fact, Tag, Party, override, rule, default,
}
use qlabs_catalog_sync.Selection.Candidate.{
  SelectionCandidate, CandidateError, make_candidate, is_shaped,
}
use qlabs_catalog_sync.Selection.RuleSet.{SelectionRuleSet}
use qlabs_catalog_sync.Selection.Evaluate.{SelectionResult, included, evaluate}

abbrev pub shaped_or : String → RuleScope → Fact String → Fact String
shaped_or name scope fallback = if is_shaped name scope then some name else fallback

-- An empty `full_name` is falsy.
unfoldable pub qualified_name_from_ref : IdentityRef → RuleScope → Fact String
qualified_name_from_ref ref scope =
    let from_key = shaped_or ref.native_key scope none in
    elim (lookup "full_name" ref.secondary_keys) [
      | none ↦ from_key
      | some full_name ↦ if is_empty full_name then from_key else shaped_or full_name scope from_key
    ]

unfoldable pub candidate_for_change :
    ChangeRef
    → RuleScope
    → Fact (List Tag)
    → Fact (List Party)
    → Result CandidateError SelectionCandidate
candidate_for_change change scope tags owners = make_candidate (record {
  scope = scope;
  object_id = change.ref.native_key;
  qualified_name = qualified_name_from_ref change.ref scope;
  tags = tags;
  owners = owners;
  display_name = change.display_name;
})

pub data TreeError : Type 0 where
  wrong_scope : TreeError
  -- `catalog, schema, _table = name.split(".")` met another number of parts.
  cannot_unpack : TreeError
  bad_candidate : CandidateError → TreeError

abbrev pub lift : {A : Type 0} → Result CandidateError A → Result TreeError A
lift (ok a) = ok a
lift (err e) = err (bad_candidate e)

abbrev pub schema_candidate : String → Fact String → Result TreeError SelectionCandidate
schema_candidate object_id name = lift (
    make_candidate (record {
      scope = object;
      object_id = object_id;
      qualified_name = name;
      tags = none;
      owners = none;
      display_name = none;
    }))

abbrev schema_of : List String → Result TreeError SelectionCandidate
schema_of (catalog ∷ schema ∷ table ∷ []) =
    let name = catalog <> "." <> schema in schema_candidate name (some name)
schema_of _ = err cannot_unpack

abbrev pub parent_of : String → Fact String → Result TreeError SelectionCandidate
parent_of object_id none = schema_candidate (object_id <> "::unresolved-parent") none
parent_of object_id (some name) = schema_of (split b'.' name)

unfoldable pub parent_schema_candidate : SelectionCandidate → Result TreeError SelectionCandidate
parent_schema_candidate c =
    if c.scope == dataset then parent_of c.object_id c.qualified_name else err wrong_scope

pub record DatasetSelection : Type 0 where
  pub parent : SelectionResult
  pub dataset : SelectionResult

abbrev inherits_parent : DatasetSelection → Bool
inherits_parent s = elim s.dataset.source [ override ↦ false | rule ↦ false | default ↦ true ]

unfoldable pub dataset_included : DatasetSelection → Bool
dataset_included s =
    if not (included s.parent)
    then false
    else if inherits_parent s
    then true
    else included s.dataset

-- The constructor with its `__post_init__`.
unfoldable pub make_selection : DatasetSelection → Result TreeError DatasetSelection
make_selection s =
    if not (s.parent.candidate.scope == object)
    then err wrong_scope
    else if s.dataset.candidate.scope == dataset
    then ok s
    else err wrong_scope

module _ (casefold : String → String) (rules : SelectionRuleSet) where
  unfoldable pub compose_dataset_selection :
      SelectionCandidate → SelectionResult → Result TreeError DatasetSelection
  compose_dataset_selection c parent =
      if c.scope == dataset
      then make_selection (record { parent = parent; dataset = evaluate casefold rules c })
      else err wrong_scope

  unfoldable pub select_dataset_change :
      ChangeRef → Fact (List Tag) → Fact (List Party) → Result TreeError DatasetSelection
  select_dataset_change change tags owners = do
    candidate ← lift (candidate_for_change change dataset tags owners)
    parent ← parent_schema_candidate candidate
    compose_dataset_selection candidate (evaluate casefold rules parent)

-- ===== src/Tests/SourceTree.antt =====
-- A table of the included schema, selected through its schema.
use qlabs_catalog_sync.Prelude.{
  ◌≡◌, refl, ◌⊎◌, Bool, true, false, List, [], String, none, some, Result, ok, err,
}
use qlabs_catalog_sync.Models.{IdentityRef}
use qlabs_catalog_sync.Changes.{ChangeRef, upsert}
use qlabs_catalog_sync.Selection.Types.{dataset, default}
use qlabs_catalog_sync.Selection.Candidate.{SelectionCandidate}
use qlabs_catalog_sync.Selection.Evaluate.{included, evaluate}
use qlabs_catalog_sync.SourceTree.{
  DatasetSelection, dataset_included, candidate_for_change, parent_schema_candidate,
  select_dataset_change,
}
use qlabs_catalog_sync.SourceTree.Parent.{dataset_included-parent}
use qlabs_catalog_sync.SourceTree.Total.{select_dataset_change-total}
use qlabs_catalog_sync.Prelude.Text.{is_blank, is_space, strip}
use qlabs_catalog_sync.Tests.Selection.{same, sales_east, rule_set}

abbrev orders : ChangeRef
orders = record {
  ref = record {
    endpoint = "unity";
    entity_type = qlabs_catalog_sync.Models.dataset;
    native_key = "sales.east.orders";
    tenant_id = "";
    secondary_keys = [];
  };
  kind = upsert;
  source_revision = none;
  last_modified_at = none;
  display_name = none;
}

abbrev orders_candidate : SelectionCandidate
orders_candidate = record {
  scope = dataset;
  object_id = "sales.east.orders";
  qualified_name = some "sales.east.orders";
  tags = none;
  owners = none;
  display_name = none;
}

abbrev selection : DatasetSelection
selection = record {
  parent = evaluate same rule_set sales_east;
  dataset = evaluate same rule_set orders_candidate;
}

orders-candidate_for_change : candidate_for_change orders dataset none none ≡ ok orders_candidate
unfolding candidate_for_change qlabs_catalog_sync.Selection.Candidate.make_candidate
    qlabs_catalog_sync.Prelude.Text.strip qlabs_catalog_sync.SourceTree.qualified_name_from_ref
    qlabs_catalog_sync.Prelude.Dict.lookup qlabs_catalog_sync.Selection.Candidate.is_shaped
    qlabs_catalog_sync.Prelude.Text.split
orders-candidate_for_change = refl

orders-select_dataset_change : select_dataset_change same rule_set orders none none ≡ ok selection
unfolding select_dataset_change candidate_for_change parent_schema_candidate evaluate
    qlabs_catalog_sync.Selection.Candidate.make_candidate qlabs_catalog_sync.Prelude.Text.strip
    qlabs_catalog_sync.SourceTree.qualified_name_from_ref qlabs_catalog_sync.Prelude.Dict.lookup
    qlabs_catalog_sync.Selection.Candidate.is_shaped qlabs_catalog_sync.Prelude.Text.split
    qlabs_catalog_sync.Selection.Types.RuleScope-discrete
    qlabs_catalog_sync.SourceTree.compose_dataset_selection
    qlabs_catalog_sync.SourceTree.make_selection qlabs_catalog_sync.Selection.RuleSet.override_for
    qlabs_catalog_sync.Prelude.string_eq qlabs_catalog_sync.Selection.Evaluate.decide_by_rules
    qlabs_catalog_sync.Selection.Evaluate.consult qlabs_catalog_sync.Selection.RuleSet.rules_for
    qlabs_catalog_sync.Selection.Matcher.evaluate_matcher qlabs_catalog_sync.Selection.Glob.accepts
    qlabs_catalog_sync.Selection.Glob.glob_match qlabs_catalog_sync.Selection.Glob.translate
orders-select_dataset_change = refl

orders-dataset_included : dataset_included selection ≡ true
unfolding dataset_included evaluate qlabs_catalog_sync.Selection.RuleSet.override_for
    qlabs_catalog_sync.Prelude.string_eq qlabs_catalog_sync.Prelude.Dict.lookup
    qlabs_catalog_sync.Selection.Evaluate.decide_by_rules
    qlabs_catalog_sync.Selection.Evaluate.consult qlabs_catalog_sync.Selection.RuleSet.rules_for
    qlabs_catalog_sync.Selection.Matcher.evaluate_matcher qlabs_catalog_sync.Prelude.Text.split
    qlabs_catalog_sync.Selection.Glob.glob_match qlabs_catalog_sync.Selection.Glob.translate
    qlabs_catalog_sync.Selection.Glob.accepts
orders-dataset_included = refl

dataset_included-parent_example :
    (c : SelectionCandidate) × (parent : SelectionCandidate) × (candidate_for_change orders dataset
        none none
      ≡ ok c)
    × (parent_schema_candidate c ≡ ok parent)
    × (included (evaluate same rule_set parent) ≡ true)
    × ((included (evaluate same rule_set c) ≡ true) ⊎ ((evaluate same rule_set c).source ≡ default))
dataset_included-parent_example =
    dataset_included-parent same rule_set orders none none selection orders-select_dataset_change
      orders-dataset_included

orders-key : is_blank orders.ref.native_key ≡ false
unfolding strip is_space
orders-key = refl

select_dataset_change-total_example :
    (s : DatasetSelection) × (select_dataset_change same rule_set orders none none ≡ ok s)
select_dataset_change-total_example =
    select_dataset_change-total same rule_set orders none none orders-key

-- ===== src/Tests/Diff.antt =====
-- Two fields that changed at the source, one of which the target declares read-only.
use qlabs_catalog_sync.Prelude.{
  ℕ, ◌+◌, ◌*◌, ◌≤◌, ◌<◌, ◌≡◌, refl, ◌↔◌, Bool, true, false, List, [], ◌∷◌, String, Option, none,
  some, Result, ok, err, arith, ◌==◌, string_eq,
}
use qlabs_catalog_sync.Prelude.Distinct.{DistinctBy}
use qlabs_catalog_sync.Prelude.Dict.{lookup}
use qlabs_catalog_sync.Models.{data_product, str, FieldEnvelope, Envelopes, FieldChange, patch}
use qlabs_catalog_sync.Envelope.{changed_fields}
use qlabs_catalog_sync.Diff.{
  AnyManifest, bespoke, DiffPlan, DroppedField, undeclared, changes_of, compute_field_diff,
  operation_count, request_count, exceeds_operation_cap,
}
use qlabs_catalog_sync.Diff.Partition.{SortedOut, field_of, compute_field_diff-SortedOut}
use qlabs_catalog_sync.Diff.{supports}
use qlabs_catalog_sync.Diff.InSync.{IsKnown, idle_plan, compute_field_diff-InSync}
use qlabs_catalog_sync.Diff.Requests.{request_count_minimal}
use qlabs_catalog_sync.Diff.Revision.{RevisionCases, expected_revision_cases}

abbrev pub envelope : String → String → FieldEnvelope
envelope value sum = record {
  value = str value;
  source_endpoint = "uc";
  source_revision = some "7";
  last_modified_at = none;
  last_synced_at = none;
  checksum = some sum;
}

abbrev pub at_source : Envelopes
at_source = ("name", envelope "Sales" "a1") ∷ ("tags", envelope "x" "b1") ∷ []

abbrev at_target : Envelopes
at_target = ("name", envelope "Sale" "a0") ∷ []

abbrev is_name : String → Bool
is_name s = s == "name"

abbrev manifest : AnyManifest
manifest = bespoke (λ t. true) (λ t field. is_name field) (λ t field. false)

abbrev pub change : FieldChange
change = record {
  field = "name";
  mode = patch;
  value = str "Sales";
  previous = str "Sale";
  envelope = some (envelope "Sales" "a1");
}

abbrev pub plan : DiffPlan
plan = record {
  diff = record { entity_type = data_product; changes = change ∷ []; expected_revision = some "7" };
  dropped =
      record {
        field = "tags";
        reason = undeclared;
        value = str "x";
        capability_mode = none;
        native_path = none;
      }
      ∷ [];
  max_update_operations = none;
  revision_ambiguous = false;
}

planned : compute_field_diff data_product at_source at_target manifest none ≡ ok plan
unfolding compute_field_diff qlabs_catalog_sync.Diff.supports changed_fields
    qlabs_catalog_sync.Envelope.has_changed qlabs_catalog_sync.Diff.plan_fields
    qlabs_catalog_sync.Prelude.Sort.sort qlabs_catalog_sync.Envelope.differs lookup string_eq
    qlabs_catalog_sync.Prelude.Text.str_lt qlabs_catalog_sync.Diff.plan_field
    qlabs_catalog_sync.Envelope.to_json_value qlabs_catalog_sync.Envelope.project
    qlabs_catalog_sync.Diff.is_writable qlabs_catalog_sync.Diff.check_path
    qlabs_catalog_sync.Diff.constraints qlabs_catalog_sync.Diff.make_diff
    qlabs_catalog_sync.Prelude.Distinct.first_repeat qlabs_catalog_sync.Diff.expected_revision
    qlabs_catalog_sync.Diff.plan_envelope qlabs_catalog_sync.Diff.plan_writable
    qlabs_catalog_sync.Diff.requires_full_replace
planned = refl

compute_field_diff-SortedOut_example :
    (names : List String) × (changed_fields at_source at_target ≡ ok names)
    × SortedOut manifest data_product at_source at_target none names (changes_of plan, plan.dropped)
    × DistinctBy field_of (changes_of plan)
compute_field_diff-SortedOut_example =
    compute_field_diff-SortedOut manifest data_product at_source at_target none plan planned

abbrev capped : DiffPlan
capped = record plan { max_update_operations = some 1 }

three_enough : operation_count capped ≤ 3 * 1
unfolding operation_count
three_enough = omega arith

request_count_minimal_example :
    (operation_count capped ≤ request_count capped * 1)
    × (request_count capped ≤ 3)
    × ((1 < request_count capped) ↔ (exceeds_operation_cap capped ≡ true))
request_count_minimal_example = request_count_minimal capped 1 3 (omega arith) refl three_enough

expected_revision_cases_example : RevisionCases (change ∷ []) at_target
expected_revision_cases_example = expected_revision_cases (change ∷ []) at_target

abbrev synced : Envelopes
synced = ("name", envelope "Sales" "a1") ∷ ("tags", envelope "x" "b1") ∷ []

every_entity : supports manifest data_product ≡ true
unfolding supports
every_entity = refl

name-IsKnown : IsKnown synced ("name", envelope "Sales" "a1")
unfolding lookup string_eq
name-IsKnown = record { sum = "a1"; computed = refl; same = refl }

tags-IsKnown : IsKnown synced ("tags", envelope "x" "b1")
unfolding lookup string_eq
tags-IsKnown = record { sum = "b1"; computed = refl; same = refl }

compute_field_diff-InSync_example :
    compute_field_diff data_product at_source synced manifest none
    ≡ ok (idle_plan manifest data_product)
compute_field_diff-InSync_example =
    compute_field_diff-InSync data_product at_source synced manifest none every_entity
      (name-IsKnown, (tags-IsKnown, tt))

-- ===== src/Tests/Conflict.antt =====
-- A manual edit that raises a conflict: the field is not in the first plan, so it is not withheld,
-- and the update after the conflict carries it.
use qlabs_catalog_sync.Prelude.{
  ◌≡◌, refl, false, List, [], ◌∷◌, String, Option, none, some, Result, ok, err,
}
use qlabs_catalog_sync.Models.{data_product, null, str, Envelopes, FieldChange, FieldDiff, patch}
use qlabs_catalog_sync.Diff.{DiffPlan}
use qlabs_catalog_sync.Changes.{NeutralEntity, conflict_error}
use qlabs_catalog_sync.Sync.Settings.{
  Settings, Endpoints, ManualEditPolicy, preserve_local, target, read, update,
}
use qlabs_catalog_sync.Sync.Writes.{withhold, apply_update}
use qlabs_catalog_sync.Tests.State.{east}
use qlabs_catalog_sync.Tests.Diff.{at_source, envelope, change}
use qlabs_catalog_sync.Tests.Sync.{settings, unreachable, start}

abbrev preserving : Settings
preserving = record settings {
  write_policy = some (record { default = preserve_local; per_entity = []; per_field = [] });
}

-- What the store knows: only the name differs from the source.
abbrev stored : Envelopes
stored = ("tags", envelope "x" "b1") ∷ []

-- What is at the target: the tags were edited there.
abbrev live : NeutralEntity
live = record {
  neutral_id = 7;
  product = none;
  field_envelopes = ("tags", envelope "mine" "b9") ∷ [];
  body = null;
}

abbrev contested : Endpoints
contested = record unreachable {
  on_read = λ h side ref. ok live;
  on_update = λ h ref d. err conflict_error;
}

abbrev new_name : FieldChange
new_name = record change { previous = null }

abbrev new_tags : FieldChange
new_tags = record {
  field = "tags";
  mode = patch;
  value = str "x";
  previous = str "mine";
  envelope = some (envelope "x" "b1");
}

abbrev first : FieldDiff
first = record { entity_type = data_product; changes = new_name ∷ []; expected_revision = none }

abbrev second : FieldDiff
second = record {
  entity_type = data_product;
  changes = new_name ∷ new_tags ∷ [];
  expected_revision = some "7";
}

abbrev first_plan : DiffPlan
first_plan = record {
  diff = first;
  dropped = [];
  max_update_operations = none;
  revision_ambiguous = false;
}

nothing_withheld :
    (withhold preserving contested data_product east first_plan stored start).0 ≡ ok []
unfolding withhold qlabs_catalog_sync.Sync.Writes.policy_withhold
    qlabs_catalog_sync.Sync.Writes.preserve_candidates qlabs_catalog_sync.Sync.Settings.mode_for
    qlabs_catalog_sync.Prelude.Dict.lookup qlabs_catalog_sync.Prelude.string_eq
    qlabs_catalog_sync.Sync.Writes.sorted_withheld qlabs_catalog_sync.Prelude.Sort.sort
    qlabs_catalog_sync.Prelude.Dict.keys qlabs_catalog_sync.Sync.Writes.set_defaults
    qlabs_catalog_sync.Models.entity_type_eq
nothing_withheld = refl

edit_overwritten :
    (apply_update preserving contested east first data_product at_source [] start).1.history
    ≡ update east second ∷ read target east ∷ update east first ∷ []
unfolding apply_update qlabs_catalog_sync.Sync.Cycle.catch qlabs_catalog_sync.Sync.Writes.wrote
    qlabs_catalog_sync.Sync.Calls.call_update qlabs_catalog_sync.Sync.Calls.call_with
    qlabs_catalog_sync.Sync.Calls.after qlabs_catalog_sync.Sync.Writes.retry_update
    qlabs_catalog_sync.Sync.Calls.call_read qlabs_catalog_sync.Sync.Writes.plan_diff
    qlabs_catalog_sync.Sync.Writes.effective_diff qlabs_catalog_sync.Diff.compute_field_diff
    qlabs_catalog_sync.Diff.supports qlabs_catalog_sync.Envelope.changed_fields
    qlabs_catalog_sync.Envelope.changed_names qlabs_catalog_sync.Envelope.has_changed
    qlabs_catalog_sync.Diff.plan_fields qlabs_catalog_sync.Prelude.Sort.sort
    qlabs_catalog_sync.Prelude.Sort.insert qlabs_catalog_sync.Envelope.differs
    qlabs_catalog_sync.Prelude.Dict.lookup qlabs_catalog_sync.Prelude.string_eq
    qlabs_catalog_sync.Diff.check_path qlabs_catalog_sync.Diff.constraints
    qlabs_catalog_sync.Diff.expected_revision qlabs_catalog_sync.Diff.is_writable
    qlabs_catalog_sync.Diff.make_diff qlabs_catalog_sync.Diff.plan_envelope
    qlabs_catalog_sync.Diff.plan_field qlabs_catalog_sync.Diff.plan_writable
    qlabs_catalog_sync.Diff.requires_full_replace qlabs_catalog_sync.Envelope.project
    qlabs_catalog_sync.Envelope.to_json_value qlabs_catalog_sync.Models.entity_type_eq
    qlabs_catalog_sync.Prelude.Distinct.first_repeat qlabs_catalog_sync.Prelude.Text.str_lt
edit_overwritten = refl

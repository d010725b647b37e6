-- ===== src/Sync/Records.antt =====
-- One change of a listing: `_process`, `_update`, `_create_or_skip` and what they call.
use qlabs_catalog_sync.Prelude.{
  ℕ, Bool, true, false, not, ◌&&◌, ◌||◌, if◌then◌else◌, List, [], ◌∷◌, ◌++◌, map, String, Option,
  none, some, nat_eq, string_eq,
}
use qlabs_catalog_sync.Prelude.Dict.{Dict}
use qlabs_catalog_sync.Models.{
  EntityType, entity_type_eq, data_product, dataset, glossary_term, category, IdentityRef,
  Envelopes, FieldChange, FieldDiff,
}
use qlabs_catalog_sync.Manifest
use qlabs_catalog_sync.Diff.{
  AnyManifest, declared, bespoke, supports, is_writable, DiffPlan, changes_of,
}
use qlabs_catalog_sync.Selection.Types.{object}
use qlabs_catalog_sync.Selection.Evaluate.{included, evaluate}
use qlabs_catalog_sync.SourceTree.{
  candidate_for_change, select_dataset_change, dataset_included, lift,
}
use qlabs_catalog_sync.Changes.{
  ChangeRef, not_found, conflict_error, capability_error, WriteResult, WriteOutcome,
}
use qlabs_catalog_sync.Sync.Settings.{
  Settings, Endpoints, RecordReport, RecordOutcome, written, unchanged, no_op, skipped, filtered,
  orphaned, SkipReason, is_terminal, nothing_to_write, target_not_found, capability_refused,
  conflict_unresolved, deleted_unknown_object, not_selected, WithheldField,
}
use qlabs_catalog_sync.Sync.Cycle.{
  Cycle, Sync, Raised, connector_error, ◌>>=◌, ◌>>◌, pure, throw, modify, catch, raise_tree,
}
use qlabs_catalog_sync.Sync.Calls.{now}
use qlabs_catalog_sync.Sync.Pending.{set_mutations, queue_envelopes}
use qlabs_catalog_sync.Sync.Writes.{
  raise_diff, effective_diff, withhold, apply_update, fields_to_persist,
}

abbrev pub filtered_report : ChangeRef → EntityType → RecordReport
filtered_report change t = record {
  native_key = change.ref.native_key;
  entity_type = t;
  outcome = filtered;
  neutral_id = none;
  display_name = change.display_name;
  target_native_key = none;
  reason = some not_selected;
  was_read = false;
  changed_fields = [];
  written_fields = [];
  dropped = [];
  withheld = [];
  target_skipped_fields = [];
  holds_watermark = false;
}

-- A report of a change whose object was read.
abbrev pub read_report : ChangeRef → EntityType → ℕ → RecordOutcome → Option String → RecordReport
read_report change t neutral_id outcome target_key = record (filtered_report change t) {
  outcome = outcome;
  neutral_id = some neutral_id;
  target_native_key = target_key;
  reason = none;
  was_read = true;
}

unfoldable pub skip : ChangeRef → EntityType → ℕ → SkipReason → Option String → RecordReport
skip change t neutral_id reason target_key =
    record (read_report change t neutral_id skipped target_key) {
      reason = some reason;
      holds_watermark = not (is_terminal reason);
    }

abbrev pub record_error : String → Cycle → Cycle
record_error native_key c = record c {
  errors = c.errors ++ (record { native_key = some native_key; fatal = false } ∷ []);
}

unfoldable pub capability_skip : ChangeRef → EntityType → ℕ → Option String → Sync RecordReport
capability_skip change t neutral_id target_key = do
  modify (record_error change.ref.native_key)
  pure (skip change t neutral_id capability_refused target_key)

abbrev any_writable : AnyManifest → EntityType → Dict String Manifest.FieldCapability → Bool
any_writable m t [] = false
any_writable m t ((field, c) ∷ fields) = is_writable m t field || any_writable m t fields

-- `any(manifest.is_writable(...) for field in declared.fields)`; a bespoke manifest has no fields.
unfoldable pub target_can_create : AnyManifest → EntityType → Bool
target_can_create (bespoke s w r) t = supports (bespoke s w r) t
target_can_create (declared m) t =
    supports (declared m) t && elim (Manifest.entity_capability m t) [
      | none ↦ false
      | some c ↦ any_writable (declared m) t c.fields
    ]

module _ (casefold : String → String) (s : Settings) (e : Endpoints) where
  unfoldable pub is_selected : ChangeRef → EntityType → Sync Bool
  is_selected change data_product = do
    candidate ← raise_tree (lift (candidate_for_change change object none none))
    pure (included (evaluate casefold s.rules candidate))
  is_selected change dataset = do
    selection ← raise_tree (select_dataset_change casefold s.rules change none none)
    pure (dataset_included selection)
  is_selected change glossary_term = pure false
  is_selected change category = pure false

  abbrev pub add_orphan : ChangeRef → EntityType → ℕ → ℕ → Cycle → Cycle
  add_orphan change t neutral_id observed_at c =
      set_mutations
        (record c.mutations {
          orphans =
              c.mutations.orphans
              ++ (record {
                neutral_id = neutral_id;
                endpoint = s.source_name;
                entity_type = t;
                native_key = some change.ref.native_key;
                last_seen_at = change.last_modified_at;
                observed_at = observed_at;
              }
                  ∷ []);
        })
        c

  abbrev pub record_orphaned : ChangeRef → EntityType → ℕ → ℕ → Sync RecordReport
  record_orphaned change t neutral_id observed_at = do
    modify (add_orphan change t neutral_id observed_at)
    pure (record (filtered_report change t) {
      outcome = orphaned;
      neutral_id = some neutral_id;
      reason = none;
    })

  unfoldable pub record_gone : ChangeRef → EntityType → Option ℕ → Sync RecordReport
  record_gone change t none = pure (record (filtered_report change t) {
    outcome = skipped;
    reason = some deleted_unknown_object;
  })
  record_gone change t (some neutral_id) = now s e >>= record_orphaned change t neutral_id

  abbrev pub queue : ℕ → EntityType → List String → Envelopes → Option String → ℕ → Cycle → Cycle
  queue neutral_id t names source_envelopes revision at c =
      set_mutations
        (queue_envelopes neutral_id s.target_name t revision at names source_envelopes c.mutations)
        c

  -- What `_update` makes of an exception of `_apply_update`.
  abbrev pub update_failed : ChangeRef → EntityType → ℕ → IdentityRef → Raised → Sync RecordReport
  update_failed change t neutral_id ref (connector_error not_found) = do
    modify (record_error change.ref.native_key)
    pure (skip change t neutral_id target_not_found (some ref.native_key))
  update_failed change t neutral_id ref (connector_error conflict_error) = do
    modify (record_error change.ref.native_key)
    pure (skip change t neutral_id conflict_unresolved (some ref.native_key))
  update_failed change t neutral_id ref (connector_error capability_error) =
      capability_skip change t neutral_id (some ref.native_key)
  update_failed change t neutral_id ref x = throw x

  abbrev outcome_of : WriteResult → RecordOutcome
  outcome_of r = elim r.outcome [
    | WriteOutcome.no_op ↦ no_op
    | WriteOutcome.created ↦ written
    | WriteOutcome.updated ↦ written
  ]

  abbrev field_names : FieldDiff → List String
  field_names d = map (λ (c : FieldChange). c.field) d.changes

  abbrev pub queue_written :
      EntityType → ℕ → Envelopes → RecordReport → WriteResult × FieldDiff → ℕ → Sync RecordReport
  queue_written t neutral_id source_envelopes report (result, applied) at = do
    modify (
        queue neutral_id t (fields_to_persist result applied) source_envelopes
          result.source_revision at)
    pure (record report {
      outcome = outcome_of result;
      written_fields = result.written_fields;
      target_skipped_fields = result.skipped_fields;
    })

  -- The write, and what it leaves to persist.
  unfoldable pub write_update :
      ChangeRef
      → EntityType
      → ℕ
      → IdentityRef
      → Envelopes
      → List WithheldField
      → FieldDiff
      → RecordReport
      → Sync RecordReport
  write_update change t neutral_id ref source_envelopes held effective report =
      apply_update s e ref effective t source_envelopes held >>= λ applied.
      now s e >>= queue_written t neutral_id source_envelopes report applied

  abbrev pub update_if :
      ChangeRef
      → EntityType
      → ℕ
      → IdentityRef
      → Envelopes
      → List WithheldField
      → FieldDiff
      → RecordReport
      → List FieldChange
      → Sync RecordReport
  update_if change t neutral_id ref source_envelopes held effective report [] =
      pure (record report { outcome = skipped; reason = some nothing_to_write })
  update_if change t neutral_id ref source_envelopes held effective report (_ ∷ _) =
      if s.dry_run
      then pure (record report { written_fields = field_names effective })
      else catch (write_update change t neutral_id ref source_envelopes held effective report)
          (update_failed change t neutral_id ref)

  unfoldable pub update_effective :
      ChangeRef
      → EntityType
      → ℕ
      → IdentityRef
      → Envelopes
      → DiffPlan
      → List WithheldField
      → FieldDiff
      → Sync RecordReport
  update_effective change t neutral_id ref source_envelopes plan held effective =
      update_if change t neutral_id ref source_envelopes held effective
        (record (read_report change t neutral_id written (some ref.native_key)) {
          changed_fields = field_names plan.diff;
          dropped = plan.dropped;
          withheld = held;
        })
        effective.changes

  abbrev pub plan_failed : ChangeRef → EntityType → ℕ → IdentityRef → Raised → Sync RecordReport
  plan_failed change t neutral_id ref (connector_error capability_error) =
      capability_skip change t neutral_id (some ref.native_key)
  plan_failed change t neutral_id ref x = throw x

  abbrev pub update_held :
      ChangeRef
      → EntityType
      → ℕ
      → IdentityRef
      → Envelopes
      → DiffPlan
      → List WithheldField
      → Sync RecordReport
  update_held change t neutral_id ref source_envelopes plan held =
      raise_diff (effective_diff plan held)
      >>= update_effective change t neutral_id ref source_envelopes plan held

  abbrev pub update_changed :
      ChangeRef
      → EntityType
      → ℕ
      → IdentityRef
      → Envelopes
      → Envelopes
      → DiffPlan
      → List FieldChange
      → Sync RecordReport
  update_changed change t neutral_id ref source_envelopes stored plan [] =
      pure (record (read_report change t neutral_id unchanged (some ref.native_key)) {
        dropped = plan.dropped;
      })
  update_changed change t neutral_id ref source_envelopes stored plan (_ ∷ _) =
      withhold s e t ref plan stored >>= update_held change t neutral_id ref source_envelopes plan

  unfoldable pub update_planned :
      ChangeRef
      → EntityType
      → ℕ
      → IdentityRef
      → Envelopes
      → Envelopes
      → DiffPlan
      → Sync RecordReport
  update_planned change t neutral_id ref source_envelopes stored plan =
      update_changed change t neutral_id ref source_envelopes stored plan (changes_of plan)

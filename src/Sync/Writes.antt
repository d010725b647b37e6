-- ===== src/Sync/Writes.antt =====
-- The writes at the target: `_diff`, `_withhold` and the policy of sync/policy.py,
-- `_effective_diff`, `_apply_update` and `_fields_to_persist`.
use qlabs_catalog_sync.Prelude.{
  Bool, true, false, not, ◌&&◌, if◌then◌else◌, List, [], ◌∷◌, map, String, Option, none, some, ◌==◌,
  nat_eq, string_eq, contains, filter, any, Result, ok, err,
}
use qlabs_catalog_sync.Prelude.Dict
use qlabs_catalog_sync.Prelude.Dict.{Dict}
use qlabs_catalog_sync.Prelude.Sort.{sort}
use qlabs_catalog_sync.Prelude.Text.{str_lt}
use qlabs_catalog_sync.Models.{
  EntityType, entity_type_eq, data_product, IdentityRef, FieldEnvelope, Envelopes, FieldChange,
  FieldDiff,
}
use qlabs_catalog_sync.Envelope.{CanonicalizationError, has_changed}
use qlabs_catalog_sync.Diff.{
  DiffError, unsupported_entity, uncanonical, missing_envelope, duplicate_field, DiffPlan,
  changes_of, compute_field_diff, make_diff,
}
use qlabs_catalog_sync.Changes.{
  ConnectorError, conflict_error, capability_error, NeutralEntity, WriteResult, created, updated,
  no_op,
}
use qlabs_catalog_sync.Sync.Settings.{
  Settings, Endpoints, ManualEditPolicy, ManualEditMode, source_wins, preserve_local, mode_for,
  WithheldField, target, read,
}
use qlabs_catalog_sync.Sync.Cycle.{
  Cycle, Sync, Raised, connector_error, diff_error, ◌>>=◌, pure, throw, catch,
}
use qlabs_catalog_sync.Sync.Calls.{call_read, call_update, attempt}

abbrev pub activation_field : String
activation_field = "status"

-- `compute_field_diff` raises `CapabilityError` where the target does not support the entity.
abbrev pub raise_diff : {A : Type 0} → Result DiffError A → Sync A
raise_diff (ok a) = pure a
raise_diff (err unsupported_entity) = throw (connector_error capability_error)
raise_diff (err (uncanonical e)) = throw (diff_error (uncanonical e))
raise_diff (err (missing_envelope f)) = throw (diff_error (missing_envelope f))
raise_diff (err (duplicate_field f)) = throw (diff_error (duplicate_field f))

abbrev pub is_preserved : ManualEditMode → Bool
is_preserved source_wins = false
is_preserved preserve_local = true

abbrev pub is_stored : String → Envelopes → Bool
is_stored name stored = elim (Dict.lookup name stored) [ none ↦ false | some e ↦ true ]

-- The fields that the policy asks to be left alone and that were written before.
unfoldable pub preserve_candidates :
    ManualEditPolicy → EntityType → List FieldChange → Envelopes → List String
preserve_candidates p t [] stored = []
preserve_candidates p t (c ∷ changes) stored =
    let rest = preserve_candidates p t changes stored in
    if is_preserved (mode_for p t c.field) && is_stored c.field stored then c.field ∷ rest else rest

abbrev edited : Option FieldEnvelope → Option FieldEnvelope → Result CanonicalizationError Bool
edited none before = ok false
edited (some live) before = has_changed live before

abbrev hold_if : String → Bool → List String → List String
hold_if name true names = name ∷ names
hold_if name false names = names

-- The candidates that the live object has with another value than the stored one.
unfoldable pub edited_fields :
    List String → Envelopes → Envelopes → Result CanonicalizationError (List String)
edited_fields [] live stored = ok []
edited_fields (name ∷ names) live stored =
    let rest = edited_fields names live stored in
    elim (edited (Dict.lookup name live) (Dict.lookup name stored)) [
      | err e ↦ err e
      | ok held ↦ elim rest [ err e ↦ err e | ok more ↦ ok (hold_if name held more) ]
    ]

-- `withheld.setdefault(name, reason)`
unfoldable pub set_defaults : List String → String → Dict String String → Dict String String
set_defaults [] reason d = d
set_defaults (name ∷ names) reason d =
    set_defaults names reason
      (elim (Dict.lookup name d) [ none ↦ Dict.insert name reason d | some r ↦ d ])

with_reasons : Dict String String → List String → List WithheldField
with_reasons d [] = []
with_reasons d (name ∷ names) = elim (Dict.lookup name d) [
  | none ↦ with_reasons d names
  | some reason ↦ record { field = name; reason = reason } ∷ with_reasons d names
]

unfoldable pub sorted_withheld : Dict String String → List WithheldField
unfolding with_reasons
sorted_withheld d = with_reasons d (sort str_lt (Dict.keys d))

abbrev pub held_names : List WithheldField → List String
held_names [] = []
held_names (w ∷ ws) = w.field ∷ held_names ws

abbrev pub is_free : List WithheldField → FieldChange → Bool
is_free held c = not (contains (held_names held) c.field)

-- `FieldDiff` validates itself again.
unfoldable pub effective_diff : DiffPlan → List WithheldField → Result DiffError FieldDiff
effective_diff plan held = make_diff (record {
  entity_type = plan.diff.entity_type;
  changes = filter (is_free held) (changes_of plan);
  expected_revision = plan.diff.expected_revision;
})

unfoldable pub fields_to_persist : WriteResult → FieldDiff → List String
fields_to_persist result diff =
    let planned = map (λ (c : FieldChange). c.field) diff.changes in
    elim result.outcome [
      | no_op ↦ planned
      | created ↦ elim result.written_fields [ [] ↦ planned | f ∷ fs ↦ f ∷ fs ]
      | updated ↦ elim result.written_fields [ [] ↦ planned | f ∷ fs ↦ f ∷ fs ]
    ]

module _ (s : Settings) (e : Endpoints) where
  unfoldable pub plan_diff : EntityType → Envelopes → Envelopes → Sync DiffPlan
  plan_diff t source_envelopes target_envelopes = raise_diff (
      compute_field_diff t source_envelopes target_envelopes s.target_manifest
        (Dict.lookup t s.native_update_paths))

  abbrev pub held_at_activation : EntityType → DiffPlan → Dict String String
  held_at_activation t plan =
      if t == data_product
        && not s.activation_opt_in
        && any (λ (c : FieldChange). c.field == activation_field) (changes_of plan)
      then (activation_field, "activation_not_opted_in") ∷ []
      else []

  -- The policy's own read does not go through `_call`; whatever a connector raises in it is
  -- answered by withholding nothing.
  abbrev pub raise_edited : Result CanonicalizationError (List String) → Sync (List String)
  raise_edited (ok fields) = pure fields
  raise_edited (err x) = throw (diff_error (uncanonical x))

  abbrev pub reviewed :
      List String
      → Envelopes
      → Result ConnectorError NeutralEntity × Cycle
      → Result Raised (List String) × Cycle
  reviewed names stored (err x, c) = (ok [], c)
  reviewed names stored (ok live, c) =
      raise_edited (edited_fields names live.field_envelopes stored) c

  abbrev pub review_live : IdentityRef → Envelopes → List String → Sync (List String)
  review_live ref stored [] c = (ok [], c)
  review_live ref stored (name ∷ names) c =
      reviewed (name ∷ names) stored (attempt (read target ref) (λ h. e.on_read h target ref) c)

  unfoldable pub policy_withhold :
      ManualEditPolicy → EntityType → IdentityRef → DiffPlan → Envelopes → Sync (List String)
  policy_withhold p t ref plan stored =
      review_live ref stored (preserve_candidates p t (changes_of plan) stored)

  abbrev pub withhold_by :
      Option ManualEditPolicy
      → EntityType
      → IdentityRef
      → DiffPlan
      → Envelopes
      → Sync (List WithheldField)
  withhold_by none t ref plan stored = pure (sorted_withheld (held_at_activation t plan))
  withhold_by (some p) t ref plan stored = policy_withhold p t ref plan stored >>= λ names.
      pure
        (sorted_withheld (set_defaults names "manual_edit_preserved" (held_at_activation t plan)))

  unfoldable pub withhold :
      EntityType → IdentityRef → DiffPlan → Envelopes → Sync (List WithheldField)
  withhold = withhold_by s.write_policy

  abbrev no_op_result : IdentityRef → Option String → WriteResult
  no_op_result ref revision = record {
    ref = ref;
    outcome = no_op;
    source_revision = revision;
    written_fields = [];
    skipped_fields = [];
  }

  unfoldable pub wrote : IdentityRef → FieldDiff → Sync (WriteResult × FieldDiff)
  wrote ref diff = do result ← call_update s e ref diff; pure (result, diff)

  abbrev pub write_again :
      IdentityRef → DiffPlan → FieldDiff → List FieldChange → Sync (WriteResult × FieldDiff)
  write_again ref replan diff [] = pure (no_op_result ref replan.diff.expected_revision, diff)
  write_again ref replan diff (_ ∷ _) = wrote ref diff

  abbrev pub rewrite : IdentityRef → List WithheldField → DiffPlan → Sync (WriteResult × FieldDiff)
  rewrite ref held replan = do
    diff ← raise_diff (effective_diff replan held)
    write_again ref replan diff diff.changes

  abbrev pub replan_with :
      IdentityRef
      → EntityType
      → Envelopes
      → List WithheldField
      → NeutralEntity
      → Sync (WriteResult × FieldDiff)
  replan_with ref t source_envelopes held fresh = do
    replan ← plan_diff t source_envelopes fresh.field_envelopes
    rewrite ref held replan

  -- After a conflict: read again, plan again, and write once more.
  unfoldable pub retry_update :
      IdentityRef → EntityType → Envelopes → List WithheldField → Sync (WriteResult × FieldDiff)
  retry_update ref t source_envelopes held = do
    fresh ← call_read s e target ref
    replan_with ref t source_envelopes held fresh

  abbrev pub on_conflict : {A : Type 0} → Sync A → Raised → Sync A
  on_conflict again (connector_error conflict_error) = again
  on_conflict again x = throw x

  unfoldable pub apply_update :
      IdentityRef
      → FieldDiff
      → EntityType
      → Envelopes
      → List WithheldField
      → Sync (WriteResult × FieldDiff)
  apply_update ref diff t source_envelopes held =
      catch (wrote ref diff) (on_conflict (retry_update ref t source_envelopes held))

-- ===== src/Diff.antt =====
-- diff.py: the minimal mutation set for one entity, shaped by the target's manifest.
pub mod Partition
pub mod Requests
pub mod Revision
pub mod InSync
use qlabs_catalog_sync.Prelude.{
  ℕ, ◌+◌, ◌-◌, ◌/◌, Bool, true, false, List, [], ◌∷◌, map, String, Option, none, some,
  if◌then◌else◌, ltb, length, ◌==◌, contains, string_eq, Result, ok, err, ◌>>=◌, ◌>>◌,
}
use qlabs_catalog_sync.Prelude.Dict.{Dict, lookup}
use qlabs_catalog_sync.Prelude.Distinct.{first_repeat}
use qlabs_catalog_sync.Models.{
  EntityType, Json, null, FieldEnvelope, Envelopes, FieldChange, FieldDiff, FieldUpdateMode, patch,
  replace,
}
use qlabs_catalog_sync.Manifest
use qlabs_catalog_sync.Manifest.{
  CapabilityManifest, FieldCapability, FieldCapabilityMode, rw_mode, ro_mode, na_mode,
  EntityCapability,
}
use qlabs_catalog_sync.Envelope.{CanonicalizationError, to_json_value, changed_fields}

-- `CapabilityManifestBase` is an interface: the SDK's own manifest, or a bespoke one.
pub data AnyManifest : Type 0 where
  declared : CapabilityManifest → AnyManifest
  bespoke :
      (EntityType → Bool)
      → (EntityType → String → Bool)
      → (EntityType → String → Bool)
      → AnyManifest

unfoldable pub supports : AnyManifest → EntityType → Bool
supports (declared m) t = Manifest.supports m t
supports (bespoke s w r) t = s t

unfoldable pub is_writable : AnyManifest → EntityType → String → Bool
is_writable (declared m) t field = Manifest.is_writable m t field
is_writable (bespoke s w r) t field = w t field

unfoldable pub requires_full_replace : AnyManifest → EntityType → String → Bool
requires_full_replace (declared m) t field = Manifest.requires_full_replace m t field
requires_full_replace (bespoke s w r) t field = r t field

pub data DropReason : Type 0 where
  read_only not_applicable undeclared no_update_path : DropReason

pub record DroppedField : Type 0 where
  pub field : String
  pub reason : DropReason
  pub value : Json
  pub capability_mode : Option FieldCapabilityMode
  pub native_path : Option String

pub record DiffPlan : Type 0 where
  pub diff : FieldDiff
  pub dropped : List DroppedField
  pub max_update_operations : Option ℕ
  pub revision_ambiguous : Bool

abbrev pub changes_of : DiffPlan → List FieldChange
changes_of p = p.diff.changes

pub record TargetConstraints : Type 0 where
  pub fields : Dict String FieldCapability
  pub allowed_update_paths : Option (List String)
  pub max_update_operations : Option ℕ

abbrev unconstrained : TargetConstraints
unconstrained = record { fields = []; allowed_update_paths = none; max_update_operations = none }

unfoldable pub constraints : AnyManifest → EntityType → TargetConstraints
constraints (bespoke s w r) t = unconstrained
constraints (declared m) t = elim (Manifest.entity_capability m t) [
  | none ↦ unconstrained
  | some c ↦ record {
    fields = c.fields;
    allowed_update_paths = c.allowed_update_paths;
    max_update_operations = c.max_update_operations;
  }
]

pub data DiffError : Type 0 where
  unsupported_entity : DiffError
  uncanonical : CanonicalizationError → DiffError
  missing_envelope : String → DiffError
  duplicate_field : String → DiffError

abbrev pub lift : {A : Type 0} → Result CanonicalizationError A → Result DiffError A
lift (ok a) = ok a
lift (err e) = err (uncanonical e)

-- `_DROP_REASONS.get(mode, UNDECLARED)`
abbrev pub drop_reason : FieldCapabilityMode → DropReason
drop_reason rw_mode = undeclared
drop_reason ro_mode = read_only
drop_reason na_mode = not_applicable

abbrev pub unwritable : String → Json → Option FieldCapability → DroppedField
unwritable name desired none = record {
  field = name;
  reason = undeclared;
  value = desired;
  capability_mode = none;
  native_path = none;
}
unwritable name desired (some c) = record {
  field = name;
  reason = drop_reason c.mode;
  value = desired;
  capability_mode = some c.mode;
  native_path = none;
}

pub data Planned : Type 0 where
  changed : FieldChange → Planned
  dropped : DroppedField → Planned

-- What the caller's mapping says of a field, where both it and the endpoint's enum are given.
pub data PathCheck : Type 0 where
  allowed : PathCheck
  refused : Option String → PathCheck

unfoldable pub check_path : Option (List String) → Option (Dict String String) → String → PathCheck
check_path none mapping name = allowed
check_path (some paths) none name = allowed
check_path (some paths) (some mapping) name = elim (lookup name mapping) [
  | none ↦ refused none
  | some path ↦ if contains paths path then allowed else refused (some path)
]

-- `None if previous is None else to_json_value(previous.value)`
abbrev pub previous_value : Option FieldEnvelope → Result CanonicalizationError Json
previous_value none = ok null
previous_value (some e) = to_json_value e.value

module _ (manifest : AnyManifest) (entity_type : EntityType) (source target : Envelopes)
    (native_update_paths : Option (Dict String String)) where
  abbrev pub limits : TargetConstraints
  limits = constraints manifest entity_type

  abbrev pub update_mode : String → FieldUpdateMode
  update_mode name = if requires_full_replace manifest entity_type name then replace else patch

  unfoldable pub plan_writable :
      String → FieldEnvelope → Json → PathCheck → Result DiffError Planned
  plan_writable name envelope desired (refused path) = ok (
      dropped (record {
        field = name;
        reason = no_update_path;
        value = desired;
        capability_mode = some rw_mode;
        native_path = path;
      }))
  plan_writable name envelope desired allowed = do
    previous ← lift (previous_value (lookup name target))
    ok (
        changed (record {
          field = name;
          mode = update_mode name;
          value = desired;
          previous = previous;
          envelope = some envelope;
        }))

  -- The body of the loop, for a field with its source envelope.
  unfoldable pub plan_envelope : String → FieldEnvelope → Result DiffError Planned
  unfolding plan_writable
  plan_envelope name envelope = do
    desired ← lift (to_json_value envelope.value)
    if is_writable manifest entity_type name
        then plan_writable name envelope desired
            (check_path limits.allowed_update_paths native_update_paths name)
        else ok (dropped (unwritable name desired (lookup name limits.fields)))

  unfoldable pub plan_field : String → Result DiffError Planned
  unfolding plan_envelope
  plan_field name = elim (lookup name source) [
    | none ↦ err (missing_envelope name)
    | some envelope ↦ plan_envelope name envelope
  ]

  abbrev pub Plans : Type 0
  Plans = List FieldChange × List DroppedField

  abbrev pub add_planned : Planned → Plans → Plans
  add_planned (changed c) (changes, drops) = (c ∷ changes, drops)
  add_planned (dropped d) (changes, drops) = (changes, d ∷ drops)

  unfoldable pub plan_fields : List String → Result DiffError Plans
  plan_fields [] = ok ([], [])
  plan_fields (name ∷ names) = do
    planned ← plan_field name
    rest ← plan_fields names
    ok (add_planned planned rest)

abbrev pub revision_of : Option FieldEnvelope → Option String
revision_of none = none
revision_of (some e) = e.source_revision

abbrev pub revision_at : FieldChange → Envelopes → Option String
revision_at c target = revision_of (lookup c.field target)

abbrev pub with_revision : Option String → List String → List String
with_revision none rest = rest
with_revision (some r) rest = if contains rest r then rest else r ∷ rest

-- The set of the revisions that the changed fields' target envelopes carry.
revisions : List FieldChange → Envelopes → List String
revisions [] target = []
revisions (c ∷ changes) target = with_revision (revision_at c target) (revisions changes target)

abbrev single : List String → Option String × Bool
single [] = (none, false)
single (r ∷ []) = (some r, false)
single (r ∷ s ∷ rest) = (none, true)

unfoldable pub expected_revision : List FieldChange → Envelopes → Option String × Bool
unfolding revisions
expected_revision changes target = single (revisions changes target)

-- `FieldDiff` with its validator.
unfoldable pub make_diff : FieldDiff → Result DiffError FieldDiff
make_diff d = elim (first_repeat (λ (c : FieldChange). c.field) [] d.changes) [
  | none ↦ ok d
  | some field ↦ err (duplicate_field field)
]

unfoldable pub compute_field_diff :
    EntityType
    → Envelopes
    → Envelopes
    → AnyManifest
    → Option (Dict String String)
    → Result DiffError DiffPlan
compute_field_diff entity_type source target manifest native_update_paths =
    if supports manifest entity_type
    then (do
      names ← lift (changed_fields source target)
      plans ← plan_fields manifest entity_type source target native_update_paths names
      diff ← make_diff (record {
        entity_type = entity_type;
        changes = plans.0;
        expected_revision = (expected_revision plans.0 target).0;
      })
      ok (record {
        diff = diff;
        dropped = plans.1;
        max_update_operations = (constraints manifest entity_type).max_update_operations;
        revision_ambiguous = (expected_revision plans.0 target).1;
      }))
    else err unsupported_entity

unfoldable pub operation_count : DiffPlan → ℕ
operation_count p = length (changes_of p)

unfoldable pub exceeds_operation_cap : DiffPlan → Bool
unfolding operation_count
exceeds_operation_cap p = elim p.max_update_operations [
  | none ↦ false
  | some cap ↦ ltb cap (operation_count p)
]

unfoldable pub request_count : DiffPlan → ℕ
unfolding operation_count
request_count p =
    if ltb 0 (operation_count p)
    then elim p.max_update_operations [ none ↦ 1 | some cap ↦ (operation_count p + cap - 1) / cap ]
    else 0

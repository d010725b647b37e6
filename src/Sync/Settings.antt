-- ===== src/Sync/Settings.antt =====
-- What a `SyncLoop` is constructed with, and the values that a cycle reports.
use qlabs_catalog_sync.Prelude.{
  ℕ, Bool, true, false, List, String, ◌<>◌, Option, none, some, string_eq, Result,
}
use qlabs_catalog_sync.Prelude.Dict.{Dict, lookup}
use qlabs_catalog_sync.Models.{
  EntityType, data_product, dataset, glossary_term, category, entity_type_eq, FieldDiff,
  IdentityRef,
}
use qlabs_catalog_sync.Changes.{
  Watermark, ListChangedResult, WriteResult, ConnectorError, NeutralEntity,
}
use qlabs_catalog_sync.Diff.{AnyManifest, DroppedField}
use qlabs_catalog_sync.Selection.RuleSet.{SelectionRuleSet}

pub data ManualEditMode : Type 0 where
  source_wins preserve_local : ManualEditMode

pub record ManualEditPolicy : Type 0 where
  pub default : ManualEditMode
  pub per_entity : Dict EntityType ManualEditMode
  pub per_field : Dict String ManualEditMode

abbrev pub value_of : EntityType → String
value_of data_product = "data_product"
value_of dataset = "dataset"
value_of glossary_term = "glossary_term"
value_of category = "category"

abbrev pub get_or {ℓ} : {A : Type ℓ} → Option A → A → A
get_or none a = a
get_or (some a) _ = a

unfoldable pub mode_for : ManualEditPolicy → EntityType → String → ManualEditMode
mode_for p t field =
    get_or (lookup (value_of t <> "." <> field) p.per_field)
      (get_or (lookup t p.per_entity) p.default)

-- The two ends of the pair; the source is only read.
pub data Side : Type 0 where
  source target : Side

-- The calls of the connectors. There is none that writes at the source.
pub data Call : Type 0 where
  healthcheck : Side → Call
  list_changed : EntityType → Watermark → Call
  read : Side → IdentityRef → Call
  update : IdentityRef → FieldDiff → Call
  create : NeutralEntity → Call

-- A connector answers by all the calls before: it may hold any state, and fail at any time.
pub record Endpoints : Type 0 where
  -- `status.should_quarantine`
  pub on_healthcheck : List Call → Side → Result ConnectorError Bool
  pub on_list_changed : List Call → EntityType → Watermark → Result ConnectorError ListChangedResult
  pub on_read : List Call → Side → IdentityRef → Result ConnectorError NeutralEntity
  pub on_update : List Call → IdentityRef → FieldDiff → Result ConnectorError WriteResult
  pub on_create : List Call → NeutralEntity → Result ConnectorError WriteResult

pub record Settings : Type 0 where
  pub pair_name : String
  pub source_name : String
  pub target_name : String
  pub entity_types : List EntityType
  pub target_space : String
  pub activation_opt_in : Bool
  pub write_policy : Option ManualEditPolicy
  pub source_manifest : AnyManifest
  pub target_manifest : AnyManifest
  pub native_update_paths : Dict EntityType (Dict String String)
  pub rules : SelectionRuleSet
  pub create_missing : Bool
  pub dry_run : Bool
  pub preflight : Bool
  pub max_pages : ℕ
  pub retry_attempts : ℕ
  -- The instant of each reading of the clock, and the result of each `uuid4()`.
  pub clock : ℕ → ℕ
  pub uuid4 : ℕ → ℕ

pub data RecordOutcome : Type 0 where
  created written unchanged no_op skipped filtered orphaned : RecordOutcome

pub data SkipReason : Type 0 where
  no_target_binding unconfirmed_target_binding nothing_to_write target_not_found : SkipReason
  capability_refused conflict_unresolved deleted_unknown_object no_source_envelopes : SkipReason
  not_selected : SkipReason

-- `_TERMINAL_SKIP_REASONS`
unfoldable pub is_terminal : SkipReason → Bool
is_terminal nothing_to_write = true
is_terminal deleted_unknown_object = true
is_terminal not_selected = true
is_terminal no_target_binding = false
is_terminal unconfirmed_target_binding = false
is_terminal target_not_found = false
is_terminal capability_refused = false
is_terminal conflict_unresolved = false
is_terminal no_source_envelopes = false

pub data RunStatus : Type 0 where
  ok_status partial_status failed_status skipped_status : RunStatus

pub record WithheldField : Type 0 where
  pub field : String
  pub reason : String

pub record RecordReport : Type 0 where
  pub native_key : String
  pub entity_type : EntityType
  pub outcome : RecordOutcome
  pub neutral_id : Option ℕ
  pub display_name : Option String
  pub target_native_key : Option String
  pub reason : Option SkipReason
  pub was_read : Bool
  pub changed_fields : List String
  pub written_fields : List String
  pub dropped : List DroppedField
  pub withheld : List WithheldField
  pub target_skipped_fields : List String
  pub holds_watermark : Bool

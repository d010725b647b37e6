-- ===== src/Changes.antt =====
-- The SDK's contract.py: watermarks, listings and write results, and the errors of exceptions.py.
pub mod Valid
pub mod Order
use qlabs_catalog_sync.Prelude.{
  ℕ, Eq, Bool, true, false, ◌&&◌, List, String, Option, none, ◌==◌, string_eq, option_eq, nat_eq,
}
use qlabs_catalog_sync.Models.{EntityType, entity_type_eq, IdentityRef, Envelopes, Json}

pub data WatermarkKind : Type 0 where
  initial timestamp cursor : WatermarkKind

WatermarkKind-discrete : Discrete WatermarkKind
WatermarkKind-discrete = hlevel

instance unfoldable pub kind_eq : Eq WatermarkKind
unfolding WatermarkKind-discrete
kind_eq = record { dec = WatermarkKind-discrete }

pub record Watermark : Type 0 where
  pub endpoint : String
  pub entity_type : EntityType
  pub kind : WatermarkKind
  pub timestamp : Option ℕ
  pub cursor : Option String
  pub observed_at : Option ℕ

-- `==` of two watermarks, field by field.
unfoldable pub same_watermark : Watermark → Watermark → Bool
same_watermark a b =
    a.endpoint == b.endpoint
    && a.entity_type == b.entity_type
    && a.kind == b.kind
    && a.timestamp == b.timestamp
    && a.cursor == b.cursor
    && a.observed_at == b.observed_at

abbrev pub initial_watermark : String → EntityType → Watermark
initial_watermark endpoint entity_type = record {
  endpoint = endpoint;
  entity_type = entity_type;
  kind = initial;
  timestamp = none;
  cursor = none;
  observed_at = none;
}

unfoldable pub same_stream_as : Watermark → Watermark → Bool
same_stream_as a b = a.endpoint == b.endpoint && a.entity_type == b.entity_type

pub data ChangeKind : Type 0 where
  upsert created updated deleted : ChangeKind

pub record ChangeRef : Type 0 where
  pub ref : IdentityRef
  pub kind : ChangeKind
  pub source_revision : Option String
  pub last_modified_at : Option ℕ
  pub display_name : Option String

unfoldable pub is_delete : ChangeRef → Bool
is_delete c = elim c.kind [ upsert ↦ false | created ↦ false | updated ↦ false | deleted ↦ true ]

pub record ListChangedResult : Type 0 where
  pub changes : List ChangeRef
  pub next_watermark : Watermark
  pub has_more : Bool

pub data WriteOutcome : Type 0 where
  created updated no_op : WriteOutcome

pub record WriteResult : Type 0 where
  pub ref : IdentityRef
  pub outcome : WriteOutcome
  pub source_revision : Option String
  pub written_fields : List String
  pub skipped_fields : List String

-- What a connector call may raise; a transient error may carry `retry_after_seconds`.
pub data ConnectorError : Type 0 where
  auth_error : ConnectorError
  transient_error : Option ℕ → ConnectorError
  not_found conflict_error capability_error other_error : ConnectorError

-- `placement` and `status` of a data product; `body` is what the engine passes on unread.
pub record ProductFields : Type 0 where
  pub placement : Option String
  pub status : Option String

pub record NeutralEntity : Type 0 where
  pub neutral_id : ℕ
  pub product : Option ProductFields
  pub field_envelopes : Envelopes
  pub body : Json

-- ===== src/State/Rows.antt =====
-- state/models.py: the four tables, as dicts from primary keys to the other columns.
use native.Mathlib.Decide.{ℕ_discrete}
use qlabs_catalog_sync.Prelude.{ℕ, Eq, string_eq, Bool, [], String, Option}
use qlabs_catalog_sync.Prelude.Dict.{Dict}
use qlabs_catalog_sync.Models.{EntityType, EntityType-discrete, Json}

-- The primary key of `identity_map` and of `orphan_log`.
pub record RowKey : Type 0 where
  pub neutral_id : ℕ
  pub endpoint : String
  pub entity_type : EntityType

pub record WatermarkKey : Type 0 where
  pub sync_pair : String
  pub endpoint : String
  pub entity_type : EntityType

pub record EnvelopeKey : Type 0 where
  pub neutral_id : ℕ
  pub endpoint : String
  pub entity_type : EntityType
  pub field : String

unfoldable pub String-discrete : Discrete String
unfolding string_eq
String-discrete = string_eq.dec

unfoldable pub RowKey-discrete : Discrete RowKey
RowKey-discrete = hlevel (ℕ_discrete, String-discrete, EntityType-discrete)

pub WatermarkKey-discrete : Discrete WatermarkKey
WatermarkKey-discrete = hlevel (ℕ_discrete, String-discrete, EntityType-discrete)

pub EnvelopeKey-discrete : Discrete EnvelopeKey
EnvelopeKey-discrete = hlevel (ℕ_discrete, String-discrete, EntityType-discrete)

instance unfoldable pub row_key_eq : Eq RowKey
unfolding RowKey-discrete
row_key_eq = record { dec = RowKey-discrete }

instance unfoldable pub watermark_key_eq : Eq WatermarkKey
unfolding WatermarkKey-discrete
watermark_key_eq = record { dec = WatermarkKey-discrete }

instance unfoldable pub envelope_key_eq : Eq EnvelopeKey
unfolding EnvelopeKey-discrete
envelope_key_eq = record { dec = EnvelopeKey-discrete }

pub record IdentityMapRow : Type 0 where
  pub tenant_id : String
  pub native_key : String
  pub secondary_keys : Dict String String
  pub confirmed : Bool
  pub confirmed_at : Option ℕ
  pub created_at : ℕ
  pub updated_at : ℕ

pub record WatermarkRow : Type 0 where
  pub watermark_token : Option String
  pub last_run_at : Option ℕ
  pub last_status : Option String
  pub updated_at : ℕ

pub record FieldEnvelopeRow : Type 0 where
  pub value_json : Json
  pub source_endpoint : Option String
  pub source_revision : Option String
  pub last_modified_at : Option ℕ
  pub last_synced_at : Option ℕ
  pub checksum : Option String
  pub updated_at : ℕ

pub record OrphanLogRow : Type 0 where
  pub native_key : Option String
  pub first_missing_at : ℕ
  pub last_missing_at : ℕ
  pub last_seen_at : Option ℕ
  pub resolved_at : Option ℕ

pub record Db : Type 0 where
  pub identity_map : Dict RowKey IdentityMapRow
  pub watermarks : Dict WatermarkKey WatermarkRow
  pub field_envelopes : Dict EnvelopeKey FieldEnvelopeRow
  pub orphan_log : Dict RowKey OrphanLogRow

abbrev pub empty : Db
empty = record { identity_map = []; watermarks = []; field_envelopes = []; orphan_log = [] }

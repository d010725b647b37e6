-- ===== src/State/Queries.antt =====
-- The reads of `StateStore` in state/store.py.
use qlabs_catalog_sync.Prelude.{
  ℕ, Bool, true, not, ◌&&◌, ◌||◌, List, [], ◌∷◌, String, Option, none, some, if◌then◌else◌, ◌==◌,
  string_eq, is_none, nat_eq, Result, ok, err,
}
use qlabs_catalog_sync.Prelude.Text.{is_empty}
use qlabs_catalog_sync.Prelude.Dict
use qlabs_catalog_sync.Prelude.Dict.{Dict}
use qlabs_catalog_sync.Models.{entity_type_eq, IdentityRef, FieldEnvelope, Envelopes}
use qlabs_catalog_sync.State.Rows.{
  RowKey, row_key_eq, WatermarkKey, watermark_key_eq, EnvelopeKey, envelope_key_eq, IdentityMapRow,
  WatermarkRow, FieldEnvelopeRow, OrphanLogRow, Db,
}
use qlabs_catalog_sync.State.UnitOfWork.{StoreError, multiple_results, names_object}

pub record IdentityBinding : Type 0 where
  pub neutral_id : ℕ
  pub identity : IdentityRef
  pub confirmed : Bool
  pub created_at : ℕ
  pub updated_at : ℕ
  pub confirmed_at : Option ℕ

abbrev pub binding_from_row : RowKey → IdentityMapRow → IdentityBinding
binding_from_row key row = record {
  neutral_id = key.neutral_id;
  identity = record {
    endpoint = key.endpoint;
    entity_type = key.entity_type;
    native_key = row.native_key;
    tenant_id = row.tenant_id;
    secondary_keys = row.secondary_keys;
  };
  confirmed = row.confirmed;
  created_at = row.created_at;
  updated_at = row.updated_at;
  confirmed_at = row.confirmed_at;
}

unfoldable pub bindings_of : IdentityRef → Dict RowKey IdentityMapRow → List IdentityBinding
bindings_of identity [] = []
bindings_of identity ((key, row) ∷ rows) =
    let rest = bindings_of identity rows in
    if names_object identity key row then binding_from_row key row ∷ rest else rest

abbrev pub one_or_none : List IdentityBinding → Result StoreError (Option IdentityBinding)
one_or_none [] = ok none
one_or_none (b ∷ []) = ok (some b)
one_or_none (b ∷ c ∷ rest) = err multiple_results

-- The endpoint, entity type, tenant and native key of `identity` are the four arguments.
unfoldable pub find_binding : IdentityRef → Db → Result StoreError (Option IdentityBinding)
unfolding bindings_of
find_binding identity db = one_or_none (bindings_of identity db.identity_map)

unfoldable pub get_binding : RowKey → Db → Option IdentityBinding
get_binding key db = elim (Dict.lookup key db.identity_map) [
  | none ↦ none
  | some row ↦ some (binding_from_row key row)
]

-- `row.source_endpoint or row.endpoint`
abbrev pub endpoint_or : Option String → String → String
endpoint_or none endpoint = endpoint
endpoint_or (some source) endpoint = if is_empty source then endpoint else source

abbrev pub envelope_from_row : EnvelopeKey → FieldEnvelopeRow → FieldEnvelope
envelope_from_row key row = record {
  value = row.value_json;
  source_endpoint = endpoint_or row.source_endpoint key.endpoint;
  source_revision = row.source_revision;
  last_modified_at = row.last_modified_at;
  last_synced_at = row.last_synced_at;
  checksum = row.checksum;
}

-- The dict comprehension: a later row of a field takes the place of an earlier one.
unfoldable pub envelopes_from :
    ℕ → String → Envelopes → Dict EnvelopeKey FieldEnvelopeRow → Envelopes
envelopes_from neutral_id endpoint found [] = found
envelopes_from neutral_id endpoint found ((key, row) ∷ rows) =
    envelopes_from neutral_id endpoint
      (if key.neutral_id == neutral_id && key.endpoint == endpoint
        then Dict.insert key.field (envelope_from_row key row) found
        else found)
      rows

unfoldable pub fetch_envelopes : ℕ → String → Db → Envelopes
unfolding envelopes_from
fetch_envelopes neutral_id endpoint db = envelopes_from neutral_id endpoint [] db.field_envelopes

unfoldable pub get_watermark : WatermarkKey → Db → Option WatermarkRow
get_watermark key db = Dict.lookup key db.watermarks

abbrev pub at_endpoint : Option String → String → Bool
at_endpoint none endpoint = true
at_endpoint (some wanted) endpoint = endpoint == wanted

unfoldable pub orphans_in :
    Option String → Bool → Dict RowKey OrphanLogRow → Dict RowKey OrphanLogRow
orphans_in endpoint unresolved_only [] = []
orphans_in endpoint unresolved_only ((key, row) ∷ rows) =
    let rest = orphans_in endpoint unresolved_only rows in
    if at_endpoint endpoint key.endpoint && (not unresolved_only || is_none row.resolved_at)
    then (key, row) ∷ rest
    else rest

unfoldable pub list_orphans : Option String → Bool → Db → Dict RowKey OrphanLogRow
unfolding orphans_in
list_orphans endpoint unresolved_only db = orphans_in endpoint unresolved_only db.orphan_log

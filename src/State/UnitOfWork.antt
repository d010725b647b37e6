-- ===== src/State/UnitOfWork.antt =====
-- `UnitOfWork` of state/store.py: the writes of one transaction, and the transaction.
use qlabs_catalog_sync.Prelude.{
  ℕ, Bool, true, false, not, ◌&&◌, ◌||◌, List, [], ◌∷◌, String, Option, none, some, if◌then◌else◌,
  ◌==◌, string_eq, is_none, Result, ok, err, ◌>>=◌,
}
use qlabs_catalog_sync.Prelude.Dict
use qlabs_catalog_sync.Prelude.Dict.{Dict}
use qlabs_catalog_sync.Models.{entity_type_eq, IdentityRef, FieldEnvelope}
use qlabs_catalog_sync.State.Rows.{
  RowKey, row_key_eq, WatermarkKey, watermark_key_eq, EnvelopeKey, envelope_key_eq, IdentityMapRow,
  FieldEnvelopeRow, OrphanLogRow, Db,
}

pub data StoreError : Type 0 where
  -- The unique constraint of `identity_map`: one neutral id to one native object.
  integrity_error : StoreError
  no_binding no_orphan : StoreError
  -- `one_or_none` met more than one row.
  multiple_results : StoreError

abbrev pub identity_key : ℕ → IdentityRef → RowKey
identity_key neutral_id identity = record {
  neutral_id = neutral_id;
  endpoint = identity.endpoint;
  entity_type = identity.entity_type;
}

-- The row stands for the native object.
unfoldable pub names_object : IdentityRef → RowKey → IdentityMapRow → Bool
names_object identity key row =
    key.endpoint == identity.endpoint
    && key.entity_type == identity.entity_type
    && row.tenant_id == identity.tenant_id
    && row.native_key == identity.native_key

-- Another row stands for the native object already.
unfoldable pub taken : RowKey → IdentityRef → Dict RowKey IdentityMapRow → Bool
taken key identity [] = false
taken key identity ((j, row) ∷ rows) =
    (not (j == key) && names_object identity j row) || taken key identity rows

abbrev pub bound_row : IdentityRef → Bool → ℕ → Option IdentityMapRow → IdentityMapRow
bound_row identity confirmed now none = record {
  tenant_id = identity.tenant_id;
  native_key = identity.native_key;
  secondary_keys = identity.secondary_keys;
  confirmed = confirmed;
  confirmed_at = if confirmed then some now else none;
  created_at = now;
  updated_at = now;
}
bound_row identity confirmed now (some existing) = record existing {
  tenant_id = identity.tenant_id;
  native_key = identity.native_key;
  secondary_keys = identity.secondary_keys;
  confirmed = confirmed;
  confirmed_at =
      if confirmed && is_none existing.confirmed_at then some now else existing.confirmed_at;
  updated_at = now;
}

unfoldable pub bind_identity : ℕ → IdentityRef → Bool → ℕ → Db → Result StoreError Db
bind_identity neutral_id identity confirmed now db =
    let key = identity_key neutral_id identity in
    if taken key identity db.identity_map
    then err integrity_error
    else ok (record db {
      identity_map =
          Dict.insert key (bound_row identity confirmed now (Dict.lookup key db.identity_map))
            db.identity_map;
    })

unfoldable pub confirm_identity : RowKey → ℕ → Db → Result StoreError Db
confirm_identity key now db = elim (Dict.lookup key db.identity_map) [
  | none ↦ err no_binding
  | some row ↦ ok (record db {
    identity_map =
        Dict.insert key (record row { confirmed = true; confirmed_at = some now; updated_at = now })
          db.identity_map;
  })
]

abbrev pub envelope_row : FieldEnvelope → ℕ → FieldEnvelopeRow
envelope_row e now = record {
  value_json = e.value;
  source_endpoint = some e.source_endpoint;
  source_revision = e.source_revision;
  last_modified_at = e.last_modified_at;
  last_synced_at = e.last_synced_at;
  checksum = e.checksum;
  updated_at = now;
}

unfoldable pub upsert_field_envelope : EnvelopeKey → FieldEnvelope → ℕ → Db → Result StoreError Db
upsert_field_envelope key e now db =
    ok (record db { field_envelopes = Dict.insert key (envelope_row e now) db.field_envelopes })

unfoldable pub advance_watermark :
    WatermarkKey → Option String → String → ℕ → Db → Result StoreError Db
advance_watermark key token status run_at db = ok (record db {
  watermarks =
      Dict.insert key
        (record {
          watermark_token = token;
          last_run_at = some run_at;
          last_status = some status;
          updated_at = run_at;
        })
        db.watermarks;
})

abbrev pub prefer {ℓ} : {A : Type ℓ} → Option A → Option A → Option A
prefer none earlier = earlier
prefer (some a) earlier = some a

abbrev pub orphan_row : Option String → Option ℕ → ℕ → Option OrphanLogRow → OrphanLogRow
orphan_row native_key last_seen_at observed_at none = record {
  native_key = native_key;
  first_missing_at = observed_at;
  last_missing_at = observed_at;
  last_seen_at = last_seen_at;
  resolved_at = none;
}
orphan_row native_key last_seen_at observed_at (some existing) = record {
  native_key = prefer native_key existing.native_key;
  first_missing_at = existing.first_missing_at;
  last_missing_at = observed_at;
  last_seen_at = prefer last_seen_at existing.last_seen_at;
  resolved_at = none;
}

unfoldable pub record_orphan : RowKey → Option String → Option ℕ → ℕ → Db → Result StoreError Db
record_orphan key native_key last_seen_at observed_at db = ok (record db {
  orphan_log =
      Dict.insert key
        (orphan_row native_key last_seen_at observed_at (Dict.lookup key db.orphan_log))
        db.orphan_log;
})

unfoldable pub resolve_orphan : RowKey → ℕ → Db → Result StoreError Db
resolve_orphan key now db = elim (Dict.lookup key db.orphan_log) [
  | none ↦ err no_orphan
  | some row ↦ ok (record db {
    orphan_log =
        Dict.insert key (record row { resolved_at = some now; last_seen_at = some now })
          db.orphan_log;
  })
]

-- `async with store.unit_of_work() as uow`: commit, or roll back and raise again.
unfoldable pub unit_of_work : (Db → Result StoreError Db) → Db → Result StoreError (Unit {0}) × Db
unit_of_work body db = elim (body db) [ ok db' ↦ (ok tt, db') | err e ↦ (err e, db) ]

-- The writes of a transaction, in the order of the calls.
pub data Write : Type 0 where
  bind : ℕ → IdentityRef → Bool → ℕ → Write
  confirm : RowKey → ℕ → Write
  upsert : EnvelopeKey → FieldEnvelope → ℕ → Write
  advance : WatermarkKey → Option String → String → ℕ → Write
  orphan : RowKey → Option String → Option ℕ → ℕ → Write
  resolve : RowKey → ℕ → Write

unfoldable pub perform : Write → Db → Result StoreError Db
perform (bind neutral_id identity confirmed now) = bind_identity neutral_id identity confirmed now
perform (confirm key now) = confirm_identity key now
perform (upsert key e now) = upsert_field_envelope key e now
perform (advance key token status run_at) = advance_watermark key token status run_at
perform (orphan key native_key last_seen_at observed_at) =
    record_orphan key native_key last_seen_at observed_at
perform (resolve key now) = resolve_orphan key now

unfoldable pub perform_all : List Write → Db → Result StoreError Db
perform_all [] db = ok db
perform_all (w ∷ ws) db = do db' ← perform w db; perform_all ws db'

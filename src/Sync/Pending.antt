-- ===== src/Sync/Pending.antt =====
-- What a cycle plans to persist: `_queue_envelopes`, `_orphan`, `_apply` and `_commit`, and the
-- reads that see what is planned: `_source_neutral_id`, `_target_ref`, `_stored_target_envelopes`.
use qlabs_catalog_sync.Prelude.{
  ℕ, Bool, true, false, if◌then◌else◌, List, [], ◌∷◌, ◌++◌, map, String, Option, none, some, nat_eq,
  string_eq, ok,
}
use qlabs_catalog_sync.Prelude.Dict
use qlabs_catalog_sync.Prelude.Dict.{Dict}
use qlabs_catalog_sync.Models.{EntityType, IdentityRef, FieldEnvelope, Envelopes}
use qlabs_catalog_sync.Changes.{Watermark}
use qlabs_catalog_sync.State.Rows.{Db}
use qlabs_catalog_sync.State.UnitOfWork.{
  Write, bind, upsert, advance, orphan, resolve, perform_all, unit_of_work,
}
use qlabs_catalog_sync.State.Queries.{IdentityBinding, find_binding, get_binding, fetch_envelopes}
use qlabs_catalog_sync.Sync.Settings.{
  Settings, RunStatus, ok_status, partial_status, failed_status, skipped_status,
}
use qlabs_catalog_sync.Sync.Cycle.{
  Cycle, Mutations, PendingBinding, PendingEnvelope, PendingOrphan, PendingOrphanResolution, Sync,
  ◌>>=◌, pure, raise_store,
}

abbrev pub set_mutations : Mutations → Cycle → Cycle
set_mutations m c = record c { mutations = m }

-- `stored.update(other)`
abbrev pub update_all : Envelopes → Envelopes → Envelopes
update_all stored [] = stored
update_all stored ((name, e) ∷ others) = update_all (Dict.insert name e stored) others

abbrev pub or_empty : Option Envelopes → Envelopes
or_empty none = []
or_empty (some d) = d

unfoldable pub queue_one :
    ℕ → String → EntityType → Option String → ℕ → String → FieldEnvelope → Mutations → Mutations
queue_one neutral_id endpoint entity_type revision now name e m =
    let persisted : FieldEnvelope = record e {
      source_revision = revision;
      last_synced_at = some now;
    } in
    record m {
      envelopes =
          m.envelopes
          ++ (record {
            neutral_id = neutral_id;
            endpoint = endpoint;
            entity_type = entity_type;
            field = name;
            envelope = persisted;
          }
              ∷ []);
      envelope_index =
          Dict.insert neutral_id
            (Dict.insert name persisted (or_empty (Dict.lookup neutral_id m.envelope_index)))
            m.envelope_index;
    }

-- A field without a source envelope is passed over.
abbrev pub queue_found :
    ℕ
    → String
    → EntityType
    → Option String
    → ℕ
    → String
    → Option FieldEnvelope
    → Mutations
    → Mutations
queue_found neutral_id endpoint entity_type revision now name none m = m
queue_found neutral_id endpoint entity_type revision now name (some e) m =
    queue_one neutral_id endpoint entity_type revision now name e m

unfoldable pub queue_envelopes :
    ℕ → String → EntityType → Option String → ℕ → List String → Envelopes → Mutations → Mutations
queue_envelopes neutral_id endpoint entity_type revision now [] source m = m
queue_envelopes neutral_id endpoint entity_type revision now (name ∷ names) source m =
    queue_envelopes neutral_id endpoint entity_type revision now names source
      (queue_found neutral_id endpoint entity_type revision now name (Dict.lookup name source) m)

module _ (s : Settings) where
  abbrev pub neutral_id_of : Option IdentityBinding → Option ℕ
  neutral_id_of none = none
  neutral_id_of (some b) = some b.neutral_id

  abbrev pub pending_or : IdentityRef → Option ℕ → Sync (Option ℕ)
  pending_or ref (some pending) c = (ok (some pending), c)
  pending_or ref none c =
      (raise_store (find_binding ref c.db) >>= λ found. pure (neutral_id_of found)) c

  -- The id minted earlier in this cycle, or else `resolve_neutral_id`.
  unfoldable pub source_neutral_id : IdentityRef → Sync (Option ℕ)
  source_neutral_id ref c = pending_or ref (Dict.lookup ref.native_key c.mutations.source_ids) c

  abbrev pub counterpart : ℕ → EntityType → Db → Option IdentityBinding
  counterpart neutral_id entity_type db =
      get_binding
        (record { neutral_id = neutral_id; endpoint = s.target_name; entity_type = entity_type }) db

  abbrev pub confirmed_identity : Option IdentityBinding → Option IdentityRef
  confirmed_identity none = none
  confirmed_identity (some b) = if b.confirmed then some b.identity else none

  unfoldable pub target_ref : ℕ → EntityType → Cycle → Option IdentityRef
  target_ref neutral_id entity_type c = elim (Dict.lookup neutral_id c.mutations.target_refs) [
    | some created ↦ some created
    | none ↦ confirmed_identity (counterpart neutral_id entity_type c.db)
  ]

  abbrev is_unconfirmed : Option IdentityBinding → Bool
  is_unconfirmed none = false
  is_unconfirmed (some b) = if b.confirmed then false else true

  -- `_unconfirmed_binding_detail` answers with a detail.
  unfoldable pub has_unconfirmed_binding : ℕ → EntityType → Cycle → Bool
  has_unconfirmed_binding neutral_id entity_type c =
      is_unconfirmed (counterpart neutral_id entity_type c.db)

  unfoldable pub stored_target_envelopes : ℕ → Cycle → Envelopes
  stored_target_envelopes neutral_id c =
      update_all (fetch_envelopes neutral_id s.target_name c.db)
        (or_empty (Dict.lookup neutral_id c.mutations.envelope_index))

binding_write : ℕ → PendingBinding → Write
binding_write now b = bind b.neutral_id b.identity b.confirmed now

envelope_write : ℕ → PendingEnvelope → Write
envelope_write now p =
    upsert
      (record {
        neutral_id = p.neutral_id;
        endpoint = p.endpoint;
        entity_type = p.entity_type;
        field = p.field;
      })
      p.envelope now

orphan_write : PendingOrphan → Write
orphan_write o =
    orphan
      (record { neutral_id = o.neutral_id; endpoint = o.endpoint; entity_type = o.entity_type })
      o.native_key o.last_seen_at o.observed_at

resolution_write : ℕ → PendingOrphanResolution → Write
resolution_write now r =
    resolve
      (record { neutral_id = r.neutral_id; endpoint = r.endpoint; entity_type = r.entity_type }) now

-- `_apply`, as the writes that it makes, in their order.
unfoldable pub planned_writes : ℕ → Mutations → List Write
unfolding binding_write envelope_write orphan_write resolution_write
planned_writes now m =
    map (binding_write now) m.bindings
    ++ map (envelope_write now) m.envelopes
    ++ map orphan_write m.orphans
    ++ map (resolution_write now) m.resolved_orphans

abbrev pub status_value : RunStatus → String
status_value ok_status = "ok"
status_value partial_status = "partial"
status_value failed_status = "failed"
status_value skipped_status = "skipped"

-- `async with store.unit_of_work()` in the cycle.
unfoldable pub transact : List Write → Sync (Unit {0})
transact writes c =
    let (outcome, db) = unit_of_work (perform_all writes) c.db in
    raise_store outcome (record c { db = db })

-- `dump` is pydantic's `model_dump_json`.
unfoldable pub commit_writes :
    Settings
    → (Watermark → String)
    → EntityType
    → Mutations
    → Watermark
    → RunStatus
    → ℕ
    → List Write
commit_writes s dump entity_type m watermark status now =
    planned_writes now m
    ++ (advance
          (record { sync_pair = s.pair_name; endpoint = s.source_name; entity_type = entity_type })
          (some (dump watermark)) (status_value status) now
        ∷ [])

-- ===== src/Sync/Process.antt =====
-- One change of a listing, to its end: `_update`, `_create_or_skip`, `_anchor_created_object` and
-- `_process`.
use qlabs_catalog_sync.Prelude.{
  ℕ, Bool, true, false, not, ◌&&◌, if◌then◌else◌, List, [], ◌∷◌, ◌++◌, String, Option, none, some,
  ◌==◌, nat_eq, string_eq, contains, filter, is_none, Result, ok, err,
}
use qlabs_catalog_sync.Prelude.Dict
use qlabs_catalog_sync.Prelude.Dict.{Dict, keys}
use qlabs_catalog_sync.Prelude.Sort.{sort}
use qlabs_catalog_sync.Prelude.Text.{str_lt, is_empty}
use qlabs_catalog_sync.Models.{EntityType, IdentityRef, Envelopes}
use qlabs_catalog_sync.Diff.{DiffPlan}
use qlabs_catalog_sync.Changes.{
  ChangeRef, is_delete, not_found, capability_error, NeutralEntity, ProductFields, WriteResult,
}
use qlabs_catalog_sync.State.UnitOfWork.{Write, bind}
use qlabs_catalog_sync.Sync.Settings.{
  Settings, Endpoints, source, RecordReport, created, unconfirmed_target_binding, no_target_binding,
  no_source_envelopes, WithheldField,
}
use qlabs_catalog_sync.Sync.Cycle.{
  Cycle, Mutations, Sync, Raised, connector_error, ◌>>=◌, ◌>>◌, pure, modify,
}
use qlabs_catalog_sync.Sync.Calls.{now, new_id, call_read, call_create}
use qlabs_catalog_sync.Sync.Pending.{
  set_mutations, source_neutral_id, target_ref, has_unconfirmed_binding, stored_target_envelopes,
  transact,
}
use qlabs_catalog_sync.Sync.Writes.{activation_field, plan_diff, held_names}
use qlabs_catalog_sync.Sync.Records.{
  filtered_report, read_report, skip, capability_skip, target_can_create, is_selected, record_gone,
  queue, plan_failed, update_planned,
}

abbrev or_default : Option String → String → Option String
or_default none space = some space
or_default (some placement) space = if is_empty placement then some space else some placement

-- A data product is placed in the pair's space, and its status is cleared without the opt-in.
unfoldable pub prepare_product : Settings → ProductFields → ProductFields × List WithheldField
prepare_product s p =
    let placement = or_default p.placement s.target_space in
    if not s.activation_opt_in && not (is_none p.status)
    then (
      record { placement = placement; status = none },
      record { field = activation_field; reason = "activation_not_opted_in" } ∷ [],
    )
    else (record { placement = placement; status = p.status }, [])

unfoldable pub prepare : Settings → ℕ → NeutralEntity → NeutralEntity × List WithheldField
prepare s neutral_id entity = elim entity.product [
  | none ↦ (record entity { neutral_id = neutral_id }, [])
  | some p ↦
      let (product, held) = prepare_product s p in
      (record entity { neutral_id = neutral_id; product = some product }, held)
]

-- `name in source_envelopes and name not in held`
unfoldable pub persisted_on_create : List String → Envelopes → List WithheldField → List String
persisted_on_create names source_envelopes held =
    filter
      (λ name.
        not (is_none (Dict.lookup name source_envelopes)) && not (contains (held_names held) name))
      names

abbrev pub anchors : ℕ → IdentityRef → IdentityRef → ℕ → List Write
anchors neutral_id source_ref created_ref at =
    bind neutral_id source_ref true at ∷ bind neutral_id created_ref true at ∷ []

module _ (casefold : String → String) (s : Settings) (e : Endpoints) where
  abbrev pub planned :
      ChangeRef
      → EntityType
      → ℕ
      → IdentityRef
      → Envelopes
      → Envelopes
      → Result Raised DiffPlan × Cycle
      → Result Raised RecordReport × Cycle
  planned change t neutral_id ref source_envelopes stored (ok plan, c) =
      update_planned casefold s e change t neutral_id ref source_envelopes stored plan c
  planned change t neutral_id ref source_envelopes stored (err x, c) =
      plan_failed casefold s e change t neutral_id ref x c

  unfoldable pub update_bound :
      ChangeRef → EntityType → ℕ → IdentityRef → Envelopes → Sync RecordReport
  update_bound change t neutral_id ref source_envelopes c =
      let stored = stored_target_envelopes s neutral_id c in
      planned change t neutral_id ref source_envelopes stored
        (plan_diff s e t source_envelopes stored c)

  -- The new binding is committed at once: the object exists at the target from here on.
  unfoldable pub anchor_created_object : ℕ → IdentityRef → IdentityRef → Sync (Unit {0})
  anchor_created_object neutral_id source_ref created_ref =
      now s e >>= λ at. transact (anchors neutral_id source_ref created_ref at)

  abbrev pub add_binding : ℕ → IdentityRef → Mutations → Mutations
  add_binding neutral_id ref m = record m {
    bindings =
        m.bindings ++ (record { neutral_id = neutral_id; identity = ref; confirmed = true } ∷ []);
  }

  abbrev pub note_created : ℕ → IdentityRef → Cycle → Cycle
  note_created neutral_id ref c =
      set_mutations
        (record (add_binding neutral_id ref c.mutations) {
          target_refs = Dict.insert neutral_id ref c.mutations.target_refs;
        })
        c

  abbrev pub created_report :
      ChangeRef → EntityType → ℕ → Envelopes → List WithheldField → Option String → RecordReport
  created_report change t neutral_id source_envelopes held target_key =
      record (read_report change t neutral_id created target_key) {
        changed_fields = sort str_lt (keys source_envelopes);
        withheld = held;
      }

  abbrev pub queue_created :
      EntityType → ℕ → Envelopes → List String → WriteResult → RecordReport → ℕ → Sync RecordReport
  queue_created t neutral_id source_envelopes persisted result report at = do
    modify (queue casefold s e neutral_id t persisted source_envelopes result.source_revision at)
    pure report

  unfoldable pub record_created :
      ChangeRef
      → EntityType
      → ℕ
      → Envelopes
      → List String
      → WriteResult
      → RecordReport
      → Sync RecordReport
  record_created change t neutral_id source_envelopes persisted result report c =
      (anchor_created_object neutral_id change.ref result.ref >>= λ _.
      now s e >>= queue_created t neutral_id source_envelopes persisted result report)
        (note_created neutral_id result.ref c)

  -- What follows the answer of `create`.
  unfoldable pub after_create :
      ChangeRef
      → EntityType
      → ℕ
      → Envelopes
      → List WithheldField
      → Result Raised WriteResult × Cycle
      → Result Raised RecordReport × Cycle
  after_create change t neutral_id source_envelopes held
        (err (connector_error capability_error), c) =
      capability_skip change t neutral_id none c
  after_create change t neutral_id source_envelopes held (err x, c) = (err x, c)
  after_create change t neutral_id source_envelopes held (ok result, c) =
      let persisted = persisted_on_create result.written_fields source_envelopes held in
      record_created change t neutral_id source_envelopes persisted result
        (record (created_report change t neutral_id source_envelopes held
          (some result.ref.native_key)) {
            written_fields = persisted;
            target_skipped_fields = result.skipped_fields;
          })
        c

  -- The guards in their order: an unconfirmed binding, creation enabled, a target that can create,
  -- and a dry run.
  abbrev pub create_checked :
      ChangeRef → EntityType → ℕ → NeutralEntity → Bool → Bool → Bool → Bool → Sync RecordReport
  create_checked change t neutral_id entity true missing creatable dry c =
      (ok (skip change t neutral_id unconfirmed_target_binding none), c)
  create_checked change t neutral_id entity false false creatable dry c =
      (ok (skip change t neutral_id no_target_binding none), c)
  create_checked change t neutral_id entity false true false dry c =
      capability_skip change t neutral_id none c
  create_checked change t neutral_id entity false true true true c = (
    ok (
        created_report change t neutral_id entity.field_envelopes (prepare s neutral_id entity).1
          none),
    c,
  )
  create_checked change t neutral_id entity false true true false c =
      let (candidate, held) = prepare s neutral_id entity in
      after_create change t neutral_id entity.field_envelopes held (call_create s e candidate c)

  unfoldable pub create_or_skip : ChangeRef → EntityType → ℕ → NeutralEntity → Sync RecordReport
  create_or_skip change t neutral_id entity c =
      create_checked change t neutral_id entity (has_unconfirmed_binding s neutral_id t c)
        s.create_missing (target_can_create s.target_manifest t) s.dry_run c

  abbrev pub note_source : ChangeRef → Option ℕ → ℕ → Cycle → Cycle
  note_source change (some known) neutral_id c = c
  note_source change none neutral_id c =
      set_mutations
        (record (add_binding neutral_id change.ref c.mutations) {
          source_ids = Dict.insert change.ref.native_key neutral_id c.mutations.source_ids;
        })
        c

  -- `open_orphans.discard`, and the resolution to persist.
  unfoldable pub note_reappeared : EntityType → ℕ → Cycle → Cycle
  note_reappeared t neutral_id c =
      if contains c.open_orphans neutral_id
      then record c {
        open_orphans = filter (λ n. not (n == neutral_id)) c.open_orphans;
        mutations = record c.mutations {
          resolved_orphans =
              c.mutations.resolved_orphans
              ++ (record { neutral_id = neutral_id; endpoint = s.source_name; entity_type = t }
                  ∷ []);
        };
      }
      else c

  abbrev pub sync_with :
      ChangeRef → EntityType → ℕ → NeutralEntity → Option IdentityRef → Sync RecordReport
  sync_with change t neutral_id entity none = create_or_skip change t neutral_id entity
  sync_with change t neutral_id entity (some ref) =
      update_bound change t neutral_id ref entity.field_envelopes

  abbrev pub sync_if :
      ChangeRef
      → EntityType
      → ℕ
      → NeutralEntity
      → Option IdentityRef
      → Envelopes
      → Sync RecordReport
  sync_if change t neutral_id entity ref [] =
      pure (skip change t neutral_id no_source_envelopes none)
  sync_if change t neutral_id entity ref (_ ∷ _) = sync_with change t neutral_id entity ref

  abbrev pub noted_cycle : ChangeRef → EntityType → Option ℕ → ℕ → Cycle → Cycle
  noted_cycle change t known neutral_id c =
      note_reappeared t neutral_id (note_source change known neutral_id c)

  unfoldable pub sync_entity :
      ChangeRef → EntityType → Option ℕ → ℕ → NeutralEntity → Sync RecordReport
  sync_entity change t known neutral_id entity c =
      let noted = noted_cycle change t known neutral_id c in
      sync_if change t neutral_id entity (target_ref s neutral_id t noted) entity.field_envelopes
        noted

  abbrev pub after_read :
      ChangeRef
      → EntityType
      → Option ℕ
      → ℕ
      → Result Raised NeutralEntity × Cycle
      → Result Raised RecordReport × Cycle
  after_read change t known neutral_id (ok entity, c) =
      sync_entity change t known neutral_id entity c
  after_read change t known neutral_id (err (connector_error not_found), c) =
      record_gone casefold s e change t known c
  after_read change t known neutral_id (err x, c) = (err x, c)

  abbrev pub id_for : Option ℕ → Sync ℕ
  id_for none = new_id s e
  id_for (some known) = pure known

  abbrev pub read_source : ChangeRef → EntityType → Option ℕ → ℕ → Sync RecordReport
  read_source change t known neutral_id c =
      after_read change t known neutral_id (call_read s e source change.ref c)

  abbrev pub process_known : ChangeRef → EntityType → Option ℕ → Sync RecordReport
  process_known change t known =
      if is_delete change
      then record_gone casefold s e change t known
      else (id_for known >>= read_source change t known)

  unfoldable pub process_selected : ChangeRef → EntityType → Sync RecordReport
  process_selected change t = source_neutral_id s change.ref >>= process_known change t

  abbrev pub process_if : ChangeRef → EntityType → Bool → Sync RecordReport
  process_if change t selected =
      if selected then process_selected change t else pure (filtered_report change t)

  unfoldable pub process : ChangeRef → EntityType → Sync RecordReport
  process change t = is_selected casefold s e change t >>= process_if change t

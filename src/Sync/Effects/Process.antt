-- ===== src/Sync/Effects/Process.antt =====
-- The effects of `_create_or_skip`, `_process` and the pages, by those of their parts.
use qlabs_catalog_sync.Prelude.{
  ℕ, ◌≡◌, refl, Bool, true, false, List, [], ◌∷◌, String, Option, none, some, Result, ok, err,
  arith, nat_eq,
}
use qlabs_catalog_sync.Models.{EntityType, IdentityRef, Envelopes}
use qlabs_catalog_sync.Changes.{
  ChangeRef, is_delete, auth_error, transient_error, not_found, conflict_error, capability_error,
  other_error, NeutralEntity, WriteResult,
}
use qlabs_catalog_sync.Sync.Settings.{
  Settings, Endpoints, source, create, WithheldField, RecordReport,
}
use qlabs_catalog_sync.Sync.Cycle.{
  Cycle, Raised, connector_error, cycle_aborted, store_error, diff_error, tree_error, ◌>>=◌,
}
use qlabs_catalog_sync.Sync.Calls.{now, call_create}
use qlabs_catalog_sync.Sync.Keeps.{Keeps, bind-Keeps, call_with-Keeps}
use qlabs_catalog_sync.Sync.Pending.{source_neutral_id, transact, has_unconfirmed_binding}
use qlabs_catalog_sync.Sync.Records.{is_selected, target_can_create}
use qlabs_catalog_sync.Sync.Process.{
  prepare, anchors, anchor_created_object, queue_created, record_created, note_created,
  after_create, create_checked, create_or_skip, note_source, note_reappeared, sync_with, sync_if,
  noted_cycle, sync_entity, after_read, id_for, read_source, process_known, process_selected,
  process_if, process,
}
use qlabs_catalog_sync.Sync.Effects.{
  Steps, now-Keeps, new_id-Keeps, read-Keeps, is_selected-Keeps, source_neutral_id-Keeps,
  capability_skip-Keeps, record_gone-Keeps,
}
use qlabs_catalog_sync.Sync.Effects.Record.{if-Keeps, update_bound-Keeps}

module _ (R : Cycle → Cycle → Type 0) (casefold : String → String) (s : Settings) (e : Endpoints)
    (steps : Steps R s e) where
  anchor-Keeps :
      s.dry_run ≡ false
      → (n : ℕ) (source_ref created_ref : IdentityRef)
      → Keeps R (anchor_created_object casefold s e n source_ref created_ref)
  unfolding anchor_created_object
  anchor-Keeps wet n source_ref created_ref =
      bind-Keeps R steps.order (now s e) (λ at. transact (anchors n source_ref created_ref at))
        (now-Keeps R casefold s e steps) (λ at. steps.binds wet n source_ref created_ref at)

  record_created-Keeps :
      s.dry_run ≡ false
      → (change : ChangeRef) (t : EntityType) (n : ℕ) (a : Envelopes) (persisted : List String)
        (result : WriteResult) (report : RecordReport)
      → Keeps R (record_created casefold s e change t n a persisted result report)
  unfolding record_created
  record_created-Keeps wet change t n a persisted result report c =
      steps.order.join c (note_created casefold s e n result.ref c) _ (steps.notes c _ refl refl) (
        bind-Keeps R steps.order (anchor_created_object casefold s e n change.ref result.ref)
          (λ _. now s e >>= queue_created casefold s e t n a persisted result report)
          (anchor-Keeps wet n change.ref result.ref)
          (λ _.
            bind-Keeps R steps.order (now s e)
              (queue_created casefold s e t n a persisted result report)
              (now-Keeps R casefold s e steps) λ at c1. steps.notes c1 _ refl refl)
          (note_created casefold s e n result.ref c))

  after_create-Keeps :
      s.dry_run ≡ false
      → (change : ChangeRef) (t : EntityType) (n : ℕ) (a : Envelopes) (held : List WithheldField)
        (c : Cycle) (out : Result Raised WriteResult × Cycle)
      → R c out.1
      → R c (after_create casefold s e change t n a held out).1
  unfolding after_create
  after_create-Keeps wet change t n a held c (ok result, c1) h =
      steps.order.join c c1 _ h (record_created-Keeps wet change t n a _ result _ c1)
  after_create-Keeps wet change t n a held c (err (connector_error capability_error), c1) h =
      steps.order.join c c1 _ h (capability_skip-Keeps R casefold s e steps change t n _ c1)
  after_create-Keeps wet change t n a held c (err (connector_error not_found), c1) h = h
  after_create-Keeps wet change t n a held c (err (connector_error conflict_error), c1) h = h
  after_create-Keeps wet change t n a held c (err (connector_error auth_error), c1) h = h
  after_create-Keeps wet change t n a held c (err (connector_error (transient_error hint)), c1) h =
      h
  after_create-Keeps wet change t n a held c (err (connector_error other_error), c1) h = h
  after_create-Keeps wet change t n a held c (err (cycle_aborted endpoint), c1) h = h
  after_create-Keeps wet change t n a held c (err (store_error y), c1) h = h
  after_create-Keeps wet change t n a held c (err (diff_error y), c1) h = h
  after_create-Keeps wet change t n a held c (err (tree_error y), c1) h = h

  create-Keeps : s.dry_run ≡ false → (entity : NeutralEntity) → Keeps R (call_create s e entity)
  unfolding call_create
  create-Keeps wet entity =
      call_with-Keeps R steps.order _ (create entity) (λ h. e.on_create h entity) _
        (steps.writes wet _)

  create_checked-Keeps :
      (change : ChangeRef) (t : EntityType) (n : ℕ) (entity : NeutralEntity)
      (unconfirmed missing creatable dry : Bool)
      → s.dry_run ≡ dry
      → Keeps R (create_checked casefold s e change t n entity unconfirmed missing creatable dry)
  create_checked-Keeps change t n entity true missing creatable dry same c = steps.order.same c
  create_checked-Keeps change t n entity false false creatable dry same c = steps.order.same c
  create_checked-Keeps change t n entity false true false dry same c =
      capability_skip-Keeps R casefold s e steps change t n none c
  create_checked-Keeps change t n entity false true true true same c = steps.order.same c
  create_checked-Keeps change t n entity false true true false wet c =
      after_create-Keeps wet change t n entity.field_envelopes (prepare s n entity).1 c
        (call_create s e (prepare s n entity).0 c) (create-Keeps wet (prepare s n entity).0 c)

  create_or_skip-Keeps :
      (change : ChangeRef) (t : EntityType) (n : ℕ) (entity : NeutralEntity)
      → Keeps R (create_or_skip casefold s e change t n entity)
  unfolding create_or_skip
  create_or_skip-Keeps change t n entity c =
      create_checked-Keeps change t n entity (has_unconfirmed_binding s n t c) s.create_missing
        (target_can_create s.target_manifest t) s.dry_run refl c

  sync_with-Keeps :
      (change : ChangeRef) (t : EntityType) (n : ℕ) (entity : NeutralEntity)
      (o : Option IdentityRef)
      → Keeps R (sync_with casefold s e change t n entity o)
  sync_with-Keeps change t n entity none = create_or_skip-Keeps change t n entity
  sync_with-Keeps change t n entity (some ref) =
      update_bound-Keeps R casefold s e steps change t n ref entity.field_envelopes

  sync_if-Keeps :
      (change : ChangeRef) (t : EntityType) (n : ℕ) (entity : NeutralEntity)
      (o : Option IdentityRef) (envelopes : Envelopes)
      → Keeps R (sync_if casefold s e change t n entity o envelopes)
  sync_if-Keeps change t n entity o [] c = steps.order.same c
  sync_if-Keeps change t n entity o (_ ∷ _) c = sync_with-Keeps change t n entity o c

  noted-Keeps :
      (change : ChangeRef) (t : EntityType) (known : Option ℕ) (n : ℕ) (c : Cycle)
      → R c (noted_cycle casefold s e change t known n c)
  unfolding note_reappeared
  noted-Keeps change t known n c =
      steps.order.join c (note_source casefold s e change known n c) _ (source-Keeps known)
        (reappeared-Keeps (note_source casefold s e change known n c))
    where
      source-Keeps : (known : Option ℕ) → R c (note_source casefold s e change known n c)
      source-Keeps (some k) = steps.order.same c
      source-Keeps none = steps.notes c _ refl refl

      reappeared-Keeps : (c1 : Cycle) → R c1 (note_reappeared casefold s e t n c1)
      reappeared-Keeps c1 = steps.notes c1 _ (ground arith) (ground arith)

  sync_entity-Keeps :
      (change : ChangeRef) (t : EntityType) (known : Option ℕ) (n : ℕ) (entity : NeutralEntity)
      → Keeps R (sync_entity casefold s e change t known n entity)
  unfolding sync_entity
  sync_entity-Keeps change t known n entity c =
      steps.order.join c (noted_cycle casefold s e change t known n c) _
        (noted-Keeps change t known n c)
        (sync_if-Keeps change t n entity _ entity.field_envelopes _)

  after_read-Keeps :
      (change : ChangeRef) (t : EntityType) (known : Option ℕ) (n : ℕ) (c : Cycle)
      (out : Result Raised NeutralEntity × Cycle)
      → R c out.1
      → R c (after_read casefold s e change t known n out).1
  after_read-Keeps change t known n c (ok entity, c1) h =
      steps.order.join c c1 _ h (sync_entity-Keeps change t known n entity c1)
  after_read-Keeps change t known n c (err (connector_error not_found), c1) h =
      steps.order.join c c1 _ h (record_gone-Keeps R casefold s e steps change t known c1)
  after_read-Keeps change t known n c (err (connector_error capability_error), c1) h = h
  after_read-Keeps change t known n c (err (connector_error conflict_error), c1) h = h
  after_read-Keeps change t known n c (err (connector_error auth_error), c1) h = h
  after_read-Keeps change t known n c (err (connector_error (transient_error hint)), c1) h = h
  after_read-Keeps change t known n c (err (connector_error other_error), c1) h = h
  after_read-Keeps change t known n c (err (cycle_aborted endpoint), c1) h = h
  after_read-Keeps change t known n c (err (store_error y), c1) h = h
  after_read-Keeps change t known n c (err (diff_error y), c1) h = h
  after_read-Keeps change t known n c (err (tree_error y), c1) h = h

  id_for-Keeps : (known : Option ℕ) → Keeps R (id_for casefold s e known)
  id_for-Keeps none c = new_id-Keeps R casefold s e steps c
  id_for-Keeps (some n) c = steps.order.same c

  process_known-Keeps :
      (change : ChangeRef) (t : EntityType) (known : Option ℕ)
      → Keeps R (process_known casefold s e change t known)
  process_known-Keeps change t known =
      if-Keeps R casefold s e steps (is_delete change) _ _
        (λ _. record_gone-Keeps R casefold s e steps change t known)
        λ _.
          bind-Keeps R steps.order (id_for casefold s e known)
            (read_source casefold s e change t known) (id_for-Keeps known)
            λ n c.
              after_read-Keeps change t known n c _
                (read-Keeps R casefold s e steps source change.ref c)

  process_if-Keeps :
      (change : ChangeRef) (t : EntityType) (b : Bool)
      → Keeps R (process_if casefold s e change t b)
  unfolding process_selected
  process_if-Keeps change t true =
      bind-Keeps R steps.order (source_neutral_id s change.ref)
        (process_known casefold s e change t)
        (source_neutral_id-Keeps R casefold s e steps change.ref) (process_known-Keeps change t)
  process_if-Keeps change t false = steps.order.same

  pub process-Keeps :
      (change : ChangeRef) (t : EntityType) → Keeps R (process casefold s e change t)
  unfolding process
  process-Keeps change t =
      bind-Keeps R steps.order (is_selected casefold s e change t)
        (process_if casefold s e change t) (is_selected-Keeps R casefold s e steps change t)
        (process_if-Keeps change t)

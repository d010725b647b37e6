-- ===== src/Sync/Effects.antt =====
-- What one change of a listing may do to the store and the endpoints, for every relation of cycles
-- that holds of the steps it is made of.
pub mod Record
pub mod Process
pub mod Pages
use qlabs_catalog_sync.Prelude.{
  ℕ, zero, suc, ◌≡◌, refl, sym, ap, ◌∙◌, subst, Bool, true, false, not, ◌&&◌, if◌then◌else◌, List,
  [], ◌∷◌, ◌++◌, String, Option, none, some, Result, ok, err, Bool-cases, ◌⊎◌, inl, inr, arith,
  contains, nat_eq,
}
use qlabs_catalog_sync.Prelude.Dict.{lookup}
use qlabs_catalog_sync.Models.{
  EntityType, data_product, dataset, glossary_term, category, IdentityRef, Envelopes, FieldChange,
  FieldDiff,
}
use qlabs_catalog_sync.Diff.{
  DiffError, unsupported_entity, uncanonical, missing_envelope, duplicate_field, DiffPlan,
  changes_of,
}
use qlabs_catalog_sync.Changes.{
  ChangeRef, is_delete, ConnectorError, auth_error, transient_error, not_found, conflict_error,
  capability_error, other_error, NeutralEntity, WriteResult, Watermark,
}
use qlabs_catalog_sync.Envelope.{CanonicalizationError}
use qlabs_catalog_sync.SourceTree.{TreeError}
use qlabs_catalog_sync.State.UnitOfWork.{StoreError}
use qlabs_catalog_sync.Sync.Settings.{
  Settings, Endpoints, Side, source, target, Call, healthcheck, list_changed, read, update, create,
  WithheldField, RecordReport, ManualEditPolicy,
}
use qlabs_catalog_sync.Sync.Cycle.{
  Cycle, Sync, Raised, connector_error, cycle_aborted, store_error, diff_error, tree_error, ◌>>=◌,
  pure, throw, catch, continue, raise_store, raise_tree,
}
use qlabs_catalog_sync.Sync.Calls.{now, new_id, call_read, call_update, call_create, attempt}
use qlabs_catalog_sync.Sync.Keeps.{
  IsPreorder, Keeps, bind-Keeps, continue-Keeps, catch-Keeps, call_with-Keeps,
}
use qlabs_catalog_sync.Sync.Pending.{
  pending_or, source_neutral_id, transact, has_unconfirmed_binding, target_ref,
  stored_target_envelopes,
}
use qlabs_catalog_sync.Sync.Writes.{
  raise_diff, plan_diff, withhold, withhold_by, policy_withhold, review_live, reviewed,
  raise_edited, preserve_candidates, wrote, write_again, rewrite, replan_with, retry_update,
  on_conflict, apply_update, effective_diff, edited_fields,
}
use qlabs_catalog_sync.Sync.Records.{
  capability_skip, is_selected, record_gone, record_orphaned, update_failed, queue_written,
  write_update, update_if, update_effective, plan_failed, update_held, update_changed,
  update_planned, target_can_create,
}
use qlabs_catalog_sync.Sync.Process.{
  prepare, planned, update_bound, anchors, anchor_created_object, queue_created, record_created,
  note_created, after_create, create_or_skip, note_source, note_reappeared, sync_with, sync_if,
  noted_cycle, sync_entity, after_read, id_for, read_source, process_known, process_selected,
  process_if, process,
}

-- The calls that a dry run may make as well.
abbrev pub IsRead : Call → Type 0
IsRead (healthcheck side) = Unit
IsRead (list_changed t since) = Unit
IsRead (read side ref) = Unit
IsRead (update ref d) = ⊥
IsRead (create entity) = ⊥

-- The steps that the relation has to hold of: a change of the cycle's own notes, a read, and,
-- where the cycle is no dry run, a write at the target and the binding of what it created.
pub record Steps (R : Cycle → Cycle → Type 0) (s : Settings) (e : Endpoints) : Type 0 where
  pub order : IsPreorder R
  pub notes : (c c' : Cycle) → c'.history ≡ c.history → c'.db ≡ c.db → R c c'
  pub reads :
      (call : Call) → IsRead call → (c : Cycle) → R c (record c { history = call ∷ c.history })
  pub writes :
      s.dry_run ≡ false → (call : Call) (c : Cycle) → R c (record c { history = call ∷ c.history })
  pub binds :
      s.dry_run ≡ false
      → (n : ℕ) (source_ref created_ref : IdentityRef) (at : ℕ)
      → Keeps R (transact (anchors n source_ref created_ref at))

module _ (R : Cycle → Cycle → Type 0) (casefold : String → String) (s : Settings) (e : Endpoints)
    (steps : Steps R s e) where
  raise_diff-Keeps : {A : Type 0} (r : Result DiffError A) → Keeps R (raise_diff r)
  raise_diff-Keeps (ok a) c = steps.order.same c
  raise_diff-Keeps (err unsupported_entity) c = steps.order.same c
  raise_diff-Keeps (err (uncanonical x)) c = steps.order.same c
  raise_diff-Keeps (err (missing_envelope f)) c = steps.order.same c
  raise_diff-Keeps (err (duplicate_field f)) c = steps.order.same c

  raise_tree-Keeps : {A : Type 0} (r : Result TreeError A) → Keeps R (raise_tree r)
  raise_tree-Keeps (ok a) c = steps.order.same c
  raise_tree-Keeps (err x) c = steps.order.same c

  raise_store-Keeps : {A : Type 0} (r : Result StoreError A) → Keeps R (raise_store r)
  raise_store-Keeps (ok a) c = steps.order.same c
  raise_store-Keeps (err x) c = steps.order.same c

  now-Keeps : Keeps R (now s e)
  unfolding now
  now-Keeps c = steps.notes c _ refl refl

  new_id-Keeps : Keeps R (new_id s e)
  unfolding new_id
  new_id-Keeps c = steps.notes c _ refl refl

  read-Keeps : (side : Side) (ref : IdentityRef) → Keeps R (call_read s e side ref)
  unfolding call_read
  read-Keeps side ref =
      call_with-Keeps R steps.order _ (read side ref) (λ h. e.on_read h side ref) _
        (steps.reads _ tt)

  is_selected-Keeps :
      (change : ChangeRef) (t : EntityType) → Keeps R (is_selected casefold s e change t)
  unfolding is_selected
  is_selected-Keeps change data_product c =
      continue-Keeps R steps.order _ c _ (raise_tree-Keeps _ c) λ a c. steps.order.same c
  is_selected-Keeps change dataset c =
      continue-Keeps R steps.order _ c _ (raise_tree-Keeps _ c) λ a c. steps.order.same c
  is_selected-Keeps change glossary_term c = steps.order.same c
  is_selected-Keeps change category c = steps.order.same c

  pending_or-Keeps : (ref : IdentityRef) (o : Option ℕ) → Keeps R (pending_or s ref o)
  pending_or-Keeps ref (some n) c = steps.order.same c
  pending_or-Keeps ref none c =
      continue-Keeps R steps.order _ c _ (raise_store-Keeps _ c) λ a c. steps.order.same c

  source_neutral_id-Keeps : (ref : IdentityRef) → Keeps R (source_neutral_id s ref)
  unfolding source_neutral_id
  source_neutral_id-Keeps ref c = pending_or-Keeps ref _ c

  capability_skip-Keeps :
      (change : ChangeRef) (t : EntityType) (n : ℕ) (key : Option String)
      → Keeps R (capability_skip change t n key)
  unfolding capability_skip
  capability_skip-Keeps change t n key c = steps.notes c _ refl refl

  record_gone-Keeps :
      (change : ChangeRef) (t : EntityType) (o : Option ℕ)
      → Keeps R (record_gone casefold s e change t o)
  unfolding record_gone
  record_gone-Keeps change t none c = steps.order.same c
  record_gone-Keeps change t (some n) c =
      bind-Keeps R steps.order (now s e) (record_orphaned casefold s e change t n) now-Keeps
        (λ at c1. steps.notes c1 _ refl refl) c

  -- The policy's read of the live object.
  reviewed-Keeps :
      (names : List String) (stored : Envelopes) (c : Cycle)
      (out : Result ConnectorError NeutralEntity × Cycle)
      → R c out.1
      → R c (reviewed s e names stored out).1
  reviewed-Keeps names stored c (err x, c1) h = h
  reviewed-Keeps names stored c (ok live, c1) h =
      steps.order.join c c1 _ h
        (raise_edited-Keeps (edited_fields names live.field_envelopes stored) c1)
    where
      raise_edited-Keeps :
          (r : Result CanonicalizationError (List String)) → Keeps R (raise_edited s e r)
      raise_edited-Keeps (ok fields) c = steps.order.same c
      raise_edited-Keeps (err x) c = steps.order.same c

  review_live-Keeps :
      (ref : IdentityRef) (stored : Envelopes) (names : List String)
      → Keeps R (review_live s e ref stored names)
  review_live-Keeps ref stored [] c = steps.order.same c
  review_live-Keeps ref stored (name ∷ names) c =
      reviewed-Keeps (name ∷ names) stored c
        (attempt (read target ref) (λ h. e.on_read h target ref) c)
        (steps.reads (read target ref) tt c)

  withhold_by-Keeps :
      (policy : Option ManualEditPolicy) (t : EntityType) (ref : IdentityRef) (plan : DiffPlan)
      (stored : Envelopes)
      → Keeps R (withhold_by s e policy t ref plan stored)
  unfolding policy_withhold
  withhold_by-Keeps none t ref plan stored c = steps.order.same c
  withhold_by-Keeps (some p) t ref plan stored c =
      continue-Keeps R steps.order _ c _
        (review_live-Keeps ref stored (preserve_candidates p t (changes_of plan) stored) c)
        λ a c. steps.order.same c

  update-Keeps :
      s.dry_run ≡ false → (ref : IdentityRef) (d : FieldDiff) → Keeps R (call_update s e ref d)
  unfolding call_update
  update-Keeps wet ref d =
      call_with-Keeps R steps.order _ (update ref d) (λ h. e.on_update h ref d) _
        (steps.writes wet _)

  wrote-Keeps : s.dry_run ≡ false → (ref : IdentityRef) (d : FieldDiff) → Keeps R (wrote s e ref d)
  unfolding wrote
  wrote-Keeps wet ref d c =
      continue-Keeps R steps.order _ c _ (update-Keeps wet ref d c) λ a c. steps.order.same c

  write_again-Keeps :
      s.dry_run ≡ false
      → (ref : IdentityRef) (replan : DiffPlan) (d : FieldDiff) (changes : List FieldChange)
      → Keeps R (write_again s e ref replan d changes)
  write_again-Keeps wet ref replan d [] c = steps.order.same c
  write_again-Keeps wet ref replan d (_ ∷ _) c = wrote-Keeps wet ref d c

  rewrite-Keeps :
      s.dry_run ≡ false
      → (ref : IdentityRef) (held : List WithheldField) (replan : DiffPlan)
      → Keeps R (rewrite s e ref held replan)
  rewrite-Keeps wet ref held replan c =
      continue-Keeps R steps.order _ c _ (raise_diff-Keeps _ c)
        λ d. write_again-Keeps wet ref replan d d.changes

  plan_diff-Keeps : (t : EntityType) (a b : Envelopes) → Keeps R (plan_diff s e t a b)
  unfolding plan_diff
  plan_diff-Keeps t a b = raise_diff-Keeps _

  replan-Keeps :
      s.dry_run ≡ false
      → (ref : IdentityRef) (t : EntityType) (a : Envelopes) (held : List WithheldField)
        (fresh : NeutralEntity)
      → Keeps R (replan_with s e ref t a held fresh)
  replan-Keeps wet ref t a held fresh =
      bind-Keeps R steps.order (plan_diff s e t a fresh.field_envelopes) (rewrite s e ref held)
        (plan_diff-Keeps t a fresh.field_envelopes) (rewrite-Keeps wet ref held)

  retry_update-Keeps :
      s.dry_run ≡ false
      → (ref : IdentityRef) (t : EntityType) (a : Envelopes) (held : List WithheldField)
      → Keeps R (retry_update s e ref t a held)
  unfolding retry_update
  retry_update-Keeps wet ref t a held =
      bind-Keeps R steps.order (call_read s e target ref) (replan_with s e ref t a held)
        (read-Keeps target ref) (replan-Keeps wet ref t a held)

  on_conflict-Keeps :
      {A : Type 0} (again : Sync A) (x : Raised) → Keeps R again → Keeps R (on_conflict s e again x)
  on_conflict-Keeps again (connector_error conflict_error) k = k
  on_conflict-Keeps again (connector_error auth_error) k = steps.order.same
  on_conflict-Keeps again (connector_error (transient_error hint)) k = steps.order.same
  on_conflict-Keeps again (connector_error not_found) k = steps.order.same
  on_conflict-Keeps again (connector_error capability_error) k = steps.order.same
  on_conflict-Keeps again (connector_error other_error) k = steps.order.same
  on_conflict-Keeps again (cycle_aborted endpoint) k = steps.order.same
  on_conflict-Keeps again (store_error y) k = steps.order.same
  on_conflict-Keeps again (diff_error y) k = steps.order.same
  on_conflict-Keeps again (tree_error y) k = steps.order.same

  apply_update-Keeps :
      s.dry_run ≡ false
      → (ref : IdentityRef) (d : FieldDiff) (t : EntityType) (a : Envelopes)
        (held : List WithheldField)
      → Keeps R (apply_update s e ref d t a held)
  unfolding apply_update
  apply_update-Keeps wet ref d t a held =
      catch-Keeps R steps.order (wrote s e ref d) (on_conflict s e (retry_update s e ref t a held))
        (wrote-Keeps wet ref d)
        (λ x.
          on_conflict-Keeps (retry_update s e ref t a held) x (retry_update-Keeps wet ref t a held))

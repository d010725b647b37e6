-- ===== src/Sync/Withheld.antt =====
-- No update carries a field that was withheld, the second try after a conflict included.
use qlabs_catalog_sync.Prelude.{
  ◌≡◌, refl, subst, false, List, [], ◌∷◌, All, filter, contains, Result, ok, err, arith, string_eq,
}
use qlabs_catalog_sync.Models.{EntityType, IdentityRef, Envelopes, FieldChange, FieldDiff}
use qlabs_catalog_sync.Diff.{
  DiffError, unsupported_entity, uncanonical, missing_envelope, duplicate_field, DiffPlan,
  changes_of, make_diff,
}
use qlabs_catalog_sync.Changes.{
  auth_error, transient_error, not_found, conflict_error, capability_error, other_error,
  NeutralEntity,
}
use qlabs_catalog_sync.Sync.Settings.{
  Settings, Endpoints, target, Call, healthcheck, list_changed, read, update, create, WithheldField,
}
use qlabs_catalog_sync.Sync.Cycle.{
  Cycle, Sync, Raised, connector_error, cycle_aborted, store_error, diff_error, tree_error, ◌>>=◌,
  pure,
}
use qlabs_catalog_sync.Sync.Calls.{call_update, call_read}
use qlabs_catalog_sync.Sync.Keeps.{IsPreorder, Keeps, bind-Keeps, catch-Keeps, call_with-Keeps}
use qlabs_catalog_sync.Sync.Writes.{
  wrote, rewrite, replan_with, write_again, on_conflict, plan_diff, raise_diff, effective_diff,
  is_free, held_names, apply_update, retry_update,
}

-- Every change is of a field that is not withheld.
abbrev pub IsClean : List WithheldField → FieldDiff → Type 0
IsClean held d = All (λ c. contains (held_names held) c.field ≡ false) d.changes

filter-clean :
    (held : List WithheldField) (changes : List FieldChange)
    → All (λ c. contains (held_names held) c.field ≡ false) (filter (is_free held) changes)
filter-clean held [] = tt
filter-clean held (c ∷ changes) = ground (arith, filter-clean held changes)

make_diff-same : (d d' : FieldDiff) → make_diff d ≡ ok d' → d ≡ d'
unfolding make_diff
make_diff-same d d' h = ground arith

effective_diff-IsClean :
    (plan : DiffPlan) (held : List WithheldField) (d : FieldDiff)
    → effective_diff plan held ≡ ok d
    → IsClean held d
unfolding effective_diff
effective_diff-IsClean plan held d h =
    subst (IsClean held) (make_diff-same _ d h) (filter-clean held (changes_of plan))

abbrev pub CleanCall : List WithheldField → Call → Type 0
CleanCall held (update ref d) = IsClean held d
CleanCall held (create entity) = Unit
CleanCall held (read side ref) = Unit
CleanCall held (healthcheck side) = Unit
CleanCall held (list_changed t since) = Unit

-- The calls that were added to the history are clean.
StaysClean : List WithheldField → Cycle → Cycle → Type 0
StaysClean held c c' = All (CleanCall held) c.history → All (CleanCall held) c'.history

clean-order : (held : List WithheldField) → IsPreorder (StaysClean held)
unfolding StaysClean
clean-order held = record { same = λ c h. h; join = λ a b c f g h. g (f h) }

read_clean :
    (held : List WithheldField) (c : Cycle) (ref : IdentityRef)
    → StaysClean held c (record c { history = read target ref ∷ c.history })
unfolding StaysClean
read_clean held c ref h = (tt, h)

module _ (s : Settings) (e : Endpoints) (held : List WithheldField) where
  update-Keeps :
      (ref : IdentityRef) (d : FieldDiff)
      → IsClean held d
      → Keeps (StaysClean held) (call_update s e ref d)
  unfolding call_update StaysClean
  update-Keeps ref d clean =
      call_with-Keeps (StaysClean held) (clean-order held) _ (update ref d) _ _ (λ c h. (clean, h))

  wrote-Keeps :
      (ref : IdentityRef) (d : FieldDiff)
      → IsClean held d
      → Keeps (StaysClean held) (wrote s e ref d)
  unfolding StaysClean wrote
  wrote-Keeps ref d clean =
      bind-Keeps (StaysClean held) (clean-order held) _ (λ result. pure (result, d))
        (update-Keeps ref d clean) (λ result c h. h)

  write_again-Keeps :
      (ref : IdentityRef) (replan : DiffPlan) (d : FieldDiff) (changes : List FieldChange)
      → IsClean held d
      → Keeps (StaysClean held) (write_again s e ref replan d changes)
  unfolding StaysClean
  write_again-Keeps ref replan d [] clean c h = h
  write_again-Keeps ref replan d (_ ∷ _) clean c h = wrote-Keeps ref d clean c h

  -- The plan is known to be clean where it is used, since only a clean one is answered.
  effective-Keeps :
      (ref : IdentityRef) (replan : DiffPlan) (r : Result DiffError FieldDiff)
      → effective_diff replan held ≡ r
      → Keeps
          (StaysClean held)
          (raise_diff r >>= λ diff. write_again s e ref replan diff diff.changes)
  unfolding StaysClean
  effective-Keeps ref replan (ok d) found c h =
      write_again-Keeps ref replan d d.changes (effective_diff-IsClean replan held d found) c h
  effective-Keeps ref replan (err unsupported_entity) found c h = h
  effective-Keeps ref replan (err (uncanonical x)) found c h = h
  effective-Keeps ref replan (err (missing_envelope f)) found c h = h
  effective-Keeps ref replan (err (duplicate_field f)) found c h = h

  raise_diff-Keeps : {A : Type 0} (r : Result DiffError A) → Keeps (StaysClean held) (raise_diff r)
  unfolding StaysClean
  raise_diff-Keeps (ok a) c h = h
  raise_diff-Keeps (err unsupported_entity) c h = h
  raise_diff-Keeps (err (uncanonical x)) c h = h
  raise_diff-Keeps (err (missing_envelope f)) c h = h
  raise_diff-Keeps (err (duplicate_field f)) c h = h

  plan-Keeps :
      (t : EntityType) (source_envelopes target_envelopes : Envelopes)
      → Keeps (StaysClean held) (plan_diff s e t source_envelopes target_envelopes)
  unfolding plan_diff
  plan-Keeps t source_envelopes target_envelopes = raise_diff-Keeps _

  rewrite-Keeps :
      (ref : IdentityRef) (replan : DiffPlan)
      → Keeps (StaysClean held) (rewrite s e ref held replan)
  rewrite-Keeps ref replan = effective-Keeps ref replan _ refl

  replan-Keeps :
      (ref : IdentityRef) (t : EntityType) (source_envelopes : Envelopes) (fresh : NeutralEntity)
      → Keeps (StaysClean held) (replan_with s e ref t source_envelopes held fresh)
  replan-Keeps ref t source_envelopes fresh =
      bind-Keeps (StaysClean held) (clean-order held)
        (plan_diff s e t source_envelopes fresh.field_envelopes) (rewrite s e ref held)
        (plan-Keeps t source_envelopes fresh.field_envelopes) (rewrite-Keeps ref)

  read-Keeps : (ref : IdentityRef) → Keeps (StaysClean held) (call_read s e target ref)
  unfolding call_read
  read-Keeps ref =
      call_with-Keeps (StaysClean held) (clean-order held) _ (read target ref)
        (λ h. e.on_read h target ref) _ (λ c. read_clean held c ref)

  retry-Keeps :
      (ref : IdentityRef) (t : EntityType) (source_envelopes : Envelopes)
      → Keeps (StaysClean held) (retry_update s e ref t source_envelopes held)
  unfolding retry_update
  retry-Keeps ref t source_envelopes =
      bind-Keeps (StaysClean held) (clean-order held) (call_read s e target ref)
        (replan_with s e ref t source_envelopes held) (read-Keeps ref)
        (replan-Keeps ref t source_envelopes)

  on_conflict-Keeps :
      {A : Type 0} (again : Sync A) (x : Raised)
      → Keeps (StaysClean held) again
      → Keeps (StaysClean held) (on_conflict s e again x)
  unfolding StaysClean
  on_conflict-Keeps again (connector_error conflict_error) k = k
  on_conflict-Keeps again (connector_error auth_error) k = λ c h. h
  on_conflict-Keeps again (connector_error (transient_error hint)) k = λ c h. h
  on_conflict-Keeps again (connector_error not_found) k = λ c h. h
  on_conflict-Keeps again (connector_error capability_error) k = λ c h. h
  on_conflict-Keeps again (connector_error other_error) k = λ c h. h
  on_conflict-Keeps again (cycle_aborted endpoint) k = λ c h. h
  on_conflict-Keeps again (store_error y) k = λ c h. h
  on_conflict-Keeps again (diff_error y) k = λ c h. h
  on_conflict-Keeps again (tree_error y) k = λ c h. h

  -- Whatever the endpoints answer, every update that `_apply_update` sends for a plan, the first
  -- and, after a conflict, the one for the plan against the fresh object, carries no field that
  -- was withheld from the first plan: if no update before it did, none after it does.
  pub apply_update-IsClean :
      (ref : IdentityRef) (plan : DiffPlan) (d : FieldDiff) (t : EntityType)
      (source_envelopes : Envelopes) (c : Cycle)
      → effective_diff plan held ≡ ok d
      → All (CleanCall held) c.history
      → All (CleanCall held) (apply_update s e ref d t source_envelopes held c).1.history
  unfolding apply_update StaysClean
  apply_update-IsClean ref plan d t source_envelopes c found before =
      catch-Keeps (StaysClean held) (clean-order held) (wrote s e ref d)
        (on_conflict s e (retry_update s e ref t source_envelopes held))
        (wrote-Keeps ref d (effective_diff-IsClean plan held d found))
        (λ x.
          on_conflict-Keeps (retry_update s e ref t source_envelopes held) x
            (retry-Keeps ref t source_envelopes))
        c before

-- ===== src/Sync/Effects/Record.antt =====
-- The effects of `_update`, `_create_or_skip` and `_process`, by those of their parts.
use qlabs_catalog_sync.Prelude.{
  ℕ, ◌≡◌, refl, Bool, true, false, if◌then◌else◌, List, [], ◌∷◌, String, Result, ok, err, nat_eq,
}
use qlabs_catalog_sync.Models.{EntityType, IdentityRef, Envelopes, FieldChange, FieldDiff}
use qlabs_catalog_sync.Diff.{DiffPlan, changes_of}
use qlabs_catalog_sync.Changes.{
  ChangeRef, auth_error, transient_error, not_found, conflict_error, capability_error, other_error,
}
use qlabs_catalog_sync.Sync.Settings.{Settings, Endpoints, WithheldField, RecordReport}
use qlabs_catalog_sync.Sync.Cycle.{
  Cycle, Sync, Raised, connector_error, cycle_aborted, store_error, diff_error, tree_error, ◌>>=◌,
}
use qlabs_catalog_sync.Sync.Calls.{now}
use qlabs_catalog_sync.Sync.Keeps.{Keeps, bind-Keeps, continue-Keeps, catch-Keeps}
use qlabs_catalog_sync.Sync.Writes.{withhold, apply_update}
use qlabs_catalog_sync.Sync.Records.{
  update_failed, queue_written, write_update, update_if, update_effective, plan_failed, update_held,
  update_changed, update_planned,
}
use qlabs_catalog_sync.Sync.Process.{planned, update_bound}
use qlabs_catalog_sync.Sync.Effects.{
  Steps, raise_diff-Keeps, now-Keeps, capability_skip-Keeps, withhold_by-Keeps, plan_diff-Keeps,
  apply_update-Keeps,
}

module _ (R : Cycle → Cycle → Type 0) (casefold : String → String) (s : Settings) (e : Endpoints)
    (steps : Steps R s e) where
  pub if-Keeps :
      {A : Type 0} (b : Bool) (m k : Sync A)
      → (b ≡ true → Keeps R m)
      → (b ≡ false → Keeps R k)
      → Keeps R (if b then m else k)
  if-Keeps true m k on off = on refl
  if-Keeps false m k on off = off refl

  update_failed-Keeps :
      (change : ChangeRef) (t : EntityType) (n : ℕ) (ref : IdentityRef) (x : Raised)
      → Keeps R (update_failed casefold s e change t n ref x)
  update_failed-Keeps change t n ref (connector_error not_found) c = steps.notes c _ refl refl
  update_failed-Keeps change t n ref (connector_error conflict_error) c = steps.notes c _ refl refl
  update_failed-Keeps change t n ref (connector_error capability_error) c =
      capability_skip-Keeps R casefold s e steps change t n _ c
  update_failed-Keeps change t n ref (connector_error auth_error) c = steps.order.same c
  update_failed-Keeps change t n ref (connector_error (transient_error hint)) c = steps.order.same c
  update_failed-Keeps change t n ref (connector_error other_error) c = steps.order.same c
  update_failed-Keeps change t n ref (cycle_aborted endpoint) c = steps.order.same c
  update_failed-Keeps change t n ref (store_error y) c = steps.order.same c
  update_failed-Keeps change t n ref (diff_error y) c = steps.order.same c
  update_failed-Keeps change t n ref (tree_error y) c = steps.order.same c

  write_update-Keeps :
      s.dry_run ≡ false
      → (change : ChangeRef) (t : EntityType) (n : ℕ) (ref : IdentityRef) (a : Envelopes)
        (held : List WithheldField) (d : FieldDiff) (report : RecordReport)
      → Keeps R (write_update casefold s e change t n ref a held d report)
  unfolding write_update
  write_update-Keeps wet change t n ref a held d report =
      bind-Keeps R steps.order (apply_update s e ref d t a held)
        (λ applied. now s e >>= queue_written casefold s e t n a report applied)
        (apply_update-Keeps R casefold s e steps wet ref d t a held)
        λ applied.
          bind-Keeps R steps.order (now s e) (queue_written casefold s e t n a report applied)
            (now-Keeps R casefold s e steps) λ at c. steps.notes c _ refl refl

  update_if-Keeps :
      (change : ChangeRef) (t : EntityType) (n : ℕ) (ref : IdentityRef) (a : Envelopes)
      (held : List WithheldField) (d : FieldDiff) (report : RecordReport)
      (changes : List FieldChange)
      → Keeps R (update_if casefold s e change t n ref a held d report changes)
  update_if-Keeps change t n ref a held d report [] c = steps.order.same c
  update_if-Keeps change t n ref a held d report (_ ∷ _) c =
      if-Keeps s.dry_run _ _ (λ dry c1. steps.order.same c1)
        (λ wet.
          catch-Keeps R steps.order (write_update casefold s e change t n ref a held d report)
            (update_failed casefold s e change t n ref)
            (write_update-Keeps wet change t n ref a held d report)
            (update_failed-Keeps change t n ref))
        c

  update_held-Keeps :
      (change : ChangeRef) (t : EntityType) (n : ℕ) (ref : IdentityRef) (a : Envelopes)
      (plan : DiffPlan) (held : List WithheldField)
      → Keeps R (update_held casefold s e change t n ref a plan held)
  unfolding update_effective
  update_held-Keeps change t n ref a plan held c =
      continue-Keeps R steps.order (update_effective casefold s e change t n ref a plan held) c _
        (raise_diff-Keeps R casefold s e steps _ c)
        λ d. update_if-Keeps change t n ref a held d _ d.changes

  update_changed-Keeps :
      (change : ChangeRef) (t : EntityType) (n : ℕ) (ref : IdentityRef) (a stored : Envelopes)
      (plan : DiffPlan) (changes : List FieldChange)
      → Keeps R (update_changed casefold s e change t n ref a stored plan changes)
  unfolding withhold
  update_changed-Keeps change t n ref a stored plan [] c = steps.order.same c
  update_changed-Keeps change t n ref a stored plan (_ ∷ _) c =
      bind-Keeps R steps.order (withhold s e t ref plan stored)
        (update_held casefold s e change t n ref a plan)
        (withhold_by-Keeps R casefold s e steps s.write_policy t ref plan stored)
        (update_held-Keeps change t n ref a plan) c

  plan_failed-Keeps :
      (change : ChangeRef) (t : EntityType) (n : ℕ) (ref : IdentityRef) (x : Raised)
      → Keeps R (plan_failed casefold s e change t n ref x)
  plan_failed-Keeps change t n ref (connector_error capability_error) c =
      capability_skip-Keeps R casefold s e steps change t n _ c
  plan_failed-Keeps change t n ref (connector_error not_found) c = steps.order.same c
  plan_failed-Keeps change t n ref (connector_error conflict_error) c = steps.order.same c
  plan_failed-Keeps change t n ref (connector_error auth_error) c = steps.order.same c
  plan_failed-Keeps change t n ref (connector_error (transient_error hint)) c = steps.order.same c
  plan_failed-Keeps change t n ref (connector_error other_error) c = steps.order.same c
  plan_failed-Keeps change t n ref (cycle_aborted endpoint) c = steps.order.same c
  plan_failed-Keeps change t n ref (store_error y) c = steps.order.same c
  plan_failed-Keeps change t n ref (diff_error y) c = steps.order.same c
  plan_failed-Keeps change t n ref (tree_error y) c = steps.order.same c

  planned-Keeps :
      (change : ChangeRef) (t : EntityType) (n : ℕ) (ref : IdentityRef) (a stored : Envelopes)
      (c : Cycle) (out : Result Raised DiffPlan × Cycle)
      → R c out.1
      → R c (planned casefold s e change t n ref a stored out).1
  unfolding update_planned
  planned-Keeps change t n ref a stored c (ok plan, c1) h =
      steps.order.join c c1 _ h
        (update_changed-Keeps change t n ref a stored plan (changes_of plan) c1)
  planned-Keeps change t n ref a stored c (err x, c1) h =
      steps.order.join c c1 _ h (plan_failed-Keeps change t n ref x c1)

  pub update_bound-Keeps :
      (change : ChangeRef) (t : EntityType) (n : ℕ) (ref : IdentityRef) (a : Envelopes)
      → Keeps R (update_bound casefold s e change t n ref a)
  unfolding update_bound
  update_bound-Keeps change t n ref a c =
      planned-Keeps change t n ref a _ c _ (plan_diff-Keeps R casefold s e steps t a _ c)

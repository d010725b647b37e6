-- ===== src/Scheduler/Settles.antt =====
-- A pass after one that failed nothing changes nothing.
use qlabs_catalog_sync.Prelude.{
  ℕ, ◌+◌, ◌≡◌, refl, sym, ap, ◌∙◌, subst, Bool, false, List, [], String, some, Result, ok, arith,
  ◌==◌, string_eq, nat_eq, option_eq,
}
use qlabs_catalog_sync.Prelude.Dict
use qlabs_catalog_sync.Prelude.Dict.{Dict, NodupKeys, contains-keys, insert-NodupKeys}
use qlabs_catalog_sync.Scheduler.Types.{PairPlan, ReconcileResult, Scheduler, Options}
use qlabs_catalog_sync.Scheduler.Reconcile.{
  Outside, probing, apply, reconcile, diverged, is_applied, wait, probed, untouched,
}
use qlabs_catalog_sync.Scheduler.Frame.{SameJobs, handle_all-SameJobs}
use qlabs_catalog_sync.Scheduler.Keeps.{reconcile-keeps}
use qlabs_catalog_sync.Scheduler.Stages.{apply-desired, is_wanted-same}
use qlabs_catalog_sync.Scheduler.Convergence.{
  IsCurrent, IsCurrent-undiverged, adopt-NodupKeys, reconcile-IsCurrent,
}

module _ (o : Options) where
  module _ (w : Outside) where
    apply-NodupKeys :
        (generation : ℕ) (reloaded : Bool) (s : Scheduler)
        → NodupKeys s.desired
        → NodupKeys (apply o w generation reloaded s).1.desired
    apply-NodupKeys generation reloaded s =
        subst NodupKeys (sym (apply-desired o w generation reloaded s))

    pub reconcile-NodupKeys :
        (s : Scheduler) → NodupKeys s.desired → NodupKeys (reconcile o w s).1.desired
    reconcile-NodupKeys s =
        reconcile-keeps o w (λ t. NodupKeys t.desired) (λ t. NodupKeys t.desired) (λ t u. u)
          (λ a t.
            subst NodupKeys (sym (handle_all-SameJobs o w.failing (w.during t.ticks a) t).desired))
          (λ generation snapshot t u. adopt-NodupKeys o w generation snapshot t) apply-NodupKeys
          (λ t u. u) s

    settled :
        (g : ℕ) (s : Scheduler)
        → s.generation ≡ some g
        → diverged s ≡ false
        → probed o w (ok g) s ≡ (ok (untouched o w g false), s)
    settled g s at done = ground (arith, at, done)

    is_applied-same :
        (name : String) (plan : PairPlan) (s s' : Scheduler)
        → s'.fingerprints ≡ s.fingerprints
        → is_applied name plan s' ≡ is_applied name plan s
    unfolding is_applied
    is_applied-same name plan s s' e = ap (λ d. Dict.lookup name d == some plan.fingerprint) e

    SameJobs-IsCurrent : (s s' : Scheduler) → SameJobs s s' → IsCurrent [] s → IsCurrent [] s'
    SameJobs-IsCurrent s s' same h = record {
      applied = λ name plan found fine.
          is_applied-same name plan s s' same.prints
          ∙ h.applied name plan (sym (ap (Dict.lookup name) same.desired) ∙ found) fine;
      wanted = λ name present.
          is_wanted-same o name s s' same.desired same.unreadable
          ∙ h.wanted name (λ e. present (ap (Dict.lookup name) same.runners ∙ e));
    }

    IsCurrent-settled :
        (g : ℕ) (s : Scheduler)
        → NodupKeys s.desired
        → IsCurrent [] s
        → s.generation ≡ some g
        → w.on_generation (s.ticks + 1) ≡ ok g
        → ((reconcile o w s).0 ≡ ok (untouched o w g false))
          × ((reconcile o w s).1.runners_by_pair ≡ s.runners_by_pair)
          × ((reconcile o w s).1.job_calls ≡ s.job_calls)
    unfolding reconcile
    IsCurrent-settled g s u h at answers =
        let begun : Scheduler = record s { ticks = s.ticks + 1 } in
        let same = handle_all-SameJobs o w.failing (w.during begun.ticks probing) begun in
        let waited = wait o w probing begun in
        let here : IsCurrent [] begun = record {
          applied = λ name plan found fine.
              is_applied-same name plan s begun refl ∙ h.applied name plan found fine;
          wanted = λ name present. is_wanted-same o name s begun refl refl ∙ h.wanted name present;
        } in
        let done =
          IsCurrent-undiverged o waited (subst NodupKeys (sym same.desired) u)
            (SameJobs-IsCurrent begun waited same here) in
        let out =
          ap (λ (r : Result String ℕ). probed o w r waited) answers
          ∙ settled g waited (same.generation ∙ at) done in
        (
          ap (λ (x : Result String ReconcileResult × Scheduler). x.0) out,
          ap (λ (x : Result String ReconcileResult × Scheduler). x.1.runners_by_pair) out
              ∙ same.runners,
          ap (λ (x : Result String ReconcileResult × Scheduler). x.1.job_calls) out ∙ same.calls,
        )

  -- After a pass that reports no failure, in a scheduler that is not stopping, a second pass that
  -- finds the generation as it is known reads nothing, changes no job and keeps every runner.
  pub reconcile-settles :
      (w w' : Outside) (s : Scheduler) (r : ReconcileResult) (g : ℕ)
      → NodupKeys s.desired
      → (reconcile o w s).0 ≡ ok r
      → r.failed ≡ []
      → (reconcile o w s).1.stopping ≡ false
      → (reconcile o w s).1.generation ≡ some g
      → w'.on_generation ((reconcile o w s).1.ticks + 1) ≡ ok g
      → ((reconcile o w' (reconcile o w s).1).0 ≡ ok (untouched o w' g false))
        × ((reconcile o w' (reconcile o w s).1).1.runners_by_pair
            ≡ (reconcile o w s).1.runners_by_pair)
        × ((reconcile o w' (reconcile o w s).1).1.job_calls ≡ (reconcile o w s).1.job_calls)
  reconcile-settles w w' s r g u answer fine going at again =
      IsCurrent-settled w' g (reconcile o w s).1 (reconcile-NodupKeys w s u)
        (subst (λ (failed : List String). IsCurrent failed (reconcile o w s).1) fine
          (reconcile-IsCurrent o w s r u answer going))
        at again

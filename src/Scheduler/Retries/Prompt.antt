-- ===== src/Scheduler/Retries/Prompt.antt =====
-- No retry is further off than the cap of the backoff.
use qlabs_catalog_sync.Prelude.{
  ℕ, ◌+◌, ◌≤◌, inl, inr, Bool, List, [], ◌∷◌, String, some, Result, ok, err, arith, Bool-cases,
  ◌==◌, string_eq,
}
use qlabs_catalog_sync.Prelude.Dict
use qlabs_catalog_sync.Prelude.Dict.{Dict, lookup-insert, lookup-erase}
use qlabs_catalog_sync.Scheduler.Types.{
  PairRunner, PairPlan, PairLoadFailure, ConfigSnapshot, Scheduler, Options,
}
use qlabs_catalog_sync.Scheduler.Fires.{Event, handle_all, forget}
use qlabs_catalog_sync.Scheduler.Jobs.{schedule_job, drop_job}
use qlabs_catalog_sync.Scheduler.Reconcile.{
  Outside, Built, building, settle, build_all, record_build_failure, report_broken, install,
  install_all, withdraw, remove_each, apply_removals, apply, adopt, reconcile, is_applied,
  is_backed_off, is_wanted, backoff_of, report_failures, plans_by_name, reasons_by_name,
}
use qlabs_catalog_sync.Scheduler.Frame.{handle_all-SameJobs}
use qlabs_catalog_sync.Scheduler.Keeps.{reconcile-keeps}
use qlabs_catalog_sync.Scheduler.Retries.{
  due_of, failures_of, handle_all-Unmoved, backoff_of_bounds,
}

pub record IsPrompt (s : Scheduler) : Type 0 where
  pub soon : (name : String) → due_of name s ≤ s.ticks + 32

withdraw-IsPrompt : (name : String) (s : Scheduler) → IsPrompt s → IsPrompt (withdraw name s)
unfolding withdraw forget drop_job
withdraw-IsPrompt name s h = record {
  soon = λ other. ground (arith, h.soon other, lookup-erase other name s.retry_at);
}

remove_each-IsPrompt :
    (rs : Dict String PairRunner) (s : Scheduler) → IsPrompt s → IsPrompt (remove_each rs s).1
unfolding remove_each
remove_each-IsPrompt [] s h = h
remove_each-IsPrompt ((name, r) ∷ rest) s h = elim (Bool-cases (is_wanted name s)) [
  | inl kept ↦ rw kept (remove_each-IsPrompt rest s h)
  | inr gone ↦ rw gone (remove_each-IsPrompt rest (withdraw name s) (withdraw-IsPrompt name s h))
]

module _ (o : Options) where
  pub handle_all-IsPrompt :
      (reason : ℕ → String) (es : List Event) (s : Scheduler)
      → IsPrompt s
      → IsPrompt (handle_all o reason es s)
  handle_all-IsPrompt reason es s h = record {
    soon = λ name. omega (
      arith,
      (handle_all-Unmoved o name reason es s).due,
      (handle_all-SameJobs o reason es s).ticks,
      h.soon name,
    );
  }

  install-IsPrompt :
      (name : String) (plan : PairPlan) (r : PairRunner) (s : Scheduler)
      → IsPrompt s
      → IsPrompt (install o name plan r s)
  unfolding install schedule_job drop_job
  install-IsPrompt name plan r s h = record {
    soon = λ other. ground (arith, h.soon other, lookup-erase other name s.retry_at);
  }

  install_all-IsPrompt :
      (built : Built) (s : Scheduler) → IsPrompt s → IsPrompt (install_all o built s).1
  unfolding install_all
  install_all-IsPrompt [] s h = h
  install_all-IsPrompt ((name, (plan, r)) ∷ rest) s h =
      install_all-IsPrompt rest (install o name plan r s) (install-IsPrompt name plan r s h)

  module _ (w : Outside) where
    failure-IsPrompt :
        (name reason : String) (s : Scheduler)
        → IsPrompt s
        → IsPrompt (record_build_failure name reason s)
    unfolding record_build_failure report_broken
    failure-IsPrompt name reason s h =
        let failures = failures_of name s + 1 in
        record {
          soon = λ other. ground (
            arith,
            h.soon other,
            backoff_of_bounds failures,
            lookup-insert other name (s.ticks + backoff_of failures) s.retry_at,
          );
        }

    settle-IsPrompt :
        (name : String) (plan : PairPlan) (answer : Result String PairRunner) (s : Scheduler)
        → IsPrompt s
        → IsPrompt (settle o w name plan answer s).1
    unfolding settle
    settle-IsPrompt name plan (err x) s h = failure-IsPrompt name x s h
    settle-IsPrompt name plan (ok r) s h = elim (Bool-cases (r.pair.name == name)) [
      | inl same ↦ rw same h
      | inr other ↦ rw other (failure-IsPrompt name (w.misnamed r.pair.name name) s h)
    ]

    build_all-IsPrompt :
        (plans : Dict String PairPlan) (s : Scheduler)
        → IsPrompt s
        → IsPrompt (build_all o w plans s).1
    unfolding build_all
    build_all-IsPrompt [] s h = h
    build_all-IsPrompt ((name, plan) ∷ rest) s h = elim (Bool-cases (is_applied name plan s)) [
      | inl applied ↦ rw applied (build_all-IsPrompt rest s h)
      | inr stale ↦ elim (Bool-cases (is_backed_off o w name s)) [
        | inl off ↦ rw (stale, off) (build_all-IsPrompt rest s h)
        | inr due ↦
            rw (stale, due)
              (build_all-IsPrompt rest _ (
                settle-IsPrompt name plan (w.factory s.ticks plan) _
                  (handle_all-IsPrompt w.failing (w.during s.ticks (building name)) s h)))
      ]
    ]

    apply-IsPrompt :
        (generation : ℕ) (reloaded : Bool) (s : Scheduler)
        → IsPrompt s
        → IsPrompt (apply o w generation reloaded s).1
    unfolding apply apply_removals
    apply-IsPrompt generation reloaded s h =
        install_all-IsPrompt _ _ (remove_each-IsPrompt _ _ (build_all-IsPrompt s.desired s h))

    report_failures-IsPrompt :
        (fs : List PairLoadFailure) (s : Scheduler)
        → IsPrompt s
        → IsPrompt (report_failures o w fs s)
    unfolding report_broken
    report_failures-IsPrompt [] s h = h
    report_failures-IsPrompt (f ∷ fs) s h =
        report_failures-IsPrompt fs (report_broken f.pair f.reason s) (record { soon = h.soon })

    adopt-IsPrompt :
        (generation : ℕ) (snapshot : ConfigSnapshot) (s : Scheduler)
        → IsPrompt s
        → IsPrompt (adopt o w generation snapshot s)
    unfolding adopt Dict.lookup
    adopt-IsPrompt generation snapshot s h =
        let adopted : Scheduler = record s {
          desired = plans_by_name o w snapshot.plans [];
          unreadable = reasons_by_name o w snapshot.failures [];
          generation = some generation;
          retry_at = [];
        } in
        report_failures-IsPrompt snapshot.failures adopted (record { soon = λ name. omega arith })

    pub reconcile-IsPrompt : (s : Scheduler) → IsPrompt s → IsPrompt (reconcile o w s).1
    reconcile-IsPrompt s h =
        reconcile-keeps o w IsPrompt IsPrompt
          (λ s h. record { soon = λ name. omega (arith, h.soon name) })
          (λ a s h. handle_all-IsPrompt w.failing (w.during s.ticks a) s h) adopt-IsPrompt
          apply-IsPrompt (λ s h. h) s h

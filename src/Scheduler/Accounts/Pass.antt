-- ===== src/Scheduler/Accounts/Pass.antt =====
-- A pass, and whatever happens at its awaits, keeps the accounts.
use qlabs_catalog_sync.Prelude.{
  ℕ, ◌≡◌, ◌⊎◌, inl, inr, Bool, true, false, not, ◌||◌, List, [], ◌∷◌, String, some, Result, ok, err,
  arith, Bool-cases, ◌==◌, string_eq, contains,
}
use qlabs_catalog_sync.Prelude.Dict
use qlabs_catalog_sync.Prelude.Dict.{Dict, lookup-insert, lookup-erase, contains-keys}
use qlabs_catalog_sync.Scheduler.Types.{
  PairRunner, PairPlan, PairLoadFailure, ConfigSnapshot, Scheduler, Options,
}
use qlabs_catalog_sync.Scheduler.Fires.{
  Event, began, ended, stopped, cancelled, handle, handle_all, forget, is_running, end_fire,
}
use qlabs_catalog_sync.Scheduler.Jobs.{drop_job}
use qlabs_catalog_sync.Scheduler.Reconcile.{
  Outside, Built, building, settle, build_all, record_build_failure, report_broken, apply_removals,
  remove_each, install_all, install, withdraw, apply, adopt, reconcile, is_applied, is_backed_off,
  is_wanted, report_failures, plans_by_name, reasons_by_name,
}
use qlabs_catalog_sync.Scheduler.Keeps.{reconcile-keeps}
use qlabs_catalog_sync.Scheduler.Accounts.{
  IsAccounted, has_state, record_outcome-IsAccounted, begin_fire-IsAccounted,
  leave_fire-IsAccounted, install-IsAccounted, withdraw-IsAccounted,
}

-- A pair whose job may be withdrawn: no cycle runs, or its state is kept.
abbrev eligible : String → Scheduler → Bool
eligible name s = not (is_running name s) || has_state name s

withdraw-eligible :
    (other name : String) (s : Scheduler)
    → eligible other s ≡ true
    → eligible other (withdraw name s) ≡ true
unfolding withdraw forget drop_job
withdraw-eligible other name s h =
    ground (arith, h, lookup-erase other name s.running, lookup-erase other name s.states)

remove_each-IsAccounted :
    (rs : Dict String PairRunner) (s : Scheduler)
    → IsAccounted s
    → ((name : String) → contains (Dict.keys rs) name ≡ true → eligible name s ≡ true)
    → IsAccounted (remove_each rs s).1
unfolding remove_each Dict.keys
remove_each-IsAccounted [] s h may = h
remove_each-IsAccounted ((name, r) ∷ rest) s h may = elim (Bool-cases (is_wanted name s)) [
  | inl kept ↦ rw kept (remove_each-IsAccounted rest s h (λ n listed. may n (ground arith)))
  | inr gone ↦ rw gone (
      remove_each-IsAccounted rest (withdraw name s)
        (withdraw-IsAccounted name s h (either (may name (ground arith))))
        (λ n listed. withdraw-eligible n name s (may n (ground arith))))
]
  where
    either : eligible name s ≡ true → (is_running name s ≡ false) ⊎ (has_state name s ≡ true)
    either e = elim (Bool-cases (is_running name s)) [
      | inl busy ↦ inr (ground arith)
      | inr idle ↦ inl idle
    ]

apply_removals-IsAccounted : (s : Scheduler) → IsAccounted s → IsAccounted (apply_removals s).1
unfolding apply_removals
apply_removals-IsAccounted s h =
    remove_each-IsAccounted s.runners_by_pair s h
      (λ name listed. ground (arith, h.known name, contains-keys s.runners_by_pair name))

module _ (o : Options) where
  pub handle-IsAccounted :
      (reason : ℕ → String) (e : Event) (s : Scheduler)
      → IsAccounted s
      → IsAccounted (handle o reason e s)
  unfolding handle end_fire
  handle-IsAccounted reason (began r) s h = begin_fire-IsAccounted r s h
  handle-IsAccounted reason (ended name failed) s h =
      leave_fire-IsAccounted name _ (record_outcome-IsAccounted o reason name failed s h)
  handle-IsAccounted reason (cancelled name) s h = leave_fire-IsAccounted name s h
  handle-IsAccounted reason stopped s h = record { known = h.known; apart = h.apart; busy = h.busy }

  handle_all-IsAccounted :
      (reason : ℕ → String) (es : List Event) (s : Scheduler)
      → IsAccounted s
      → IsAccounted (handle_all o reason es s)
  unfolding handle_all
  handle_all-IsAccounted reason [] s h = h
  handle_all-IsAccounted reason (e ∷ es) s h =
      handle_all-IsAccounted reason es (handle o reason e s) (handle-IsAccounted reason e s h)

  install_all-IsAccounted :
      (built : Built) (s : Scheduler) → IsAccounted s → IsAccounted (install_all o built s).1
  unfolding install_all
  install_all-IsAccounted [] s h = h
  install_all-IsAccounted ((name, (plan, r)) ∷ rest) s h =
      install_all-IsAccounted rest (install o name plan r s) (install-IsAccounted o name plan r s h)

  module _ (w : Outside) where
    failure-IsAccounted :
        (name reason : String) (s : Scheduler)
        → IsAccounted s
        → IsAccounted (record_build_failure name reason s)
    unfolding record_build_failure report_broken
    failure-IsAccounted name reason s h = record { known = h.known; apart = h.apart; busy = h.busy }

    settle-IsAccounted :
        (name : String) (plan : PairPlan) (answer : Result String PairRunner) (s : Scheduler)
        → IsAccounted s
        → IsAccounted (settle o w name plan answer s).1
    unfolding settle
    settle-IsAccounted name plan (err x) s h = failure-IsAccounted name x s h
    settle-IsAccounted name plan (ok r) s h = elim (Bool-cases (r.pair.name == name)) [
      | inl same ↦ rw same h
      | inr other ↦ rw other (failure-IsAccounted name (w.misnamed r.pair.name name) s h)
    ]

    build_all-IsAccounted :
        (plans : Dict String PairPlan) (s : Scheduler)
        → IsAccounted s
        → IsAccounted (build_all o w plans s).1
    unfolding build_all
    build_all-IsAccounted [] s h = h
    build_all-IsAccounted ((name, plan) ∷ rest) s h = elim (Bool-cases (is_applied name plan s)) [
      | inl applied ↦ rw applied (build_all-IsAccounted rest s h)
      | inr stale ↦ elim (Bool-cases (is_backed_off o w name s)) [
        | inl off ↦ rw (stale, off) (build_all-IsAccounted rest s h)
        | inr due ↦
            rw (stale, due)
              (build_all-IsAccounted rest _ (
                settle-IsAccounted name plan (w.factory s.ticks plan) _
                  (handle_all-IsAccounted w.failing (w.during s.ticks (building name)) s h)))
      ]
    ]

    apply-IsAccounted :
        (generation : ℕ) (reloaded : Bool) (s : Scheduler)
        → IsAccounted s
        → IsAccounted (apply o w generation reloaded s).1
    unfolding apply
    apply-IsAccounted generation reloaded s h =
        install_all-IsAccounted _ _
          (apply_removals-IsAccounted _ (build_all-IsAccounted s.desired s h))

    report_failures-IsAccounted :
        (fs : List PairLoadFailure) (s : Scheduler)
        → IsAccounted s
        → IsAccounted (report_failures o w fs s)
    unfolding report_broken
    report_failures-IsAccounted [] s h = h
    report_failures-IsAccounted (f ∷ fs) s h =
        report_failures-IsAccounted fs (report_broken f.pair f.reason s)
          (record { known = h.known; apart = h.apart; busy = h.busy })

    adopt-IsAccounted :
        (generation : ℕ) (snapshot : ConfigSnapshot) (s : Scheduler)
        → IsAccounted s
        → IsAccounted (adopt o w generation snapshot s)
    unfolding adopt
    adopt-IsAccounted generation snapshot s h =
        let adopted : Scheduler = record s {
          desired = plans_by_name o w snapshot.plans [];
          unreadable = reasons_by_name o w snapshot.failures [];
          generation = some generation;
          retry_at = [];
        } in
        report_failures-IsAccounted snapshot.failures adopted
          (record { known = h.known; apart = h.apart; busy = h.busy })

    pub reconcile-IsAccounted : (s : Scheduler) → IsAccounted s → IsAccounted (reconcile o w s).1
    reconcile-IsAccounted s h =
        reconcile-keeps o w IsAccounted IsAccounted
          (λ s h. record { known = h.known; apart = h.apart; busy = h.busy })
          (λ a s h. handle_all-IsAccounted w.failing (w.during s.ticks a) s h) adopt-IsAccounted
          apply-IsAccounted (λ s h. h) s h

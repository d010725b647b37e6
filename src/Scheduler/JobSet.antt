-- ===== src/Scheduler/JobSet.antt =====
-- The job set that the calls to APScheduler leave is the one that the scheduler keeps account of.
use qlabs_catalog_sync.Prelude.{
  ℕ, ◌≡◌, sym, ap, ◌∙◌, subst, inl, inr, Bool, List, [], ◌∷◌, String, Option, none, some, arith,
  Bool-cases, ◌==◌, string_eq, nat_eq, option_eq, if◌then◌else◌,
}
use qlabs_catalog_sync.Prelude.Dict
use qlabs_catalog_sync.Prelude.Dict.{Dict, NodupKeys, lookup-insert, lookup-erase}
use qlabs_catalog_sync.Scheduler.Types.{
  PairRunner, PairPlan, PairLoadFailure, ConfigSnapshot, Scheduler, Options, JobCall, remove_job,
  add_job,
}
use qlabs_catalog_sync.Scheduler.Fires.{forget}
use qlabs_catalog_sync.Scheduler.Jobs.{schedule_job, drop_job}
use qlabs_catalog_sync.Scheduler.Reconcile.{
  Outside, Built, build_all, apply_removals, remove_each, install_all, install, withdraw, apply,
  adopt, reconcile, is_wanted, report_failures, report_broken,
}
use qlabs_catalog_sync.Scheduler.Frame.{SameJobs, handle_all-SameJobs, build_all-SameJobs}
use qlabs_catalog_sync.Scheduler.Keeps.{reconcile-keeps}
use qlabs_catalog_sync.Scheduler.Builds.{AllNamed, build_all-AllNamed}

-- The runner that a job's next fire would get, by the calls made so far.
abbrev pub job_of : String → List JobCall → Option PairRunner
job_of name [] = none
job_of name (remove_job other ∷ calls) = if name == other then none else job_of name calls
job_of name (add_job r jitter ∷ calls) = if name == r.pair.name then some r else job_of name calls

-- `add_job` with an id that is in use raises a ConflictingIdError: no call does that.
abbrev pub NeverConflicts : List JobCall → Type 0
NeverConflicts [] = Unit
NeverConflicts (remove_job name ∷ calls) = NeverConflicts calls
NeverConflicts (add_job r jitter ∷ calls) = (job_of r.pair.name calls ≡ none) × NeverConflicts calls

pub record JobsMatch (s : Scheduler) : Type 0 where
  pub jobs : (name : String) → job_of name s.job_calls ≡ Dict.lookup name s.runners_by_pair
  pub fine : NeverConflicts s.job_calls

pub SameJobs-JobsMatch : {s s' : Scheduler} → SameJobs s s' → JobsMatch s → JobsMatch s'
SameJobs-JobsMatch same h = record {
  jobs =
      λ name. ap (job_of name) same.calls ∙ h.jobs name ∙ sym (ap (Dict.lookup name) same.runners);
  fine = subst NeverConflicts (sym same.calls) h.fine;
}

withdraw-JobsMatch : (name : String) (s : Scheduler) → JobsMatch s → JobsMatch (withdraw name s)
unfolding withdraw forget drop_job
withdraw-JobsMatch name s h = record {
  jobs = λ other. ground (arith, h.jobs other, lookup-erase other name s.runners_by_pair);
  fine = ground (arith, h.fine);
}

install-JobsMatch :
    (o : Options) (name : String) (plan : PairPlan) (r : PairRunner) (s : Scheduler)
    → r.pair.name ≡ name
    → JobsMatch s
    → JobsMatch (install o name plan r s)
unfolding install schedule_job drop_job
install-JobsMatch o name plan r s named h = record {
  jobs = λ other. ground (arith, named, h.jobs other, lookup-insert other name r s.runners_by_pair);
  fine = (ground (arith, named), h.fine);
}

remove_each-JobsMatch :
    (rs : Dict String PairRunner) (s : Scheduler) → JobsMatch s → JobsMatch (remove_each rs s).1
unfolding remove_each
remove_each-JobsMatch [] s h = h
remove_each-JobsMatch ((name, r) ∷ rest) s h = elim (Bool-cases (is_wanted name s)) [
  | inl kept ↦ rw kept (remove_each-JobsMatch rest s h)
  | inr gone ↦ rw gone (remove_each-JobsMatch rest (withdraw name s) (withdraw-JobsMatch name s h))
]

module _ (o : Options) where
  install_all-JobsMatch :
      (built : Built) (s : Scheduler)
      → AllNamed built
      → JobsMatch s
      → JobsMatch (install_all o built s).1
  unfolding install_all
  install_all-JobsMatch [] s n h = h
  install_all-JobsMatch ((name, (plan, r)) ∷ rest) s (named, n) h =
      install_all-JobsMatch rest (install o name plan r s) n
        (install-JobsMatch o name plan r s named h)

  module _ (w : Outside) where
    apply-JobsMatch :
        (generation : ℕ) (reloaded : Bool) (s : Scheduler)
        → JobsMatch s
        → JobsMatch (apply o w generation reloaded s).1
    unfolding apply apply_removals
    apply-JobsMatch generation reloaded s h =
        install_all-JobsMatch (build_all o w s.desired s).0.0 _ (build_all-AllNamed o w s.desired s)
          (remove_each-JobsMatch _ _ (SameJobs-JobsMatch (build_all-SameJobs o w s.desired s) h))

    report_failures-JobsMatch :
        (fs : List PairLoadFailure) (s : Scheduler)
        → JobsMatch s
        → JobsMatch (report_failures o w fs s)
    unfolding report_broken
    report_failures-JobsMatch [] s h = h
    report_failures-JobsMatch (f ∷ fs) s h =
        report_failures-JobsMatch fs (report_broken f.pair f.reason s)
          (record { jobs = h.jobs; fine = h.fine })

    adopt-JobsMatch :
        (generation : ℕ) (snapshot : ConfigSnapshot) (s : Scheduler)
        → JobsMatch s
        → JobsMatch (adopt o w generation snapshot s)
    unfolding adopt
    adopt-JobsMatch generation snapshot s h =
        report_failures-JobsMatch snapshot.failures _ (record { jobs = h.jobs; fine = h.fine })

    -- However the store, the factory and the fires behave, no pass registers a job under an id
    -- that is in use, and after it each pair's job has the runner that the scheduler keeps for it.
    pub reconcile-JobsMatch : (s : Scheduler) → JobsMatch s → JobsMatch (reconcile o w s).1
    reconcile-JobsMatch s h =
        reconcile-keeps o w JobsMatch JobsMatch (λ s h. record { jobs = h.jobs; fine = h.fine })
          (λ a s h. SameJobs-JobsMatch (handle_all-SameJobs o w.failing (w.during s.ticks a) s) h)
          adopt-JobsMatch apply-JobsMatch (λ s h. h) s h

-- ===== src/Scheduler/Frame.antt =====
-- What a pass leaves alone while it waits and builds: the job set and the desired state.
use qlabs_catalog_sync.Prelude.{
  ℕ, ◌≡◌, refl, ◌∙◌, Bool, List, [], ◌∷◌, String, Result, ok, err, arith, Bool-cases, inl, inr,
  string_eq,
}
use qlabs_catalog_sync.Prelude.Dict.{Dict}
use qlabs_catalog_sync.Scheduler.Types.{PairRunner, PairPlan, Scheduler, Options}
use qlabs_catalog_sync.Scheduler.Fires.{
  Event, began, ended, stopped, cancelled, handle, handle_all, begin_fire, end_fire, leave_fire,
  record_outcome, forget,
}
use qlabs_catalog_sync.Scheduler.Reconcile.{
  Outside, building, settle, build_all, record_build_failure, report_broken, is_applied,
  is_backed_off,
}

pub record SameJobs (s s' : Scheduler) : Type 0 where
  pub runners : s'.runners_by_pair ≡ s.runners_by_pair
  pub prints : s'.fingerprints ≡ s.fingerprints
  pub desired : s'.desired ≡ s.desired
  pub unreadable : s'.unreadable ≡ s.unreadable
  pub ticks : s'.ticks ≡ s.ticks
  pub generation : s'.generation ≡ s.generation
  pub calls : s'.job_calls ≡ s.job_calls

pub SameJobs-refl : (s : Scheduler) → SameJobs s s
SameJobs-refl s = record {
  runners = refl;
  prints = refl;
  desired = refl;
  unreadable = refl;
  ticks = refl;
  generation = refl;
  calls = refl;
}

pub SameJobs-trans : {a b c : Scheduler} → SameJobs a b → SameJobs b c → SameJobs a c
SameJobs-trans h k = record {
  runners = k.runners ∙ h.runners;
  prints = k.prints ∙ h.prints;
  desired = k.desired ∙ h.desired;
  unreadable = k.unreadable ∙ h.unreadable;
  ticks = k.ticks ∙ h.ticks;
  generation = k.generation ∙ h.generation;
  calls = k.calls ∙ h.calls;
}

module _ (o : Options) where
  leave_fire-SameJobs : (name : String) (s : Scheduler) → SameJobs s (leave_fire name s)
  unfolding leave_fire forget
  leave_fire-SameJobs name s = record {
    runners = ground arith;
    prints = ground arith;
    desired = ground arith;
    unreadable = ground arith;
    ticks = ground arith;
    generation = ground arith;
    calls = ground arith;
  }

  record_outcome-SameJobs :
      (reason : ℕ → String) (name : String) (failed : Bool) (s : Scheduler)
      → SameJobs s (record_outcome o reason name failed s)
  unfolding record_outcome
  record_outcome-SameJobs reason name failed s = record {
    runners = ground arith;
    prints = ground arith;
    desired = ground arith;
    unreadable = ground arith;
    ticks = ground arith;
    generation = ground arith;
    calls = ground arith;
  }

  pub handle-SameJobs :
      (reason : ℕ → String) (e : Event) (s : Scheduler) → SameJobs s (handle o reason e s)
  unfolding handle begin_fire end_fire
  handle-SameJobs reason (began r) s = record {
    runners = refl;
    prints = refl;
    desired = refl;
    unreadable = refl;
    ticks = refl;
    generation = refl;
    calls = refl;
  }
  handle-SameJobs reason (ended name failed) s =
      SameJobs-trans (record_outcome-SameJobs reason name failed s) (leave_fire-SameJobs name _)
  handle-SameJobs reason (cancelled name) s = leave_fire-SameJobs name s
  handle-SameJobs reason stopped s = record {
    runners = refl;
    prints = refl;
    desired = refl;
    unreadable = refl;
    ticks = refl;
    generation = refl;
    calls = refl;
  }

  pub handle_all-SameJobs :
      (reason : ℕ → String) (es : List Event) (s : Scheduler)
      → SameJobs s (handle_all o reason es s)
  unfolding handle_all
  handle_all-SameJobs reason [] s = SameJobs-refl s
  handle_all-SameJobs reason (e ∷ es) s =
      SameJobs-trans (handle-SameJobs reason e s) (handle_all-SameJobs reason es _)

  module _ (w : Outside) where
    pub settle-SameJobs :
        (name : String) (plan : PairPlan) (answer : Result String PairRunner) (s : Scheduler)
        → SameJobs s (settle o w name plan answer s).1
    unfolding settle record_build_failure report_broken
    settle-SameJobs name plan (err reason) s = record {
      runners = refl;
      prints = refl;
      desired = refl;
      unreadable = refl;
      ticks = refl;
      generation = refl;
      calls = refl;
    }
    settle-SameJobs name plan (ok runner) s = record {
      runners = ground arith;
      prints = ground arith;
      desired = ground arith;
      unreadable = ground arith;
      ticks = ground arith;
      generation = ground arith;
      calls = ground arith;
    }

    pub build_all-SameJobs :
        (plans : Dict String PairPlan) (s : Scheduler) → SameJobs s (build_all o w plans s).1
    unfolding build_all
    build_all-SameJobs [] s = SameJobs-refl s
    build_all-SameJobs ((name, plan) ∷ rest) s = elim (Bool-cases (is_applied name plan s)) [
      | inl applied ↦ rw applied (build_all-SameJobs rest s)
      | inr stale ↦ elim (Bool-cases (is_backed_off o w name s)) [
        | inl off ↦ rw (stale, off) (build_all-SameJobs rest s)
        | inr due ↦
            rw (stale, due)
              (SameJobs-trans (handle_all-SameJobs w.failing (w.during s.ticks (building name)) s) (
                SameJobs-trans (settle-SameJobs name plan (w.factory s.ticks plan) _)
                  (build_all-SameJobs rest _)))
      ]
    ]

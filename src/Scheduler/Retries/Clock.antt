-- ===== src/Scheduler/Retries/Clock.antt =====
-- What applying the configuration leaves alone: the tick, the generation and the stop flag.
use qlabs_catalog_sync.Prelude.{
  ℕ, ◌≡◌, ◌≢◌, refl, ◌∙◌, Bool, List, [], ◌∷◌, String, Result, ok, err, arith, Bool-cases, inl, inr,
  string_eq, All,
}
use qlabs_catalog_sync.Prelude.Dict.{Dict}
use qlabs_catalog_sync.Scheduler.Types.{PairRunner, PairPlan, Scheduler, Options}
use qlabs_catalog_sync.Scheduler.Fires.{Event, stopped, handle_all, forget}
use qlabs_catalog_sync.Scheduler.Jobs.{schedule_job, drop_job}
use qlabs_catalog_sync.Scheduler.Reconcile.{
  Outside, Built, building, settle, build_all, record_build_failure, report_broken, install,
  install_all, withdraw, remove_each, apply_removals, apply, is_applied, is_backed_off, is_wanted,
}
use qlabs_catalog_sync.Scheduler.Frame.{handle_all-SameJobs}
use qlabs_catalog_sync.Scheduler.Retries.Passes.{IsQuiet, handle_all-stopping}

pub record SameClock (s s' : Scheduler) : Type 0 where
  pub ticks : s'.ticks ≡ s.ticks
  pub generation : s'.generation ≡ s.generation
  pub stopping : s'.stopping ≡ s.stopping

SameClock-trans : {a b c : Scheduler} → SameClock a b → SameClock b c → SameClock a c
SameClock-trans h k = record {
  ticks = k.ticks ∙ h.ticks;
  generation = k.generation ∙ h.generation;
  stopping = k.stopping ∙ h.stopping;
}

withdraw-SameClock : (name : String) (s : Scheduler) → SameClock s (withdraw name s)
unfolding withdraw forget drop_job
withdraw-SameClock name s = record {
  ticks = ground arith;
  generation = ground arith;
  stopping = ground arith;
}

remove_each-SameClock :
    (rs : Dict String PairRunner) (s : Scheduler) → SameClock s (remove_each rs s).1
unfolding remove_each
remove_each-SameClock [] s = record { ticks = refl; generation = refl; stopping = refl }
remove_each-SameClock ((name, r) ∷ rest) s = elim (Bool-cases (is_wanted name s)) [
  | inl kept ↦ rw kept (remove_each-SameClock rest s)
  | inr gone ↦
      rw gone
        (SameClock-trans (withdraw-SameClock name s) (remove_each-SameClock rest (withdraw name s)))
]

module _ (o : Options) where
  install_all-SameClock : (built : Built) (s : Scheduler) → SameClock s (install_all o built s).1
  unfolding install_all install schedule_job drop_job
  install_all-SameClock [] s = record { ticks = refl; generation = refl; stopping = refl }
  install_all-SameClock ((name, (plan, r)) ∷ rest) s =
      let later = install_all-SameClock rest (install o name plan r s) in
      record { ticks = later.ticks; generation = later.generation; stopping = later.stopping }

  pub handle_all-SameClock :
      (reason : ℕ → String) (es : List Event) (s : Scheduler)
      → All (λ e. e ≢ stopped) es
      → SameClock s (handle_all o reason es s)
  handle_all-SameClock reason es s quiet =
      let same = handle_all-SameJobs o reason es s in
      record {
        ticks = same.ticks;
        generation = same.generation;
        stopping = handle_all-stopping o reason es s quiet;
      }

  module _ (w : Outside) (quiet : IsQuiet w) where
    settle-SameClock :
        (name : String) (plan : PairPlan) (answer : Result String PairRunner) (s : Scheduler)
        → SameClock s (settle o w name plan answer s).1
    unfolding settle record_build_failure report_broken
    settle-SameClock name plan (err x) s = record {
      ticks = refl;
      generation = refl;
      stopping = refl;
    }
    settle-SameClock name plan (ok r) s = record {
      ticks = ground arith;
      generation = ground arith;
      stopping = ground arith;
    }

    build_all-SameClock :
        (plans : Dict String PairPlan) (s : Scheduler) → SameClock s (build_all o w plans s).1
    unfolding build_all
    build_all-SameClock [] s = record { ticks = refl; generation = refl; stopping = refl }
    build_all-SameClock ((name, plan) ∷ rest) s = elim (Bool-cases (is_applied name plan s)) [
      | inl applied ↦ rw applied (build_all-SameClock rest s)
      | inr stale ↦ elim (Bool-cases (is_backed_off o w name s)) [
        | inl off ↦ rw (stale, off) (build_all-SameClock rest s)
        | inr due ↦
            rw (stale, due)
              (SameClock-trans (handle_all-SameClock w.failing _ s (quiet s.ticks (building name)))
                (SameClock-trans (settle-SameClock name plan (w.factory s.ticks plan) _)
                  (build_all-SameClock rest _)))
      ]
    ]

    pub apply-SameClock :
        (generation : ℕ) (reloaded : Bool) (s : Scheduler)
        → SameClock s (apply o w generation reloaded s).1
    unfolding apply apply_removals
    apply-SameClock generation reloaded s =
        SameClock-trans (build_all-SameClock s.desired s)
          (SameClock-trans (remove_each-SameClock _ _) (install_all-SameClock _ _))

-- ===== src/Scheduler/Stages.antt =====
-- The three stages of `_apply`: what each leaves of the job set, and of what is wanted.
use qlabs_catalog_sync.Prelude.{
  ℕ, ◌≡◌, refl, ap, ◌∙◌, Bool, true, not, ◌&&◌, [], ◌∷◌, String, Option, none, some, arith,
  string_eq, nat_eq, option_eq, contains, if◌then◌else◌,
}
use qlabs_catalog_sync.Prelude.Dict
use qlabs_catalog_sync.Prelude.Dict.{Dict, NodupKeys, contains-keys, insert-NodupKeys}
use qlabs_catalog_sync.Scheduler.Types.{PairRunner, PairPlan, Scheduler, Options}
use qlabs_catalog_sync.Scheduler.Fires.{forget}
use qlabs_catalog_sync.Scheduler.Reconcile.{
  Outside, Built, build_all, apply_removals, remove_each, install_all, install, withdraw, apply,
  is_wanted,
}
use qlabs_catalog_sync.Scheduler.Jobs.{schedule_job, drop_job}
use qlabs_catalog_sync.Scheduler.Frame.{build_all-SameJobs}
use qlabs_catalog_sync.Scheduler.Passes.{
  print_after, runner_after, install_all-prints, install_all-runners, remove_each-runners,
  remove_each-prints,
}
use qlabs_catalog_sync.Scheduler.Builds.{build_all-NodupKeys}

withdraw-desired : (name : String) (s : Scheduler) → (withdraw name s).desired ≡ s.desired
unfolding withdraw forget drop_job
withdraw-desired name s = ground arith

withdraw-unreadable : (name : String) (s : Scheduler) → (withdraw name s).unreadable ≡ s.unreadable
unfolding withdraw forget drop_job
withdraw-unreadable name s = ground arith

remove_each-desired :
    (rs : Dict String PairRunner) (s : Scheduler) → (remove_each rs s).1.desired ≡ s.desired
unfolding remove_each
remove_each-desired [] s = refl
remove_each-desired ((name, r) ∷ rest) s = ground (
  arith,
  remove_each-desired rest s,
  remove_each-desired rest (withdraw name s),
  withdraw-desired name s,
)

remove_each-unreadable :
    (rs : Dict String PairRunner) (s : Scheduler) → (remove_each rs s).1.unreadable ≡ s.unreadable
unfolding remove_each
remove_each-unreadable [] s = refl
remove_each-unreadable ((name, r) ∷ rest) s = ground (
  arith,
  remove_each-unreadable rest s,
  remove_each-unreadable rest (withdraw name s),
  withdraw-unreadable name s,
)

module _ (o : Options) where
  install_all-SameWanted :
      (built : Built) (s : Scheduler)
      → ((install_all o built s).1.desired ≡ s.desired)
        × ((install_all o built s).1.unreadable ≡ s.unreadable)
  unfolding install_all install schedule_job drop_job
  install_all-SameWanted [] s = (refl, refl)
  install_all-SameWanted ((name, (plan, r)) ∷ rest) s =
      install_all-SameWanted rest (install o name plan r s)

  -- What is wanted depends on two attributes.
  pub is_wanted-same :
      (name : String) (s s' : Scheduler)
      → s'.desired ≡ s.desired
      → s'.unreadable ≡ s.unreadable
      → is_wanted name s' ≡ is_wanted name s
  unfolding is_wanted
  is_wanted-same name s s' d u = rw (d, u) refl

  module _ (w : Outside) where
    -- The three stages of `_apply`.
    abbrev pub after_builds : Scheduler → Scheduler
    after_builds s = (build_all o w s.desired s).1

    abbrev pub built_by : Scheduler → Built
    built_by s = (build_all o w s.desired s).0.0

    applied_by : ℕ → Bool → Scheduler → Scheduler
    applied_by generation reloaded s = (apply o w generation reloaded s).1

    abbrev pub survivor : {A : Type 0} → String → Scheduler → Option A → Option A
    survivor name s before =
        if contains (Dict.keys s.runners_by_pair) name && not (is_wanted name s)
        then none
        else before

    pub after_builds-is_wanted :
        (name : String) (s : Scheduler) → is_wanted name (after_builds s) ≡ is_wanted name s
    after_builds-is_wanted name s =
        let same = build_all-SameJobs o w s.desired s in
        is_wanted-same name s (after_builds s) same.desired same.unreadable

    pub apply-prints :
        (name : String) (generation : ℕ) (reloaded : Bool) (s : Scheduler)
        → NodupKeys s.desired
        → Dict.lookup name (apply o w generation reloaded s).1.fingerprints
          ≡ print_after
              (Dict.lookup name (built_by s))
              (survivor name s (Dict.lookup name s.fingerprints))
    unfolding apply apply_removals
    apply-prints name generation reloaded s u =
        let same = build_all-SameJobs o w s.desired s in
        install_all-prints o name (built_by s) _ (build_all-NodupKeys o w s.desired s u)
        ∙ ap (print_after (Dict.lookup name (built_by s))) (
            remove_each-prints name (after_builds s).runners_by_pair (after_builds s)
            ∙ rw (after_builds-is_wanted name s, same.runners, same.prints) refl)

    pub apply-runners :
        (name : String) (generation : ℕ) (reloaded : Bool) (s : Scheduler)
        → NodupKeys s.desired
        → Dict.lookup name (apply o w generation reloaded s).1.runners_by_pair
          ≡ runner_after
              (Dict.lookup name (built_by s))
              (survivor name s (Dict.lookup name s.runners_by_pair))
    unfolding apply apply_removals
    apply-runners name generation reloaded s u =
        let same = build_all-SameJobs o w s.desired s in
        install_all-runners o name (built_by s) _ (build_all-NodupKeys o w s.desired s u)
        ∙ ap (runner_after (Dict.lookup name (built_by s))) (
            remove_each-runners name (after_builds s).runners_by_pair (after_builds s)
            ∙ rw (after_builds-is_wanted name s, same.runners) refl)

    pub apply-desired :
        (generation : ℕ) (reloaded : Bool) (s : Scheduler)
        → (apply o w generation reloaded s).1.desired ≡ s.desired
    unfolding apply apply_removals
    apply-desired generation reloaded s =
        (install_all-SameWanted (built_by s) _).0
        ∙ remove_each-desired (after_builds s).runners_by_pair (after_builds s)
        ∙ (build_all-SameJobs o w s.desired s).desired

    pub apply-unreadable :
        (generation : ℕ) (reloaded : Bool) (s : Scheduler)
        → (apply o w generation reloaded s).1.unreadable ≡ s.unreadable
    unfolding apply apply_removals
    apply-unreadable generation reloaded s =
        (install_all-SameWanted (built_by s) _).1
        ∙ remove_each-unreadable (after_builds s).runners_by_pair (after_builds s)
        ∙ (build_all-SameJobs o w s.desired s).unreadable

    pub apply-is_wanted :
        (name : String) (generation : ℕ) (reloaded : Bool) (s : Scheduler)
        → is_wanted name (apply o w generation reloaded s).1 ≡ is_wanted name s
    apply-is_wanted name generation reloaded s =
        is_wanted-same name s _ (apply-desired generation reloaded s)
          (apply-unreadable generation reloaded s)

    pub desired-is_wanted :
        (name : String) (plan : PairPlan) (s : Scheduler)
        → Dict.lookup name s.desired ≡ some plan
        → is_wanted name s ≡ true
    unfolding is_wanted
    desired-is_wanted name plan s h = rw h refl

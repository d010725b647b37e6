-- ===== src/Scheduler/Isolation.antt =====
-- A pass does not touch the job of a pair whose configuration did not change.
use qlabs_catalog_sync.Prelude.{
  ℕ, ◌≡◌, refl, sym, ap, ◌∙◌, subst, Bool, true, List, [], ◌∷◌, String, Option, none, some, arith,
  ◌==◌, string_eq, option_eq, if◌then◌else◌, filter,
}
use qlabs_catalog_sync.Prelude.Dict
use qlabs_catalog_sync.Prelude.Dict.{Dict, NodupKeys}
use qlabs_catalog_sync.Scheduler.Types.{
  PairRunner, PairPlan, PairLoadFailure, ConfigSnapshot, Scheduler, Options, JobCall, remove_job,
  add_job,
}
use qlabs_catalog_sync.Scheduler.Fires.{forget}
use qlabs_catalog_sync.Scheduler.Jobs.{schedule_job, drop_job}
use qlabs_catalog_sync.Scheduler.Reconcile.{
  Outside, Built, build_all, apply_removals, remove_each, install_all, install, withdraw, apply,
  adopt, reconcile, is_applied, is_wanted, report_failures, report_broken, plans_by_name,
  reasons_by_name,
}
use qlabs_catalog_sync.Scheduler.Frame.{SameJobs, handle_all-SameJobs, build_all-SameJobs}
use qlabs_catalog_sync.Scheduler.Keeps.{reconcile-keeps}
use qlabs_catalog_sync.Scheduler.Builds.{
  planned, AllNamed, build_all-AllNamed, build_all-desired, build_all-Due,
}
use qlabs_catalog_sync.Scheduler.Passes.{withdraw-is_wanted}
use qlabs_catalog_sync.Scheduler.Convergence.{plans_by_name-NodupKeys}
use qlabs_catalog_sync.Scheduler.Stages.{
  apply-runners, apply-desired, apply-is_wanted, built_by, after_builds, after_builds-is_wanted,
}

abbrev pub names_job : String → JobCall → Bool
names_job name (remove_job other) = name == other
names_job name (add_job r jitter) = name == r.pair.name

-- The calls that alter the job of one pair.
abbrev pub calls_of : String → Scheduler → List JobCall
calls_of name s = filter (names_job name) s.job_calls

-- The pair is wanted, and if it is desired its plan is the one that its job was built from.
abbrev pub Unchanged : String → Scheduler → Scheduler → Type 0
Unchanged name before now =
    (is_wanted name now ≡ true)
    × ((plan : PairPlan)
        → Dict.lookup name now.desired ≡ some plan
        → is_applied name plan before ≡ true)

withdraw-calls :
    (name other : String) (s : Scheduler)
    → calls_of name (withdraw other s)
      ≡ (if name == other then remove_job other ∷ calls_of name s else calls_of name s)
unfolding withdraw forget drop_job
withdraw-calls name other s = ground arith

remove_each-calls :
    (name : String) (rs : Dict String PairRunner) (s : Scheduler)
    → is_wanted name s ≡ true
    → calls_of name (remove_each rs s).1 ≡ calls_of name s
unfolding remove_each
remove_each-calls name [] s h = refl
remove_each-calls name ((other, r) ∷ rest) s h = ground (
  arith,
  remove_each-calls name rest s h,
  remove_each-calls name rest (withdraw other s),
  withdraw-is_wanted name other s,
  withdraw-calls name other s,
)

module _ (o : Options) where
  install_all-calls :
      (name : String) (built : Built) (s : Scheduler)
      → AllNamed built
      → Dict.lookup name built ≡ none
      → calls_of name (install_all o built s).1 ≡ calls_of name s
  unfolding install_all install schedule_job drop_job Dict.lookup
  install_all-calls name [] s n h = refl
  install_all-calls name ((other, (plan, r)) ∷ rest) s (named, n) h =
      ground (arith, named, install_all-calls name rest (install o other plan r s) n)

  module _ (w : Outside) (name : String) where
    -- Nothing is built for an unchanged pair.
    unbuilt :
        (s : Scheduler)
        → NodupKeys s.desired
        → Unchanged name s s
        → Dict.lookup name (build_all o w s.desired s).0.0 ≡ none
    unbuilt s u (kept, same) = go (Dict.lookup name (build_all o w s.desired s).0.0) refl
      where
        go :
            (found : Option (PairPlan × PairRunner))
            → Dict.lookup name (build_all o w s.desired s).0.0 ≡ found
            → found ≡ none
        go none e = refl
        go (some (plan, r)) e =
            let applied =
              same plan (build_all-desired o w name plan s.desired s u (ap planned e)) in
            let (stale, _) = build_all-Due o w name plan r s.desired s e in
            absurd (cc (applied, stale))

    apply-Unchanged :
        (generation : ℕ) (reloaded : Bool) (s : Scheduler)
        → NodupKeys s.desired
        → Unchanged name s s
        → (Dict.lookup name (apply o w generation reloaded s).1.runners_by_pair
            ≡ Dict.lookup name s.runners_by_pair)
          × (calls_of name (apply o w generation reloaded s).1 ≡ calls_of name s)
    unfolding apply apply_removals
    apply-Unchanged generation reloaded s u h =
        let nothing = unbuilt s u h in
        let same = build_all-SameJobs o w s.desired s in
        (
          apply-runners o w name generation reloaded s u ∙ rw (nothing, h.0) (ground arith),
          install_all-calls name (built_by o w s) _ (build_all-AllNamed o w s.desired s) nothing
              ∙ remove_each-calls name _ (after_builds o w s)
                  (after_builds-is_wanted o w name s ∙ h.0)
              ∙ ap (filter (names_job name)) same.calls,
        )

    abbrev Same : Scheduler → Scheduler → Type 0
    Same before now =
        (Dict.lookup name now.runners_by_pair ≡ Dict.lookup name before.runners_by_pair)
        × (calls_of name now ≡ calls_of name before)

    -- Until it applies the configuration, a pass leaves the job set alone.
    record Waiting (before now : Scheduler) : Type 0 where
      runners : now.runners_by_pair ≡ before.runners_by_pair
      prints : now.fingerprints ≡ before.fingerprints
      calls : now.job_calls ≡ before.job_calls
      distinct : NodupKeys now.desired

    Waiting-Same : (before now : Scheduler) → Waiting before now → Same before now
    Waiting-Same before now h =
        (ap (Dict.lookup name) h.runners, ap (filter (names_job name)) h.calls)

    Waiting-wait : (before s s' : Scheduler) → SameJobs s s' → Waiting before s → Waiting before s'
    Waiting-wait before s s' same h = record {
      runners = same.runners ∙ h.runners;
      prints = same.prints ∙ h.prints;
      calls = same.calls ∙ h.calls;
      distinct = subst NodupKeys (sym same.desired) h.distinct;
    }

    report_failures-Waiting :
        (before : Scheduler) (fs : List PairLoadFailure) (s : Scheduler)
        → Waiting before s
        → Waiting before (report_failures o w fs s)
    unfolding report_broken
    report_failures-Waiting before [] s h = h
    report_failures-Waiting before (f ∷ fs) s h =
        report_failures-Waiting before fs (report_broken f.pair f.reason s) (record {
          runners = h.runners;
          prints = h.prints;
          calls = h.calls;
          distinct = h.distinct;
        })

    adopt-Waiting :
        (before : Scheduler) (generation : ℕ) (snapshot : ConfigSnapshot) (s : Scheduler)
        → Waiting before s
        → Waiting before (adopt o w generation snapshot s)
    unfolding adopt
    adopt-Waiting before generation snapshot s h =
        let adopted : Scheduler = record s {
          desired = plans_by_name o w snapshot.plans [];
          unreadable = reasons_by_name o w snapshot.failures [];
          generation = some generation;
          retry_at = [];
        } in
        report_failures-Waiting before snapshot.failures adopted (record {
          runners = h.runners;
          prints = h.prints;
          calls = h.calls;
          distinct = plans_by_name-NodupKeys o w snapshot.plans [] tt;
        })

    apply-Same :
        (before : Scheduler) (generation : ℕ) (reloaded : Bool) (s : Scheduler)
        → Waiting before s
        → Unchanged name before (apply o w generation reloaded s).1
        → Same before (apply o w generation reloaded s).1
    unfolding is_applied
    apply-Same before generation reloaded s h (kept, same) =
        let unchanged : Unchanged name s s = (
          sym (apply-is_wanted o w name generation reloaded s) ∙ kept,
          λ plan found.
              ap (λ d. Dict.lookup name d == some plan.fingerprint) h.prints
              ∙ same plan (ap (Dict.lookup name) (apply-desired o w generation reloaded s) ∙ found),
        ) in
        let (runner, calls) = apply-Unchanged generation reloaded s h.distinct unchanged in
        let (runner', calls') = Waiting-Same before s h in (runner ∙ runner', calls ∙ calls')

    -- Whatever else a pass does, for a pair that is wanted after it, and whose desired plan, if it
    -- has one, is the one that its job was built from, it makes no call that alters the job, and
    -- the pair keeps its runner.
    pub reconcile-Unchanged :
        (s : Scheduler)
        → NodupKeys s.desired
        → Unchanged name s (reconcile o w s).1
        → (Dict.lookup name (reconcile o w s).1.runners_by_pair
            ≡ Dict.lookup name s.runners_by_pair)
          × (calls_of name (reconcile o w s).1 ≡ calls_of name s)
    reconcile-Unchanged s u =
        reconcile-keeps o w (Waiting s) (λ t. Unchanged name s t → Same s t)
          (λ t h. record {
            runners = h.runners;
            prints = h.prints;
            calls = h.calls;
            distinct = h.distinct;
          })
          (λ a t. Waiting-wait s t _ (handle_all-SameJobs o w.failing (w.during t.ticks a) t))
          (adopt-Waiting s) (apply-Same s) (λ t h same. Waiting-Same s t h) s
          (record { runners = refl; prints = refl; calls = refl; distinct = u })

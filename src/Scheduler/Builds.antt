-- ===== src/Scheduler/Builds.antt =====
-- What becomes of each desired pair while a pass builds runners.
use qlabs_catalog_sync.Prelude.{
  ◌≡◌, refl, ap, inl, inr, false, List, [], ◌∷◌, String, Option, none, some, Result, ok, err, arith,
  Bool-cases, ◌==◌, string_eq, option_eq, contains,
}
use qlabs_catalog_sync.Prelude.Dict
use qlabs_catalog_sync.Prelude.Dict.{Dict, NodupKeys, lookup-cons}
use qlabs_catalog_sync.Scheduler.Types.{PairRunner, PairPlan, Scheduler, Options}
use qlabs_catalog_sync.Scheduler.Reconcile.{
  Outside, Built, building, settle, build_all, is_applied, is_backed_off, keep_built, wait,
}
use qlabs_catalog_sync.Scheduler.Frame.{
  SameJobs, SameJobs-trans, handle_all-SameJobs, settle-SameJobs,
}

abbrev pub planned : Option (PairPlan × PairRunner) → Option PairPlan
planned none = none
planned (some (plan, runner)) = some plan

-- Each runner is that of its own pair.
abbrev pub AllNamed : Built → Type 0
AllNamed [] = Unit
AllNamed ((name, (plan, r)) ∷ rest) = (r.pair.name ≡ name) × AllNamed rest

pub is_applied-SameJobs :
    {s s' : Scheduler} (name : String) (plan : PairPlan)
    → SameJobs s s'
    → is_applied name plan s' ≡ is_applied name plan s
unfolding is_applied
is_applied-SameJobs name plan h = ap (λ d. Dict.lookup name d == some plan.fingerprint) h.prints

module _ (o : Options) (w : Outside) where
  -- The state after the build of one pair was waited for.
  abbrev pub tried : String → PairPlan → Scheduler → Option PairRunner × Scheduler
  tried name plan s = settle o w name plan (w.factory s.ticks plan) (wait o w (building name) s)

  pub tried-SameJobs :
      (name : String) (plan : PairPlan) (s : Scheduler) → SameJobs s (tried name plan s).1
  tried-SameJobs name plan s =
      SameJobs-trans (handle_all-SameJobs o w.failing (w.during s.ticks (building name)) s)
        (settle-SameJobs o w name plan (w.factory s.ticks plan) _)

  pub build_all-absent :
      (name : String) (plans : Dict String PairPlan) (s : Scheduler)
      → Dict.lookup name plans ≡ none
      → Dict.lookup name (build_all o w plans s).0.0 ≡ none
  unfolding build_all Dict.lookup
  build_all-absent name [] s h = refl
  build_all-absent name ((other, plan) ∷ rest) s h =
      ground
        (arith, build_all-absent name rest s, build_all-absent name rest (tried other plan s).1)

  pub build_all-NodupKeys :
      (plans : Dict String PairPlan) (s : Scheduler)
      → NodupKeys plans
      → NodupKeys (build_all o w plans s).0.0
  unfolding build_all
  build_all-NodupKeys [] s u = tt
  build_all-NodupKeys ((name, plan) ∷ rest) s (fresh, u) = ground (
    arith,
    build_all-NodupKeys rest s u,
    build_all-NodupKeys rest (tried name plan s).1 u,
    build_all-absent name rest (tried name plan s).1 fresh,
  )

  -- A desired pair that is not applied is built or reported as failed.
  pub build_all-planned :
      (name : String) (plan : PairPlan) (plans : Dict String PairPlan) (s : Scheduler)
      → Dict.lookup name plans ≡ some plan
      → is_applied name plan s ≡ false
      → contains (build_all o w plans s).0.1 name ≡ false
      → planned (Dict.lookup name (build_all o w plans s).0.0) ≡ some plan
  unfolding build_all Dict.lookup
  build_all-planned name plan [] s h stale fine = absurd (cc (h))
  build_all-planned name plan ((other, p) ∷ rest) s h stale fine = ground (
    arith,
    build_all-planned name plan rest s,
    build_all-planned name plan rest (tried other p s).1,
    is_applied-SameJobs name plan (tried-SameJobs other p s),
  )

  settle-name :
      (name : String) (plan : PairPlan) (answer : Result String PairRunner) (s : Scheduler)
      (r : PairRunner)
      → (settle o w name plan answer s).0 ≡ some r
      → r.pair.name ≡ name
  unfolding settle
  settle-name name plan (err x) s r h = cc
  settle-name name plan (ok runner) s r h = ground arith

  -- What is built is desired and stale, and its runner has its name.
  pub build_all-Due :
      (name : String) (plan : PairPlan) (r : PairRunner) (plans : Dict String PairPlan)
      (s : Scheduler)
      → Dict.lookup name (build_all o w plans s).0.0 ≡ some (plan, r)
      → (is_applied name plan s ≡ false) × (r.pair.name ≡ name)
  unfolding build_all Dict.lookup
  build_all-Due name plan r [] s h = absurd (cc (h))
  build_all-Due name plan r ((other, p) ∷ rest) s h = ground (
    arith,
    settle-name other p (w.factory s.ticks p) (wait o w (building other) s) r,
    build_all-Due name plan r rest s,
    build_all-Due name plan r rest (tried other p s).1,
    is_applied-SameJobs name plan (tried-SameJobs other p s),
  )

  pub build_all-desired :
      (name : String) (plan : PairPlan) (plans : Dict String PairPlan) (s : Scheduler)
      → NodupKeys plans
      → planned (Dict.lookup name (build_all o w plans s).0.0) ≡ some plan
      → Dict.lookup name plans ≡ some plan
  unfolding build_all Dict.lookup
  build_all-desired name plan [] s u h = absurd (cc (h))
  build_all-desired name plan ((other, p) ∷ rest) s (fresh, u) h = ground (
    arith,
    build_all-desired name plan rest s u,
    build_all-desired name plan rest (tried other p s).1 u,
  )

  keep_built-AllNamed :
      (name : String) (plan : PairPlan) (answer : Option PairRunner) (out : Built × List String)
      → ((r : PairRunner) → answer ≡ some r → r.pair.name ≡ name)
      → AllNamed out.0
      → AllNamed (keep_built o w name plan answer out).0
  keep_built-AllNamed name plan none (built, failed) named h = h
  keep_built-AllNamed name plan (some r) (built, failed) named h = (named r refl, h)

  pub build_all-AllNamed :
      (plans : Dict String PairPlan) (s : Scheduler) → AllNamed (build_all o w plans s).0.0
  unfolding build_all
  build_all-AllNamed [] s = tt
  build_all-AllNamed ((name, plan) ∷ rest) s = elim (Bool-cases (is_applied name plan s)) [
    | inl applied ↦ rw applied (build_all-AllNamed rest s)
    | inr stale ↦ elim (Bool-cases (is_backed_off o w name s)) [
      | inl off ↦ rw (stale, off) (build_all-AllNamed rest s)
      | inr due ↦
          rw (stale, due)
            (keep_built-AllNamed name plan (tried name plan s).0 _
              (settle-name name plan (w.factory s.ticks plan) _) (build_all-AllNamed rest _))
    ]
  ]

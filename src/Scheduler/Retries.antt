-- ===== src/Scheduler/Retries.antt =====
-- What a pass does to the failure count and the backoff of one pair.
pub mod Passes
pub mod Clock
pub mod Liveness
pub mod Prompt
use qlabs_catalog_sync.Prelude.{
  ℕ, zero, suc, ◌+◌, ◌-◌, ◌^◌, ◌≤◌, ◌<◌, ◌≡◌, ◌≢◌, refl, sym, ap, ◌∙◌, subst, ◌⊎◌, inl, inr, Bool,
  true, false, not, ◌&&◌, List, [], ◌∷◌, String, Option, none, some, Result, ok, err, arith,
  Bool-cases, ◌==◌, string_eq, contains, is_none, if◌then◌else◌, ltb,
}
use qlabs_catalog_sync.Prelude.Dict
use qlabs_catalog_sync.Prelude.Dict.{Dict, NodupKeys, lookup-insert, lookup-erase}
use qlabs_catalog_sync.Scheduler.Types.{PairRunner, PairPlan, Scheduler, Options}
use qlabs_catalog_sync.Scheduler.Fires.{
  Event, began, ended, stopped, cancelled, handle, handle_all, forget, begin_fire, end_fire,
  leave_fire, record_outcome, get_or_zero,
}
use qlabs_catalog_sync.Scheduler.Jobs.{schedule_job, drop_job}
use qlabs_catalog_sync.Scheduler.Reconcile.{
  Outside, Built, building, settle, build_all, record_build_failure, report_broken, install,
  install_all, withdraw, remove_each, is_applied, is_backed_off, is_wanted, wait, backoff_of,
  retry_backoff_tick_cap,
}
use qlabs_catalog_sync.Scheduler.Frame.{SameJobs, handle_all-SameJobs}
use qlabs_catalog_sync.Scheduler.Builds.{
  build_all-absent, tried, tried-SameJobs, is_applied-SameJobs,
}
use qlabs_catalog_sync.Scheduler.Passes.{withdraw-is_wanted}

abbrev pub failures_of : String → Scheduler → ℕ
failures_of name s = get_or_zero (Dict.lookup name s.build_failures)

abbrev pub due_of : String → Scheduler → ℕ
due_of name s = get_or_zero (Dict.lookup name s.retry_at)

two_pow_pos : (n : ℕ) → 1 ≤ 2 ^ n
two_pow_pos zero = omega arith
two_pow_pos (suc n) = omega (arith, two_pow_pos n)

pub backoff_of_bounds : (failures : ℕ) → (1 ≤ backoff_of failures) × (backoff_of failures ≤ 32)
unfolding backoff_of
backoff_of_bounds failures =
    (ground (arith, two_pow_pos (failures - 1), two_pow_pos 16), ground arith)

-- The count and the backoff of the pair are what they were.
pub record Unmoved (name : String) (s s' : Scheduler) : Type 0 where
  pub failures : failures_of name s' ≡ failures_of name s
  pub due : due_of name s' ≡ due_of name s

pub Unmoved-trans :
    {name : String} {a b c : Scheduler} → Unmoved name a b → Unmoved name b c → Unmoved name a c
Unmoved-trans h k = record { failures = k.failures ∙ h.failures; due = k.due ∙ h.due }

module _ (o : Options) (name : String) where
  handle-Unmoved :
      (reason : ℕ → String) (e : Event) (s : Scheduler) → Unmoved name s (handle o reason e s)
  unfolding handle begin_fire end_fire leave_fire record_outcome forget
  handle-Unmoved reason (began r) s = record { failures = refl; due = refl }
  handle-Unmoved reason (ended other failed) s = record {
    failures = ground arith;
    due = ground arith;
  }
  handle-Unmoved reason (cancelled other) s = record { failures = ground arith; due = ground arith }
  handle-Unmoved reason stopped s = record { failures = refl; due = refl }

  pub handle_all-Unmoved :
      (reason : ℕ → String) (es : List Event) (s : Scheduler)
      → Unmoved name s (handle_all o reason es s)
  unfolding handle_all
  handle_all-Unmoved reason [] s = record { failures = refl; due = refl }
  handle_all-Unmoved reason (e ∷ es) s =
      Unmoved-trans (handle-Unmoved reason e s) (handle_all-Unmoved reason es _)

  module _ (w : Outside) where
    settle-Unmoved :
        (other : String) (plan : PairPlan) (answer : Result String PairRunner) (s : Scheduler)
        → (name == other) ≡ false
        → Unmoved name s (settle o w other plan answer s).1
    unfolding settle record_build_failure report_broken
    settle-Unmoved other plan (err x) s h =
        let failures = failures_of other s + 1 in
        record {
          failures = ground (arith, h, lookup-insert name other failures s.build_failures);
          due =
              ground
                (arith, h, lookup-insert name other (s.ticks + backoff_of failures) s.retry_at);
        }
    settle-Unmoved other plan (ok r) s h =
        let failures = failures_of other s + 1 in
        record {
          failures = ground (arith, h, lookup-insert name other failures s.build_failures);
          due =
              ground
                (arith, h, lookup-insert name other (s.ticks + backoff_of failures) s.retry_at);
        }

    settle-failures :
        (plan : PairPlan) (answer : Result String PairRunner) (s : Scheduler)
        → (settle o w name plan answer s).0 ≡ none
        → failures_of name (settle o w name plan answer s).1 ≡ failures_of name s + 1
    unfolding settle record_build_failure report_broken
    settle-failures plan (err x) s h =
        ground (arith, lookup-insert name name (failures_of name s + 1) s.build_failures)
    settle-failures plan (ok r) s h =
        ground (arith, h, lookup-insert name name (failures_of name s + 1) s.build_failures)

    tried-Unmoved :
        (other : String) (plan : PairPlan) (s : Scheduler)
        → (name == other) ≡ false
        → Unmoved name s (tried o w other plan s).1
    tried-Unmoved other plan s h =
        Unmoved-trans (handle_all-Unmoved w.failing (w.during s.ticks (building other)) s)
          (settle-Unmoved other plan (w.factory s.ticks plan) _ h)

    -- A build that is tried gives a runner, or one more failure.
    tried-failures :
        (plan : PairPlan) (s : Scheduler)
        → (tried o w name plan s).0 ≡ none
        → failures_of name (tried o w name plan s).1 ≡ failures_of name s + 1
    tried-failures plan s h =
        settle-failures plan (w.factory s.ticks plan) _ h
        ∙ ap (λ (n : ℕ). n + 1)
            (handle_all-Unmoved w.failing (w.during s.ticks (building name)) s).failures

    backed_off-same :
        (other : String) (plan : PairPlan) (s : Scheduler)
        → (name == other) ≡ false
        → is_backed_off o w name (tried o w other plan s).1 ≡ is_backed_off o w name s
    unfolding is_backed_off
    backed_off-same other plan s h =
        let same = tried-SameJobs o w other plan s in
        let kept = tried-Unmoved other plan s h in rw (same.ticks, kept.due) refl

    -- A pair that is not in the list is not moved.
    build_all-outside :
        (plans : Dict String PairPlan) (s : Scheduler)
        → Dict.lookup name plans ≡ none
        → Unmoved name s (build_all o w plans s).1
    unfolding build_all Dict.lookup
    build_all-outside [] s h = record { failures = refl; due = refl }
    build_all-outside ((other, p) ∷ rest) s h = ground (
      arith,
      build_all-outside rest s,
      build_all-outside rest (tried o w other p s).1,
      tried-Unmoved other p s,
    )

    -- A pair that is backed off is not moved, and not built.
    pub build_all-waits :
        (plan : PairPlan) (plans : Dict String PairPlan) (s : Scheduler)
        → NodupKeys plans
        → Dict.lookup name plans ≡ some plan
        → is_backed_off o w name s ≡ true
        → Unmoved name s (build_all o w plans s).1
          × (Dict.lookup name (build_all o w plans s).0.0 ≡ none)
    unfolding build_all Dict.lookup
    build_all-waits plan [] s u h off = absurd (cc (h))
    build_all-waits plan ((other, p) ∷ rest) s (fresh, u) h off = ground (
      arith,
      build_all-waits plan rest s u,
      build_all-waits plan rest (tried o w other p s).1 u,
      build_all-outside rest s,
      build_all-absent o w name rest s,
      tried-Unmoved other p s,
      backed_off-same other p s,
    )

    -- A stale pair that is due is built, or counts one more failure.
    pub build_all-tries :
        (plan : PairPlan) (plans : Dict String PairPlan) (s : Scheduler)
        → NodupKeys plans
        → Dict.lookup name plans ≡ some plan
        → is_applied name plan s ≡ false
        → is_backed_off o w name s ≡ false
        → Dict.lookup name (build_all o w plans s).0.0 ≡ none
        → failures_of name (build_all o w plans s).1 ≡ failures_of name s + 1
    unfolding build_all Dict.lookup
    build_all-tries plan [] s u h stale due missing = absurd (cc (h))
    build_all-tries plan ((other, p) ∷ rest) s (fresh, u) h stale due missing = ground (
      arith,
      build_all-tries plan rest s u,
      build_all-tries plan rest (tried o w other p s).1 u,
      build_all-outside rest (tried o w name p s).1,
      tried-failures p s,
      tried-Unmoved other p s,
      backed_off-same other p s,
      is_applied-SameJobs name plan (tried-SameJobs o w other p s),
    )

-- ===== src/Scheduler/Retries/Passes.antt =====
-- A pair whose build failed is tried again after at most 32 passes.
use qlabs_catalog_sync.Prelude.{
  ℕ, ◌+◌, ◌≡◌, ◌≢◌, refl, sym, ap, ◌∙◌, ◌⊎◌, inl, inr, true, false, not, List, [], ◌∷◌, String,
  Option, none, some, Result, ok, arith, ◌==◌, string_eq, nat_eq, option_eq, All,
}
use mathlib.Core.Option.{some-injective}
use qlabs_catalog_sync.Prelude.Dict
use qlabs_catalog_sync.Prelude.Dict.{Dict, NodupKeys, lookup-insert, lookup-erase}
use qlabs_catalog_sync.Prelude.Dict.Quantify.{any-lookup}
use qlabs_catalog_sync.Scheduler.Types.{PairRunner, PairPlan, Scheduler, Options}
use qlabs_catalog_sync.Scheduler.Fires.{
  Event, began, ended, stopped, cancelled, handle, handle_all, forget, begin_fire, end_fire,
  leave_fire, record_outcome,
}
use qlabs_catalog_sync.Scheduler.Jobs.{schedule_job, drop_job}
use qlabs_catalog_sync.Scheduler.Reconcile.{
  Outside, Await, Built, probing, install, install_all, withdraw, remove_each, apply_removals,
  apply, apply_unless_stopping, reconcile, diverged, is_applied, is_backed_off, is_wanted, wait,
  probed,
}
use qlabs_catalog_sync.Scheduler.Frame.{handle_all-SameJobs}
use qlabs_catalog_sync.Scheduler.Builds.{is_applied-SameJobs, build_all-desired, planned}
use qlabs_catalog_sync.Scheduler.Passes.{withdraw-is_wanted}
use qlabs_catalog_sync.Scheduler.Stages.{
  apply-prints, built_by, after_builds, after_builds-is_wanted, desired-is_wanted,
}
use qlabs_catalog_sync.Scheduler.Retries.{
  Unmoved, Unmoved-trans, failures_of, build_all-waits, build_all-tries,
}

-- No await of any pass sees `shutdown`.
abbrev pub IsQuiet : Outside → Type 0
IsQuiet w = (t : ℕ) (a : Await) → All (λ e. e ≢ stopped) (w.during t a)

withdraw-Unmoved :
    (name other : String) (s : Scheduler)
    → (name == other) ≡ false
    → Unmoved name s (withdraw other s)
unfolding withdraw forget drop_job
withdraw-Unmoved name other s h = record {
  failures = ground (arith, h, lookup-erase name other s.build_failures);
  due = ground (arith, h, lookup-erase name other s.retry_at);
}

remove_each-Unmoved :
    (name : String) (rs : Dict String PairRunner) (s : Scheduler)
    → is_wanted name s ≡ true
    → Unmoved name s (remove_each rs s).1
unfolding remove_each
remove_each-Unmoved name [] s h = record { failures = refl; due = refl }
remove_each-Unmoved name ((other, r) ∷ rest) s h = ground (
  arith,
  remove_each-Unmoved name rest s,
  remove_each-Unmoved name rest (withdraw other s),
  withdraw-is_wanted name other s,
  withdraw-Unmoved name other s,
)

module _ (o : Options) where
  install_all-Unmoved :
      (name : String) (built : Built) (s : Scheduler)
      → Dict.lookup name built ≡ none
      → Unmoved name s (install_all o built s).1
  unfolding install_all install schedule_job drop_job Dict.lookup
  install_all-Unmoved name [] s h = record { failures = refl; due = refl }
  install_all-Unmoved name ((other, (plan, r)) ∷ rest) s h = ground (
    arith,
    h,
    install_all-Unmoved name rest (install o other plan r s),
    lookup-erase name other s.build_failures,
    lookup-erase name other s.retry_at,
  )

  handle-stopping :
      (reason : ℕ → String) (e : Event) (s : Scheduler)
      → e ≢ stopped
      → (handle o reason e s).stopping ≡ s.stopping
  unfolding handle begin_fire end_fire leave_fire record_outcome forget
  handle-stopping reason (began r) s h = refl
  handle-stopping reason (ended name failed) s h = ground arith
  handle-stopping reason (cancelled name) s h = ground arith
  handle-stopping reason stopped s h = absurd (h refl)

  pub handle_all-stopping :
      (reason : ℕ → String) (es : List Event) (s : Scheduler)
      → All (λ e. e ≢ stopped) es
      → (handle_all o reason es s).stopping ≡ s.stopping
  unfolding handle_all
  handle_all-stopping reason [] s h = refl
  handle_all-stopping reason (e ∷ es) s (h, hs) =
      handle_all-stopping reason es (handle o reason e s) hs ∙ handle-stopping reason e s h

  module _ (w : Outside) (name : String) (plan : PairPlan) where
    stale-diverged :
        (s : Scheduler)
        → Dict.lookup name s.desired ≡ some plan
        → is_applied name plan s ≡ false
        → diverged s ≡ true
    unfolding diverged
    stale-diverged s h stale =
        ground (arith, stale, any-lookup (λ (n, p). not (is_applied n p s)) s.desired name plan)

    -- A pass in the steady state, where the generation has not moved.
    abbrev pub probed_at : Scheduler → Scheduler
    probed_at s = wait o w probing (record s { ticks = s.ticks + 1 })

    pub is_applied-steady :
        (s : Scheduler) → is_applied name plan (probed_at s) ≡ is_applied name plan s
    unfolding is_applied
    is_applied-steady s =
        let begun : Scheduler = record s { ticks = s.ticks + 1 } in
        is_applied-SameJobs name plan
          (handle_all-SameJobs o w.failing (w.during begun.ticks probing) begun)

    probed-steady :
        (g : ℕ) (s : Scheduler)
        → s.generation ≡ some g
        → diverged s ≡ true
        → s.stopping ≡ false
        → (probed o w (ok g) s).1 ≡ (apply o w g false s).1
    unfolding apply_unless_stopping
    probed-steady g s at div live = ground (arith, at, div, live)

    pub reconcile-steady :
        (g : ℕ) (s : Scheduler)
        → IsQuiet w
        → s.stopping ≡ false
        → s.generation ≡ some g
        → w.on_generation (s.ticks + 1) ≡ ok g
        → Dict.lookup name s.desired ≡ some plan
        → is_applied name plan s ≡ false
        → (reconcile o w s).1 ≡ (apply o w g false (probed_at s)).1
    unfolding reconcile
    reconcile-steady g s quiet live at answers wanted stale =
        let begun : Scheduler = record s { ticks = s.ticks + 1 } in
        let same = handle_all-SameJobs o w.failing (w.during begun.ticks probing) begun in
        ap (λ (r : Result String ℕ). (probed o w r (probed_at s)).1) answers
        ∙ probed-steady g (probed_at s) (same.generation ∙ at)
            (stale-diverged (probed_at s) (ap (Dict.lookup name) same.desired ∙ wanted)
              (is_applied-steady s ∙ stale))
            (handle_all-stopping w.failing _ begun (quiet begun.ticks probing) ∙ live)

    still-stale :
        (g : ℕ) (s : Scheduler)
        → NodupKeys s.desired
        → Dict.lookup name s.desired ≡ some plan
        → is_applied name plan s ≡ false
        → Dict.lookup name (built_by o w s) ≡ none
        → is_applied name plan (apply o w g false s).1 ≡ false
    unfolding is_applied
    still-stale g s u wanted stale missing =
        let kept = desired-is_wanted o w name plan s wanted in
        ap (λ f. f == some plan.fingerprint)
          (apply-prints o w name g false s u ∙ rw (missing, kept) (ground arith))
        ∙ stale

    pub apply-waits :
        (g : ℕ) (s : Scheduler)
        → NodupKeys s.desired
        → Dict.lookup name s.desired ≡ some plan
        → is_applied name plan s ≡ false
        → is_backed_off o w name s ≡ true
        → Unmoved name s (apply o w g false s).1
          × (is_applied name plan (apply o w g false s).1 ≡ false)
    unfolding apply apply_removals
    apply-waits g s u wanted stale off =
        let (kept, missing) = build_all-waits o name w plan s.desired s u wanted off in
        let removed =
          remove_each-Unmoved name _ (after_builds o w s)
            (after_builds-is_wanted o w name s ∙ desired-is_wanted o w name plan s wanted) in
        (
          Unmoved-trans (Unmoved-trans kept removed)
              (install_all-Unmoved name (built_by o w s) _ missing),
          still-stale g s u wanted stale missing,
        )

    installed :
        (g : ℕ) (s : Scheduler) (p : PairPlan) (r : PairRunner)
        → NodupKeys s.desired
        → Dict.lookup name s.desired ≡ some plan
        → Dict.lookup name (built_by o w s) ≡ some (p, r)
        → Dict.lookup name s.desired ≡ some p
        → is_applied name plan (apply o w g false s).1 ≡ true
    unfolding is_applied
    installed g s p r u wanted e same =
        ground (arith, apply-prints o w name g false s u, some-injective p plan (sym same ∙ wanted))

    pub apply-tries :
        (g : ℕ) (s : Scheduler)
        → NodupKeys s.desired
        → Dict.lookup name s.desired ≡ some plan
        → is_applied name plan s ≡ false
        → is_backed_off o w name s ≡ false
        → (is_applied name plan (apply o w g false s).1 ≡ true)
          ⊎ (failures_of name (apply o w g false s).1 ≡ failures_of name s + 1)
    unfolding apply apply_removals
    apply-tries g s u wanted stale due = go (Dict.lookup name (built_by o w s)) refl
      where
        go :
            (found : Option (PairPlan × PairRunner))
            → Dict.lookup name (built_by o w s) ≡ found
            → (is_applied name plan (apply o w g false s).1 ≡ true)
              ⊎ (failures_of name (apply o w g false s).1 ≡ failures_of name s + 1)
        go none missing =
            let removed =
              remove_each-Unmoved name _ (after_builds o w s)
                (after_builds-is_wanted o w name s ∙ desired-is_wanted o w name plan s wanted) in
            inr (
              (install_all-Unmoved name (built_by o w s) _ missing).failures
              ∙ removed.failures
              ∙ build_all-tries o name w plan s.desired s u wanted stale due missing)
        go (some (p, r)) e =
            let same = build_all-desired o w name p s.desired s u (ap planned e) in
            inl (installed g s p r u wanted e same)

-- ===== src/Scheduler/Convergence.antt =====
-- A pass that applies the configuration leaves nothing undone but what it reports as failed.
use qlabs_catalog_sync.Prelude.{
  ℕ, ◌+◌, ◌≡◌, ◌≢◌, refl, sym, ap, ◌∙◌, subst, Bool, true, false, not, List, [], ◌∷◌, String,
  Option, none, some, Result, ok, err, arith, ◌==◌, string_eq, nat_eq, option_eq, contains,
  ok-injective, if◌then◌else◌,
}
use mathlib.Core.Option.{some-injective}
use qlabs_catalog_sync.Prelude.Dict
use qlabs_catalog_sync.Prelude.Dict.{Dict, NodupKeys, contains-keys, insert-NodupKeys}
use qlabs_catalog_sync.Prelude.Dict.Quantify.{any-lookup, lookup-any, any-keys, keys-any}
use qlabs_catalog_sync.Scheduler.Types.{
  PairRunner, PairPlan, PairLoadFailure, ConfigSnapshot, ReconcileResult, Scheduler, Options,
}
use qlabs_catalog_sync.Scheduler.Reconcile.{
  Outside, probing, loading, build_all, apply, adopt, apply_unless_stopping, reconcile, diverged,
  is_applied, is_wanted, wait, plans_by_name, loaded, probed, report_failures, report_broken,
  untouched,
}
use qlabs_catalog_sync.Scheduler.Frame.{handle_all-SameJobs}
use qlabs_catalog_sync.Scheduler.Passes.{print_after}
use qlabs_catalog_sync.Scheduler.Builds.{planned, build_all-desired, build_all-planned}
use qlabs_catalog_sync.Scheduler.Stages.{
  built_by, apply-prints, apply-runners, apply-desired, apply-is_wanted, desired-is_wanted,
}

-- Every desired pair has the job of its plan, unless it is among those that failed; and a pair
-- that is neither desired nor unreadable has none.
pub record IsCurrent (failed : List String) (s : Scheduler) : Type 0 where
  pub applied :
      (name : String) (plan : PairPlan)
      → Dict.lookup name s.desired ≡ some plan
      → contains failed name ≡ false
      → is_applied name plan s ≡ true
  pub wanted : (name : String) → Dict.lookup name s.runners_by_pair ≢ none → is_wanted name s ≡ true

module _ (o : Options) where
  module _ (w : Outside) where
    apply-failed :
        (generation : ℕ) (reloaded : Bool) (s : Scheduler)
        → (apply o w generation reloaded s).0.failed ≡ (build_all o w s.desired s).0.1
    unfolding apply
    apply-failed generation reloaded s = refl

    -- The fingerprint of a desired pair that was built, or was applied before.
    apply-print :
        (name : String) (plan : PairPlan) (s : Scheduler)
        → NodupKeys s.desired
        → Dict.lookup name s.desired ≡ some plan
        → contains (build_all o w s.desired s).0.1 name ≡ false
        → print_after (Dict.lookup name (built_by o w s)) (Dict.lookup name s.fingerprints)
          ≡ some plan.fingerprint
    unfolding is_applied
    apply-print name plan s u h fine = go (Dict.lookup name (built_by o w s)) refl
      where
        go :
            (found : Option (PairPlan × PairRunner))
            → Dict.lookup name (built_by o w s) ≡ found
            → print_after found (Dict.lookup name s.fingerprints) ≡ some plan.fingerprint
        go none e = ground (arith, build_all-planned o w name plan s.desired s h, ap planned e)
        go (some (p, r)) e =
            ap (λ (x : PairPlan). some x.fingerprint)
              (some-injective p plan
                (sym (build_all-desired o w name p s.desired s u (ap planned e)) ∙ h))

    apply-wanted :
        (name : String) (generation : ℕ) (reloaded : Bool) (s : Scheduler)
        → NodupKeys s.desired
        → Dict.lookup name (apply o w generation reloaded s).1.runners_by_pair ≢ none
        → is_wanted name s ≡ true
    apply-wanted name generation reloaded s u present = go (Dict.lookup name (built_by o w s)) refl
      where
        go :
            (found : Option (PairPlan × PairRunner))
            → Dict.lookup name (built_by o w s) ≡ found
            → is_wanted name s ≡ true
        go none e = ground (
          arith,
          e,
          apply-runners o w name generation reloaded s u,
          contains-keys s.runners_by_pair name,
        )
        go (some (p, r)) e =
            desired-is_wanted o w name p s
              (build_all-desired o w name p s.desired s u (ap planned e))

    pub apply-IsCurrent :
        (generation : ℕ) (reloaded : Bool) (s : Scheduler)
        → NodupKeys s.desired
        → IsCurrent (apply o w generation reloaded s).0.failed (apply o w generation reloaded s).1
    unfolding is_applied
    apply-IsCurrent generation reloaded s u = record {
      applied = λ name plan h fine.
          let h' = sym (ap (Dict.lookup name) (apply-desired o w generation reloaded s)) ∙ h in
          let kept = desired-is_wanted o w name plan s h' in
          let fine' =
            sym (ap (λ (l : List String). contains l name) (apply-failed generation reloaded s))
            ∙ fine in
          ground (
            arith,
            apply-prints o w name generation reloaded s u,
            apply-print name plan s u h' fine',
          );
      wanted = λ name present.
          apply-is_wanted o w name generation reloaded s
          ∙ apply-wanted name generation reloaded s u present;
    }

  undiverged-IsCurrent : (s : Scheduler) → diverged s ≡ false → IsCurrent [] s
  unfolding diverged
  undiverged-IsCurrent s h = record {
    applied = λ name plan found fine.
        let stale =
          any-lookup (λ (n, p). not (is_applied n p s)) s.desired name plan (ground arith) found in
        ground arith;
    wanted = λ name present.
        let odd =
          any-keys (λ n. not (is_wanted n s)) s.runners_by_pair name (ground arith) present in
        ground arith;
  }

  pub IsCurrent-undiverged :
      (s : Scheduler) → NodupKeys s.desired → IsCurrent [] s → diverged s ≡ false
  unfolding diverged
  IsCurrent-undiverged s u h =
      let stale =
        lookup-any (λ (n, p). not (is_applied n p s)) s.desired u
          (λ n p found. rw (h.applied n p found refl) refl) in
      let odd =
        keys-any (λ n. not (is_wanted n s)) s.runners_by_pair
          (λ n present. rw (h.wanted n present) refl) in
      ground arith

  module _ (w : Outside) where
    pub plans_by_name-NodupKeys :
        (plans : List PairPlan) (d : Dict String PairPlan)
        → NodupKeys d
        → NodupKeys (plans_by_name o w plans d)
    plans_by_name-NodupKeys [] d u = u
    plans_by_name-NodupKeys (p ∷ ps) d u =
        plans_by_name-NodupKeys ps (Dict.insert p.pair.name p d)
          (insert-NodupKeys p.pair.name p d u)

    report_failures-desired :
        (fs : List PairLoadFailure) (s : Scheduler) → (report_failures o w fs s).desired ≡ s.desired
    unfolding report_broken
    report_failures-desired [] s = refl
    report_failures-desired (f ∷ fs) s =
        report_failures-desired fs (report_broken f.pair f.reason s)

    pub adopt-NodupKeys :
        (generation : ℕ) (snapshot : ConfigSnapshot) (s : Scheduler)
        → NodupKeys (adopt o w generation snapshot s).desired
    unfolding adopt
    adopt-NodupKeys generation snapshot s =
        subst NodupKeys (sym (report_failures-desired snapshot.failures _))
          (plans_by_name-NodupKeys snapshot.plans [] tt)

    -- What an answer of a pass says of the state that it leaves.
    abbrev Current : Result String ReconcileResult × Scheduler → Type 0
    Current out =
        (r : ReconcileResult) → out.0 ≡ ok r → out.1.stopping ≡ false → IsCurrent r.failed out.1

    current : (r : ReconcileResult) (s : Scheduler) → IsCurrent r.failed s → Current (ok r, s)
    current r s h r' same going =
        subst (λ (x : ReconcileResult). IsCurrent x.failed s) (ok-injective same) h

    apply_unless_stopping-Current :
        (generation : ℕ) (reloaded : Bool) (s : Scheduler)
        → NodupKeys s.desired
        → Current (apply_unless_stopping o w generation reloaded s)
    unfolding apply_unless_stopping
    apply_unless_stopping-Current generation reloaded s u = go s.stopping refl
      where
        go :
            (halted : Bool)
            → s.stopping ≡ halted
            → Current (
                if halted
                then (ok (untouched o w generation reloaded), s)
                else (ok (apply o w generation reloaded s).0, (apply o w generation reloaded s).1))
        go true halted = λ r same going. absurd (cc (halted, going))
        go false live = current _ _ (apply-IsCurrent w generation reloaded s u)

    loaded-Current :
        (generation : ℕ) (answer : Result String ConfigSnapshot) (s : Scheduler)
        → Current (loaded o w generation answer s)
    loaded-Current generation (err x) s = λ r same going. absurd (cc (same))
    loaded-Current generation (ok snapshot) s =
        apply_unless_stopping-Current generation true _ (adopt-NodupKeys generation snapshot s)

    probed-Current :
        (answer : Result String ℕ) (s : Scheduler)
        → NodupKeys s.desired
        → Current (probed o w answer s)
    probed-Current (err x) s u = λ r same going. absurd (cc (same))
    probed-Current (ok generation) s u = go (s.generation == some generation) (diverged s) refl
      where
        go :
            (same div : Bool)
            → diverged s ≡ div
            → Current (
                if not same
                then loaded o w generation (w.on_load s.ticks) (wait o w loading s)
                else if not div
                then (ok (untouched o w generation false), s)
                else apply_unless_stopping o w generation false s)
        go false div e = loaded-Current generation (w.on_load s.ticks) (wait o w loading s)
        go true false e = current _ s (undiverged-IsCurrent s e)
        go true true e = apply_unless_stopping-Current generation false s u

    -- A pass that answers, in a scheduler that is not stopping, leaves every desired pair with the
    -- job of its plan, unless it is reported as failed, and no job that nobody wants.
    pub reconcile-IsCurrent :
        (s : Scheduler) (r : ReconcileResult)
        → NodupKeys s.desired
        → (reconcile o w s).0 ≡ ok r
        → (reconcile o w s).1.stopping ≡ false
        → IsCurrent r.failed (reconcile o w s).1
    unfolding reconcile
    reconcile-IsCurrent s r u =
        let begun : Scheduler = record s { ticks = s.ticks + 1 } in
        let same = handle_all-SameJobs o w.failing (w.during begun.ticks probing) begun in
        probed-Current (w.on_generation begun.ticks) (wait o w probing begun)
          (subst NodupKeys (sym same.desired) u) r

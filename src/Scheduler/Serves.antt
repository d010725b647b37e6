-- ===== src/Scheduler/Serves.antt =====
-- A pass leaves each desired pair with a job whose runner the factory made for the pair's plan.
use qlabs_catalog_sync.Prelude.{
  ℕ, ◌≡◌, refl, sym, ap, ◌∙◌, subst, Bool, true, false, ◌||◌, List, [], ◌∷◌, String, Option, none,
  some, Result, ok, err, arith, ◌==◌, string_eq, nat_eq, option_eq, contains, is_none, Bool-cases,
  inl, inr,
}
use mathlib.Core.Option.{some-injective}
use qlabs_catalog_sync.Prelude.Dict
use qlabs_catalog_sync.Prelude.Dict.{Dict, NodupKeys}
use qlabs_catalog_sync.Scheduler.Types.{
  PairRunner, PairPlan, PairLoadFailure, ConfigSnapshot, ReconcileResult, Scheduler, Options,
}
use qlabs_catalog_sync.Scheduler.Reconcile.{
  Outside, Built, building, build_all, keep_built, settle, wait, apply, adopt, reconcile,
  is_applied, is_wanted, is_backed_off, report_failures, report_broken,
}
use qlabs_catalog_sync.Scheduler.Frame.{SameJobs, handle_all-SameJobs}
use qlabs_catalog_sync.Scheduler.Passes.{print_after, runner_after}
use qlabs_catalog_sync.Scheduler.Builds.{build_all-Due, tried}
use qlabs_catalog_sync.Scheduler.Stages.{built_by, survivor, apply-prints, apply-runners}
use qlabs_catalog_sync.Scheduler.Keeps.{reconcile-keeps}
use qlabs_catalog_sync.Scheduler.JobSet.{job_of, JobsMatch, reconcile-JobsMatch}
use qlabs_catalog_sync.Scheduler.Convergence.{reconcile-IsCurrent, adopt-NodupKeys}

-- The runner is one that the factory answered, for a plan of this fingerprint, and of this pair.
pub record IsMade (w : Outside) (name print : String) (r : PairRunner) : Type 0 where
  pub named : r.pair.name ≡ name
  pub plan : PairPlan
  pub tick : ℕ
  pub answered : w.factory tick plan ≡ ok r
  pub same_print : plan.fingerprint ≡ print

-- A pair with a fingerprint has a runner that was made for it.
unfoldable pub IsBuilt : Outside → Scheduler → Type 0
IsBuilt w s =
    (name print : String)
    → Dict.lookup name s.fingerprints ≡ some print
    → (r : PairRunner) × (Dict.lookup name s.runners_by_pair ≡ some r) × IsMade w name print r

pub SameJobs-IsBuilt : (w : Outside) {s s' : Scheduler} → SameJobs s s' → IsBuilt w s → IsBuilt w s'
unfolding IsBuilt
SameJobs-IsBuilt w same h name print found =
    let (r, kept, made) = h name print (sym (ap (Dict.lookup name) same.prints) ∙ found) in
    (r, ap (Dict.lookup name) same.runners ∙ kept, made)

module _ (o : Options) (w : Outside) where
  settle-answer :
      (name : String) (plan : PairPlan) (answer : Result String PairRunner) (s : Scheduler)
      (r : PairRunner)
      → (settle o w name plan answer s).0 ≡ some r
      → answer ≡ ok r
  unfolding settle
  settle-answer name plan (err x) s r h = absurd (cc (h))
  settle-answer name plan (ok runner) s r h = ground (arith, h)

  Answered : PairPlan → PairRunner → Type 0
  Answered plan r = (tick : ℕ) × (w.factory tick plan ≡ ok r)

  keep_built-answer :
      (name other : String) (plan p : PairPlan) (r : PairRunner) (answer : Option PairRunner)
      (out : Built × List String)
      → ((q : PairRunner) → answer ≡ some q → Answered p q)
      → (Dict.lookup name out.0 ≡ some (plan, r) → Answered plan r)
      → Dict.lookup name (keep_built o w other p answer out).0 ≡ some (plan, r)
      → Answered plan r
  unfolding Dict.lookup
  keep_built-answer name other plan p r none (built, failed) own rest h = rest h
  keep_built-answer name other plan p r (some q) (built, failed) own rest h =
      elim (Bool-cases (name == other)) [
        | inl same ↦
            let pair : (p, q) ≡ (plan, r) = some-injective (p, q) (plan, r) (rw same at h) in
            subst (λ (x : PairPlan × PairRunner). Answered x.0 x.1) pair (own q refl)
        | inr apart ↦ rest (rw apart at h)
      ]

  -- What is built is the factory's answer to its plan.
  build_all-answer :
      (name : String) (plan : PairPlan) (r : PairRunner) (plans : Dict String PairPlan)
      (s : Scheduler)
      → Dict.lookup name (build_all o w plans s).0.0 ≡ some (plan, r)
      → Answered plan r
  unfolding build_all Dict.lookup Answered
  build_all-answer name plan r [] s h = absurd (cc (h))
  build_all-answer name plan r ((other, p) ∷ rest) s h = elim (Bool-cases (is_applied other p s)) [
    | inl applied ↦ build_all-answer name plan r rest s (rw applied at h)
    | inr stale ↦ elim (Bool-cases (is_backed_off o w other s)) [
      | inl off ↦ build_all-answer name plan r rest s (rw (stale, off) at h)
      | inr due ↦
          let after = tried o w other p s in
          keep_built-answer name other plan p r after.0 (build_all o w rest after.1).0
            (λ q same. (
              s.ticks,
              settle-answer other p (w.factory s.ticks p) (wait o w (building other) s) q same,
            ))
            (build_all-answer name plan r rest after.1) (rw (stale, due) at h)
    ]
  ]

  apply-IsBuilt :
      (generation : ℕ) (reloaded : Bool) (s : Scheduler)
      → NodupKeys s.desired
      → IsBuilt w s
      → IsBuilt w (apply o w generation reloaded s).1
  unfolding IsBuilt Answered
  apply-IsBuilt generation reloaded s u h name print found =
      go (Dict.lookup name (built_by o w s)) refl
    where
      go :
          (b : Option (PairPlan × PairRunner))
          → Dict.lookup name (built_by o w s) ≡ b
          → (r : PairRunner) × (Dict.lookup name (apply o w generation reloaded s).1.runners_by_pair
              ≡ some r)
            × IsMade w name print r
      go none e =
          let kept : survivor o w name s (Dict.lookup name s.fingerprints) ≡ some print =
            sym (
              apply-prints o w name generation reloaded s u
              ∙ ap (λ b. print_after b (survivor o w name s (Dict.lookup name s.fingerprints))) e)
            ∙ found in
          let (r, held, made) = h name print (ground (arith, kept)) in
          (
            r,
            apply-runners o w name generation reloaded s u
                ∙ ap
                    (λ b. runner_after b (survivor o w name s (Dict.lookup name s.runners_by_pair)))
                    e
                ∙ ground (arith, kept, held),
            made,
          )
      go (some (p, r)) e =
          let (tick, answered) = build_all-answer name p r s.desired s e in
          (
            r,
            apply-runners o w name generation reloaded s u
                ∙ ap
                    (λ b. runner_after b (survivor o w name s (Dict.lookup name s.runners_by_pair)))
                    e,
            record {
              named = (build_all-Due o w name p r s.desired s e).1;
              plan = p;
              tick = tick;
              answered = answered;
              same_print = some-injective p.fingerprint print (
                  sym (
                    apply-prints o w name generation reloaded s u
                    ∙ ap
                        (λ b. print_after b (survivor o w name s (Dict.lookup name s.fingerprints)))
                        e)
                  ∙ found);
            },
          )

  report_failures-kept :
      (fs : List PairLoadFailure) (s : Scheduler)
      → ((report_failures o w fs s).fingerprints ≡ s.fingerprints)
        × ((report_failures o w fs s).runners_by_pair ≡ s.runners_by_pair)
  unfolding report_broken
  report_failures-kept [] s = (refl, refl)
  report_failures-kept (f ∷ fs) s = report_failures-kept fs (report_broken f.pair f.reason s)

  adopt-IsBuilt :
      (generation : ℕ) (snapshot : ConfigSnapshot) (s : Scheduler)
      → IsBuilt w s
      → IsBuilt w (adopt o w generation snapshot s)
  unfolding IsBuilt adopt
  adopt-IsBuilt generation snapshot s h name print found =
      let (prints, runners) = report_failures-kept snapshot.failures _ in
      let (r, held, made) = h name print (sym (ap (Dict.lookup name) prints) ∙ found) in
      (r, ap (Dict.lookup name) runners ∙ held, made)

  record IsReady (s : Scheduler) : Type 0 where
    distinct : NodupKeys s.desired
    built : IsBuilt w s

  reconcile-IsBuilt :
      (s : Scheduler) → NodupKeys s.desired → IsBuilt w s → IsBuilt w (reconcile o w s).1
  unfolding IsBuilt
  reconcile-IsBuilt s u h =
      reconcile-keeps o w IsReady (IsBuilt w)
        (λ s h. record { distinct = h.distinct; built = h.built })
        (λ a s h.
          let same = handle_all-SameJobs o w.failing (w.during s.ticks a) s in
          record {
            distinct = subst NodupKeys (sym same.desired) h.distinct;
            built = SameJobs-IsBuilt w same h.built;
          })
        (λ generation snapshot s h. record {
          distinct = adopt-NodupKeys o w generation snapshot s;
          built = adopt-IsBuilt generation snapshot s h.built;
        })
        (λ generation reloaded s h. apply-IsBuilt generation reloaded s h.distinct h.built)
        (λ s h. h.built) s (record { distinct = u; built = h })

  -- A pass that answers, in a scheduler that is not stopping, leaves each desired pair that it does
  -- not report as failed with a job: one whose runner is of that pair and was answered by the
  -- factory to a plan of the fingerprint that is desired. Any name that has a job is desired or
  -- unreadable. This holds for a pass from a state whose jobs match its runners and where each pair
  -- with a fingerprint has a runner that was made for it, and it leaves such a state.
  pub reconcile-serves :
      (s : Scheduler) (r : ReconcileResult) (name other : String) (plan : PairPlan)
      → NodupKeys s.desired
      → JobsMatch s
      → IsBuilt w s
      → (reconcile o w s).0 ≡ ok r
      → (reconcile o w s).1.stopping ≡ false
      → Dict.lookup name (reconcile o w s).1.desired ≡ some plan
      → contains r.failed name ≡ false
      → let s' = (reconcile o w s).1 in
        ((q : PairRunner) × (job_of name s'.job_calls ≡ some q) × IsMade w name plan.fingerprint q)
        × ((is_none (job_of other s'.job_calls) || is_wanted other s') ≡ true)
        × (JobsMatch s' × IsBuilt w s')
  unfolding IsBuilt is_applied
  reconcile-serves s r name other plan u matched built answered going desired fine =
      let now = reconcile-IsCurrent o w s r u answered going in
      let jobs = reconcile-JobsMatch o w s matched in
      let made = reconcile-IsBuilt s u built in
      let (q, held, of_plan) =
        made name plan.fingerprint (ground (arith, now.applied name plan desired fine)) in
      (
        (q, jobs.jobs name ∙ held, of_plan),
        ground (arith, jobs.jobs other, now.wanted other),
        (jobs, made),
      )

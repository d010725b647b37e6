-- ===== src/Scheduler/Retries/Liveness.antt =====
-- While the generation stays and nothing stops, a stale pair is tried within 32 passes.
use qlabs_catalog_sync.Prelude.{
  ℕ, zero, suc, ◌+◌, ◌≤◌, ◌≡◌, sym, ap, ◌∙◌, subst, ◌⊎◌, inl, inr, true, false, String, some, ok,
  arith, Bool-cases, string_eq, ltb→lt, ◌<◌,
}
use qlabs_catalog_sync.Prelude.Dict
use qlabs_catalog_sync.Prelude.Dict.{NodupKeys}
use qlabs_catalog_sync.Scheduler.Types.{PairPlan, Scheduler, Options}
use qlabs_catalog_sync.Scheduler.Reconcile.{
  Outside, probing, apply, reconcile, is_applied, is_backed_off,
}
use qlabs_catalog_sync.Scheduler.Frame.{handle_all-SameJobs}
use qlabs_catalog_sync.Scheduler.Stages.{apply-desired}
use qlabs_catalog_sync.Scheduler.Retries.{
  Unmoved, Unmoved-trans, failures_of, due_of, handle_all-Unmoved,
}
use qlabs_catalog_sync.Scheduler.Retries.Passes.{
  IsQuiet, apply-waits, apply-tries, reconcile-steady, is_applied-steady, probed_at,
}
use qlabs_catalog_sync.Scheduler.Retries.Clock.{handle_all-SameClock, apply-SameClock}
use qlabs_catalog_sync.Scheduler.Retries.Prompt.{IsPrompt}

module _ (o : Options) (w : Outside) where
  -- So many passes, one after the other.
  pub passes : ℕ → Scheduler → Scheduler
  passes zero s = s
  passes (suc k) s = passes k (reconcile o w s).1

  module _ (name : String) (plan : PairPlan) (g : ℕ) (quiet : IsQuiet w)
      (answers : (t : ℕ) → w.on_generation t ≡ ok g) where
    -- The pair is desired with this plan, its job is not the plan's, and the generation is known.
    record IsStale (s : Scheduler) : Type 0 where
      live : s.stopping ≡ false
      at : s.generation ≡ some g
      distinct : NodupKeys s.desired
      wanted : Dict.lookup name s.desired ≡ some plan
      stale : is_applied name plan s ≡ false

    probed-IsStale : (s : Scheduler) → IsStale s → IsStale (probed_at o w name plan s)
    probed-IsStale s h =
        let begun : Scheduler = record s { ticks = s.ticks + 1 } in
        let same = handle_all-SameJobs o w.failing (w.during begun.ticks probing) begun in
        let clock =
          handle_all-SameClock o w.failing (w.during begun.ticks probing) begun
            (quiet begun.ticks probing) in
        record {
          live = clock.stopping ∙ h.live;
          at = clock.generation ∙ h.at;
          distinct = subst NodupKeys (sym same.desired) h.distinct;
          wanted = ap (Dict.lookup name) same.desired ∙ h.wanted;
          stale = is_applied-steady o w name plan s ∙ h.stale;
        }

    probed-due : (s : Scheduler) → Unmoved name s (probed_at o w name plan s)
    probed-due s =
        let begun : Scheduler = record s { ticks = s.ticks + 1 } in
        let kept = handle_all-Unmoved o name w.failing (w.during begun.ticks probing) begun in
        record { failures = kept.failures; due = kept.due }

    probed-ticks : (s : Scheduler) → (probed_at o w name plan s).ticks ≡ s.ticks + 1
    probed-ticks s =
        let begun : Scheduler = record s { ticks = s.ticks + 1 } in
        (handle_all-SameJobs o w.failing (w.during begun.ticks probing) begun).ticks

    same-pass :
        (s : Scheduler)
        → IsStale s
        → (reconcile o w s).1 ≡ (apply o w g false (probed_at o w name plan s)).1
    same-pass s h =
        reconcile-steady o w name plan g s quiet h.live h.at (answers _) h.wanted h.stale

    -- What a pass does for the pair, seen from the state before it.
    record Deferred (s s' : Scheduler) : Type 0 where
      still : IsStale s'
      unmoved : Unmoved name s s'
      tick : s'.ticks ≡ s.ticks + 1

    deferred :
        (s : Scheduler)
        → IsStale s
        → is_backed_off o w name (probed_at o w name plan s) ≡ true
        → Deferred s (reconcile o w s).1
    deferred s h off =
        let p = probed-IsStale s h in
        let before = probed_at o w name plan s in
        let (kept, stale) = apply-waits o w name plan g before p.distinct p.wanted p.stale off in
        let clock = apply-SameClock o w quiet g false before in
        let desired = apply-desired o w g false before in
        subst (Deferred s) (sym (same-pass s h)) (record {
          still = record {
            live = clock.stopping ∙ p.live;
            at = clock.generation ∙ p.at;
            distinct = subst NodupKeys (sym desired) p.distinct;
            wanted = ap (Dict.lookup name) desired ∙ p.wanted;
            stale = stale;
          };
          unmoved = Unmoved-trans (probed-due s) kept;
          tick = clock.ticks ∙ probed-ticks s;
        })

    -- The pair has the job of its plan, or one failure more.
    abbrev pub Tried : ℕ → Scheduler → Type 0
    Tried failures s = (is_applied name plan s ≡ true) ⊎ (failures_of name s ≡ failures + 1)

    Tried-now :
        (s : Scheduler)
        → IsStale s
        → is_backed_off o w name (probed_at o w name plan s) ≡ false
        → Tried (failures_of name s) (reconcile o w s).1
    Tried-now s h due =
        let p = probed-IsStale s h in
        subst (Tried (failures_of name s)) (sym (same-pass s h)) (
          subst (λ (n : ℕ). Tried n (apply o w g false (probed_at o w name plan s)).1)
            (probed-due s).failures
            (apply-tries o w name plan g (probed_at o w name plan s) p.distinct p.wanted p.stale
              due))

    -- A pair that is still backed off is due after the next tick.
    off-later :
        (s : Scheduler)
        → is_backed_off o w name (probed_at o w name plan s) ≡ true
        → s.ticks + 1 < due_of name s
    unfolding is_backed_off
    off-later s off =
        let later : (probed_at o w name plan s).ticks < due_of name (probed_at o w name plan s) =
          ltb→lt _ _ off in
        omega (arith, later, probed-ticks s, (probed-due s).due)

    Tried-within :
        (k : ℕ) (s : Scheduler)
        → IsStale s
        → due_of name s ≤ s.ticks + 1 + k
        → (j : ℕ) × (j ≤ k) × Tried (failures_of name s) (passes (suc j) s)
    unfolding passes
    Tried-within zero s h soon =
        elim (Bool-cases (is_backed_off o w name (probed_at o w name plan s))) [
          | inl off ↦ absurd (omega (arith, off-later s off))
          | inr due ↦ (zero, omega arith, Tried-now s h due)
        ]
    Tried-within (suc k) s h soon =
        elim (Bool-cases (is_backed_off o w name (probed_at o w name plan s))) [
          | inr due ↦ (zero, omega arith, Tried-now s h due)
          | inl off ↦
              let d = deferred s h off in
              let (j, within, done) =
                Tried-within k (reconcile o w s).1 d.still (omega (arith, d.tick, d.unmoved.due)) in
              (
                suc j,
                omega arith,
                subst (λ (n : ℕ). Tried n (passes (suc (suc j)) s)) d.unmoved.failures done,
              )
        ]

    -- While the generation stays the same and nothing tells the scheduler to stop, a desired pair
    -- whose job is not that of its plan is not left alone: within 32 passes, from any state in
    -- which no retry is further off than the cap, it has that job or counts one more failed build.
    pub reconcile-retries :
        (s : Scheduler)
        → IsPrompt s
        → s.stopping ≡ false
        → s.generation ≡ some g
        → NodupKeys s.desired
        → Dict.lookup name s.desired ≡ some plan
        → is_applied name plan s ≡ false
        → (j : ℕ) × (j < 32)
          × ((is_applied name plan (passes (suc j) s) ≡ true)
              ⊎ (failures_of name (passes (suc j) s) ≡ failures_of name s + 1))
    reconcile-retries s prompt live at distinct wanted stale =
        let h : IsStale s = record {
          live = live;
          at = at;
          distinct = distinct;
          wanted = wanted;
          stale = stale;
        } in
        let (j, within, done) = Tried-within 31 s h (omega (arith, prompt.soon name)) in
        (j, omega arith, done)

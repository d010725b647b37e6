-- ===== src/Scheduler/Reachable.antt =====
-- The states that a scheduler reaches from `start`, by passes and by what happens between them.
use qlabs_catalog_sync.Prelude.{
  ℕ, ◌≡◌, ◌≢◌, refl, sym, ap, ◌∙◌, subst, List, [], ◌∷◌, String, Option, none, some, ok, arith,
  string_eq, is_none, All,
}
use qlabs_catalog_sync.Prelude.Dict
use qlabs_catalog_sync.Prelude.Dict.{Dict, NodupKeys}
use qlabs_catalog_sync.Prelude.Distinct.{first_repeat, DistinctBy, first_repeat-eq-none}
use qlabs_catalog_sync.Scheduler.Types.{PairRunner, Scheduler, Options, JobCall, add_job}
use qlabs_catalog_sync.Scheduler.Fires.{Event, handle, handle_all}
use qlabs_catalog_sync.Scheduler.Jobs.{
  schedule_job, schedule_all, start, initial, made, ConstructionError, jitter_for, make_scheduler,
  check_options, name_of, by_name, fresh_states,
}
use qlabs_catalog_sync.Scheduler.Reconcile.{Outside, reconcile}
use qlabs_catalog_sync.Scheduler.Frame.{handle-SameJobs}
use qlabs_catalog_sync.Scheduler.JobSet.{
  JobsMatch, job_of, NeverConflicts, reconcile-JobsMatch, SameJobs-JobsMatch,
}
use qlabs_catalog_sync.Scheduler.Settles.{reconcile-NodupKeys}
use qlabs_catalog_sync.Scheduler.Retries.Prompt.{IsPrompt, handle_all-IsPrompt, reconcile-IsPrompt}
use qlabs_catalog_sync.Scheduler.Accounts.{IsAccounted}
use qlabs_catalog_sync.Scheduler.Accounts.Pass.{handle-IsAccounted, reconcile-IsAccounted}

pub data Step (o : Options) : Scheduler → Scheduler → Type 0 where
  passed : (w : Outside) (s : Scheduler) → Step o s (reconcile o w s).1
  happened : (reason : ℕ → String) (e : Event) (s : Scheduler) → Step o s (handle o reason e s)

pub data Reach (o : Options) (s : Scheduler) : Scheduler → Type 0 where
  here : Reach o s s
  next : {t u : Scheduler} → Reach o s t → Step o t u → Reach o s u

abbrev or_else : Option PairRunner → Option PairRunner → Option PairRunner
or_else none other = other
or_else (some r) other = some r

absent :
    (name : String) (r : PairRunner) (rs : List PairRunner)
    → All (λ q. name_of r ≢ name_of q) rs
    → name ≡ name_of r
    → Dict.lookup name (by_name rs) ≡ none
unfolding Dict.lookup
absent name r [] h e = refl
absent name r (q ∷ rs) (h, hs) e = ground (arith, absent name r rs hs)

still_free :
    (r : PairRunner) (jitter : ℕ) (calls : List JobCall) (rs : List PairRunner)
    → All (λ q. name_of r ≢ name_of q) rs
    → All (λ q. job_of (name_of q) calls ≡ none) rs
    → All (λ q. job_of (name_of q) (add_job r jitter ∷ calls) ≡ none) rs
still_free r jitter calls [] h free = tt
still_free r jitter calls (q ∷ rs) (h, hs) (free, frees) =
    (ground arith, still_free r jitter calls rs hs frees)

All-free : (rs : List PairRunner) → All (λ q. job_of (name_of q) [] ≡ none) rs
All-free [] = tt
All-free (r ∷ rs) = (refl, All-free rs)

module _ (o : Options) where
  -- Every runner's job is added under a name that has none.
  schedule_all-jobs :
      (name : String) (rs : List PairRunner) (s : Scheduler)
      → DistinctBy name_of rs
      → job_of name (schedule_all o rs s).job_calls
        ≡ or_else (Dict.lookup name (by_name rs)) (job_of name s.job_calls)
  unfolding schedule_all schedule_job Dict.lookup
  schedule_all-jobs name [] s u = refl
  schedule_all-jobs name (r ∷ rs) s (fresh, u) =
      ground (arith, schedule_all-jobs name rs (schedule_job o r none s) u, absent name r rs fresh)

  schedule_all-fine :
      (rs : List PairRunner) (s : Scheduler)
      → DistinctBy name_of rs
      → All (λ q. job_of (name_of q) s.job_calls ≡ none) rs
      → NeverConflicts s.job_calls
      → NeverConflicts (schedule_all o rs s).job_calls
  unfolding schedule_all schedule_job
  schedule_all-fine [] s u free h = h
  schedule_all-fine (r ∷ rs) s (fresh, u) (free, frees) h =
      schedule_all-fine rs (schedule_job o r none s) u
        (still_free r (jitter_for o r.pair) s.job_calls rs fresh frees) (free, h)

  schedule_all-runners :
      (rs : List PairRunner) (s : Scheduler)
      → (schedule_all o rs s).runners_by_pair ≡ s.runners_by_pair
  unfolding schedule_all schedule_job
  schedule_all-runners [] s = refl
  schedule_all-runners (r ∷ rs) s = schedule_all-runners rs (schedule_job o r none s)

  start-JobsMatch : (distinct : DistinctBy name_of o.runners) → JobsMatch (start o (initial o))
  unfolding start
  start-JobsMatch distinct = record {
    jobs = λ name.
        schedule_all-jobs name o.runners (initial o) distinct
        ∙ or_else-none (Dict.lookup name (by_name o.runners))
        ∙ sym (ap (Dict.lookup name) (schedule_all-runners o.runners (initial o)));
    fine = schedule_all-fine o.runners (initial o) distinct (All-free o.runners) tt;
  }
    where
      or_else-none : (r : Option PairRunner) → or_else r none ≡ r
      or_else-none none = refl
      or_else-none (some r) = refl

  fresh_states-known :
      (name : String) (rs : List PairRunner)
      → is_none (Dict.lookup name (fresh_states rs)) ≡ is_none (Dict.lookup name (by_name rs))
  unfolding Dict.lookup
  fresh_states-known name [] = refl
  fresh_states-known name (r ∷ rs) = ground (arith, fresh_states-known name rs)

  schedule_all-IsAccounted :
      (rs : List PairRunner) (s : Scheduler) → IsAccounted s → IsAccounted (schedule_all o rs s)
  unfolding schedule_all schedule_job
  schedule_all-IsAccounted [] s h = h
  schedule_all-IsAccounted (r ∷ rs) s h =
      schedule_all-IsAccounted rs (schedule_job o r none s)
        (record { known = h.known; apart = h.apart; busy = h.busy })

  start-IsAccounted : IsAccounted (start o (initial o))
  unfolding start
  start-IsAccounted = schedule_all-IsAccounted o.runners (initial o) (record {
    known = λ name. ground (arith, fresh_states-known name o.runners);
    apart = λ name q. absurd (cc (q));
    busy = λ name q. absurd (cc (q));
  })

  schedule_all-desired :
      (rs : List PairRunner) (s : Scheduler) → (schedule_all o rs s).desired ≡ s.desired
  unfolding schedule_all schedule_job
  schedule_all-desired [] s = refl
  schedule_all-desired (r ∷ rs) s = schedule_all-desired rs (schedule_job o r none s)

  schedule_all-IsPrompt :
      (rs : List PairRunner) (s : Scheduler) → IsPrompt s → IsPrompt (schedule_all o rs s)
  unfolding schedule_all schedule_job
  schedule_all-IsPrompt [] s h = h
  schedule_all-IsPrompt (r ∷ rs) s h =
      schedule_all-IsPrompt rs (schedule_job o r none s) (record { soon = h.soon })

  -- What holds of every reachable state.
  record IsSound (s : Scheduler) : Type 0 where
    matched : JobsMatch s
    accounted : IsAccounted s
    distinct : NodupKeys s.desired
    prompt : IsPrompt s

  checked-distinct : check_options o ≡ none → first_repeat name_of [] o.runners ≡ none
  unfolding check_options
  checked-distinct h = ground arith

  made-ok :
      (refusal : Option ConstructionError) (s : Scheduler)
      → made o refusal ≡ ok s
      → (refusal ≡ none) × (initial o ≡ s)
  made-ok none s h = (refl, cc)
  made-ok (some e) s h = absurd (cc (h))

  start-IsSound : (s : Scheduler) → make_scheduler o ≡ ok s → IsSound (start o s)
  unfolding make_scheduler start Dict.lookup
  start-IsSound s h =
      let (passes, same) = made-ok (check_options o) s h in
      let distinct = (first_repeat-eq-none name_of o.runners).0 (checked-distinct passes) in
      subst (λ (x : Scheduler). IsSound (start o x)) same
        (record {
          matched = start-JobsMatch distinct;
          accounted = start-IsAccounted;
          distinct = subst NodupKeys (sym (schedule_all-desired o.runners (initial o))) tt;
          prompt =
              schedule_all-IsPrompt o.runners (initial o) (record { soon = λ name. ground arith });
        })

  Step-IsSound : {s t : Scheduler} → Step o s t → IsSound s → IsSound t
  unfolding handle_all
  Step-IsSound (passed w s) h = record {
    matched = reconcile-JobsMatch o w s h.matched;
    accounted = reconcile-IsAccounted o w s h.accounted;
    distinct = reconcile-NodupKeys o w s h.distinct;
    prompt = reconcile-IsPrompt o w s h.prompt;
  }
  Step-IsSound (happened reason e s) h = record {
    matched = SameJobs-JobsMatch (handle-SameJobs o reason e s) h.matched;
    accounted = handle-IsAccounted o reason e s h.accounted;
    distinct = subst NodupKeys (sym (handle-SameJobs o reason e s).desired) h.distinct;
    prompt = handle_all-IsPrompt o reason (e ∷ []) s h.prompt;
  }

  Reach-IsSound : {s t : Scheduler} → IsSound s → Reach o s t → IsSound t
  Reach-IsSound h here = h
  Reach-IsSound h (next r st) = Step-IsSound st (Reach-IsSound h r)

  module _ (s t : Scheduler) (built : make_scheduler o ≡ ok s) (r : Reach o (start o s) t) where
    -- In every state that a constructed and started scheduler reaches, each pair's job has the
    -- runner that is kept for the pair, a pair without a runner has no job, and no job was ever
    -- added under an id that was in use.
    pub reach-JobsMatch : JobsMatch t
    reach-JobsMatch = (Reach-IsSound (start-IsSound s built) r).matched

    -- In every state that a constructed and started scheduler reaches, failure counts are held for
    -- exactly the pairs that have a job and those that were withdrawn mid-cycle; of the latter a
    -- cycle is running.
    pub reach-IsAccounted : IsAccounted t
    reach-IsAccounted = (Reach-IsSound (start-IsSound s built) r).accounted

    pub reach-NodupKeys : NodupKeys t.desired
    reach-NodupKeys = (Reach-IsSound (start-IsSound s built) r).distinct

    -- In every such state each pair whose build failed is due again within 32 ticks.
    pub reach-IsPrompt : IsPrompt t
    reach-IsPrompt = (Reach-IsSound (start-IsSound s built) r).prompt

-- ===== src/Scheduler/Reconcile.antt =====
-- scheduler.py: `reconcile` and all that it calls.
use qlabs_catalog_sync.Prelude.{
  ℕ, ◌+◌, ◌-◌, ◌^◌, Bool, true, false, not, ◌||◌, List, [], ◌∷◌, String, Option, none, some, Result,
  ok, err, is_none, if◌then◌else◌, ltb, leb, ◌==◌, string_eq, nat_eq, option_eq, any,
}
use qlabs_catalog_sync.Prelude.Dict
use qlabs_catalog_sync.Prelude.Dict.{Dict}
use qlabs_catalog_sync.Prelude.Sort.{sort}
use qlabs_catalog_sync.Prelude.Text.{str_lt}
use qlabs_catalog_sync.Health.{mark_degraded}
use qlabs_catalog_sync.Scheduler.Types.{
  PairRunner, PairPlan, PairLoadFailure, ConfigSnapshot, ReconcileResult, Scheduler, Options,
}
use qlabs_catalog_sync.Scheduler.Fires.{
  Event, handle_all, marked, get_or_zero, discard, adjoin, is_running, forget,
}
use qlabs_catalog_sync.Scheduler.Jobs.{schedule_job, drop_job}

-- The awaits of a pass.
pub data Await : Type 0 where
  probing loading : Await
  building : String → Await

-- What answers a pass, by its tick, and what happens at its awaits. An error is its text.
pub record Outside : Type 0 where
  pub on_generation : ℕ → Result String ℕ
  pub on_load : ℕ → Result String ConfigSnapshot
  pub factory : ℕ → PairPlan → Result String PairRunner
  pub during : ℕ → Await → List Event
  -- the reasons that name a number of failures, or a runner of another pair
  pub failing : ℕ → String
  pub misnamed : String → String → String

abbrev pub retry_backoff_tick_cap : ℕ
retry_backoff_tick_cap = 32

abbrev min : ℕ → ℕ → ℕ
min a b = if leb a b then a else b

-- `min(2 ** min(failures - 1, 16), DEFAULT_RETRY_BACKOFF_TICK_CAP)`
unfoldable pub backoff_of : ℕ → ℕ
backoff_of failures = min (2 ^ min (failures - 1) 16) retry_backoff_tick_cap

unfoldable pub report_broken : String → String → Scheduler → Scheduler
report_broken name reason s = record s { health = marked (mark_degraded name reason) s.health }

unfoldable pub record_build_failure : String → String → Scheduler → Scheduler
record_build_failure name reason s =
    let failures = get_or_zero (Dict.lookup name s.build_failures) + 1 in
    report_broken name reason (record s {
      build_failures = Dict.insert name failures s.build_failures;
      retry_at = Dict.insert name (s.ticks + backoff_of failures) s.retry_at;
    })

abbrev setdefault : String → ℕ → Dict String ℕ → Dict String ℕ
setdefault name n d = if is_none (Dict.lookup name d) then Dict.insert name n d else d

unfoldable pub install : Options → String → PairPlan → PairRunner → Scheduler → Scheduler
install o name plan runner s =
    let dropped = drop_job name s in
    schedule_job o runner plan.jitter (record dropped {
      runners_by_pair = Dict.insert name runner s.runners_by_pair;
      fingerprints = Dict.insert name plan.fingerprint s.fingerprints;
      states = setdefault name 0 s.states;
      retired = discard name s.retired;
      build_failures = Dict.erase name s.build_failures;
      retry_at = Dict.erase name s.retry_at;
    })

unfoldable pub withdraw : String → Scheduler → Scheduler
withdraw name s =
    let dropped = drop_job name s in
    let s' : Scheduler = record dropped {
      runners_by_pair = Dict.erase name s.runners_by_pair;
      fingerprints = Dict.erase name s.fingerprints;
      build_failures = Dict.erase name s.build_failures;
      retry_at = Dict.erase name s.retry_at;
    } in
    if is_running name s' then record s' { retired = adjoin name s'.retired } else forget name s'

-- Whether the job of a desired pair was built from its plan.
unfoldable pub is_applied : String → PairPlan → Scheduler → Bool
is_applied name plan s = Dict.lookup name s.fingerprints == some plan.fingerprint

unfoldable pub is_wanted : String → Scheduler → Bool
is_wanted name s =
    not (is_none (Dict.lookup name s.desired)) || not (is_none (Dict.lookup name s.unreadable))

unfoldable pub diverged : Scheduler → Bool
diverged s =
    any (λ (name, plan). not (is_applied name plan s)) s.desired
    || any (λ (name, _). not (is_wanted name s)) s.runners_by_pair

abbrev pub Built : Type 0
Built = Dict String (PairPlan × PairRunner)

-- `list(self._runners_by_pair)` is read before anything is withdrawn.
unfoldable pub remove_each : Dict String PairRunner → Scheduler → List String × Scheduler
remove_each [] s = ([], s)
remove_each ((name, _) ∷ rest) s =
    let kept = remove_each rest s in
    let gone = remove_each rest (withdraw name s) in
    if is_wanted name s then kept else (name ∷ gone.0, gone.1)

unfoldable pub apply_removals : Scheduler → List String × Scheduler
apply_removals s = remove_each s.runners_by_pair s

abbrev pub tally : String → Bool → List String × List String → List String × List String
tally name true (added, updated) = (name ∷ added, updated)
tally name false (added, updated) = (added, name ∷ updated)

-- The names that gained a job, and those whose job was replaced.
unfoldable pub install_all : Options → Built → Scheduler → (List String × List String) × Scheduler
install_all o [] s = (([], []), s)
install_all o ((name, (plan, runner)) ∷ rest) s =
    let (names, s') = install_all o rest (install o name plan runner s) in
    (tally name (is_none (Dict.lookup name s.runners_by_pair)) names, s')

module _ (o : Options) (w : Outside) where
  abbrev pub wait : Await → Scheduler → Scheduler
  wait a s = handle_all o w.failing (w.during s.ticks a) s

  -- What a build that was waited for comes to: the runner, or none and the failure recorded.
  unfoldable pub settle :
      String → PairPlan → Result String PairRunner → Scheduler → Option PairRunner × Scheduler
  settle name plan (err reason) s = (none, record_build_failure name reason s)
  settle name plan (ok runner) s =
      if runner.pair.name == name
      then (some runner, s)
      else (none, record_build_failure name (w.misnamed runner.pair.name name) s)

  unfoldable pub is_backed_off : String → Scheduler → Bool
  is_backed_off name s = ltb s.ticks (get_or_zero (Dict.lookup name s.retry_at))

  abbrev pub keep_built :
      String → PairPlan → Option PairRunner → Built × List String → Built × List String
  keep_built name plan none (built, failed) = (built, name ∷ failed)
  keep_built name plan (some runner) (built, failed) = ((name, (plan, runner)) ∷ built, failed)

  unfoldable pub build_all : Dict String PairPlan → Scheduler → (Built × List String) × Scheduler
  build_all [] s = (([], []), s)
  build_all ((name, plan) ∷ rest) s =
      let (answer, s') = settle name plan (w.factory s.ticks plan) (wait (building name) s) in
      let skipped = build_all rest s in
      let tried = build_all rest s' in
      if is_applied name plan s
      then skipped
      else if is_backed_off name s
      then ((skipped.0.0, name ∷ skipped.0.1), skipped.1)
      else (keep_built name plan answer tried.0, tried.1)

  unfoldable pub apply : ℕ → Bool → Scheduler → ReconcileResult × Scheduler
  apply generation reloaded s =
      let ((built, failed), s1) = build_all s.desired s in
      let (removed, s2) = apply_removals s1 in
      let ((added, updated), s3) = install_all o built s2 in
      (
        record {
          generation = generation;
          reloaded = reloaded;
          added = added;
          updated = updated;
          removed = removed;
          failed = failed;
          unreadable = sort str_lt (Dict.keys s3.unreadable);
        },
        s3,
      )

  abbrev pub plans_by_name : List PairPlan → Dict String PairPlan → Dict String PairPlan
  plans_by_name [] d = d
  plans_by_name (p ∷ ps) d = plans_by_name ps (Dict.insert p.pair.name p d)

  abbrev pub reasons_by_name : List PairLoadFailure → Dict String String → Dict String String
  reasons_by_name [] d = d
  reasons_by_name (f ∷ fs) d = reasons_by_name fs (Dict.insert f.pair f.reason d)

  abbrev pub report_failures : List PairLoadFailure → Scheduler → Scheduler
  report_failures [] s = s
  report_failures (f ∷ fs) s = report_failures fs (report_broken f.pair f.reason s)

  unfoldable pub adopt : ℕ → ConfigSnapshot → Scheduler → Scheduler
  adopt generation snapshot s = report_failures snapshot.failures (record s {
    desired = plans_by_name snapshot.plans [];
    unreadable = reasons_by_name snapshot.failures [];
    generation = some generation;
    retry_at = [];
  })

  abbrev pub untouched : ℕ → Bool → ReconcileResult
  untouched generation reloaded = record {
    generation = generation;
    reloaded = reloaded;
    added = [];
    updated = [];
    removed = [];
    failed = [];
    unreadable = [];
  }

  unfoldable pub apply_unless_stopping :
      ℕ → Bool → Scheduler → Result String ReconcileResult × Scheduler
  apply_unless_stopping generation reloaded s =
      let (result, s') = apply generation reloaded s in
      if s.stopping then (ok (untouched generation reloaded), s) else (ok result, s')

  abbrev pub loaded :
      ℕ → Result String ConfigSnapshot → Scheduler → Result String ReconcileResult × Scheduler
  loaded generation (err x) s = (err x, s)
  loaded generation (ok snapshot) s =
      apply_unless_stopping generation true (adopt generation snapshot s)

  abbrev pub probed : Result String ℕ → Scheduler → Result String ReconcileResult × Scheduler
  probed (err x) s = (err x, s)
  probed (ok generation) s =
      if not (s.generation == some generation)
      then loaded generation (w.on_load s.ticks) (wait loading s)
      else if not (diverged s)
      then (ok (untouched generation false), s)
      else apply_unless_stopping generation false s

  -- A scheduler that was built without a source is refused by `reconcile`.
  unfoldable pub reconcile : Scheduler → Result String ReconcileResult × Scheduler
  reconcile s =
      let begun : Scheduler = record s { ticks = s.ticks + 1 } in
      probed (w.on_generation begun.ticks) (wait probing begun)

-- ===== src/Tests/Scheduler.antt =====
-- Two pairs: one with a job, one that the store adds.
use qlabs_catalog_sync.Prelude.{
  ℕ, ◌+◌, ◌<◌, ◌≡◌, refl, ◌⊎◌, true, false, ◌||◌, List, [], ◌∷◌, length, String, ◌<>◌, none, some,
  ok, err, is_none, arith, string_eq, ltb, suc, subst, if◌then◌else◌,
}
use mathlib.Core.Option.{some-injective}
use text.Mathlib.Text.{◌==◌ as string_beq}
use qlabs_catalog_sync.Prelude.Text.{str_lt}
use qlabs_catalog_sync.Scheduler.Reconcile.{
  adopt, apply, apply_removals, apply_unless_stopping, backoff_of, build_all, diverged, install,
  install_all, is_backed_off, is_wanted, record_build_failure, remove_each, report_broken, settle,
  withdraw,
}
use qlabs_catalog_sync.Scheduler.Jobs.{
  check_options, drop_job, jitter_for, jitter_seconds_for, schedule_all, schedule_job,
}
use qlabs_catalog_sync.Scheduler.Fires.{adjoin, discard, forget}
use qlabs_catalog_sync.Prelude.Sort.{sort}
use qlabs_catalog_sync.Prelude.{nat_eq, option_eq}
use qlabs_catalog_sync.Prelude.Distinct.{first_repeat}
use qlabs_catalog_sync.Health.{mark_degraded, mark_healthy}
use native.Mathlib.Decide.{ℕ_discrete}
use qlabs_catalog_sync.Prelude.Dict
use qlabs_catalog_sync.Prelude.Dict.{NodupKeys}
use qlabs_catalog_sync.Scheduler.JobSet.{JobsMatch, job_of}
use qlabs_catalog_sync.Scheduler.Accounts.{IsAccounted}
use qlabs_catalog_sync.Scheduler.Serves.{IsMade, IsBuilt, reconcile-serves}
use qlabs_catalog_sync.Scheduler.Settles.{reconcile-settles}
use qlabs_catalog_sync.Scheduler.Isolation.{Unchanged, calls_of, reconcile-Unchanged}
use qlabs_catalog_sync.Scheduler.Degraded.{Agrees, is_degraded, handle_all-Agrees}
use qlabs_catalog_sync.Scheduler.Body.{
  has_returned, has_raised, Fire, run_pair_body, run_entities, run_entity, finish,
}
use qlabs_catalog_sync.Scheduler.Runs.{running, cycles, onto, run_pair_body-covers}
use qlabs_catalog_sync.Scheduler.Retries.{failures_of}
use qlabs_catalog_sync.Scheduler.Retries.Liveness.{passes, reconcile-retries}
use qlabs_catalog_sync.Scheduler.Reachable.{
  here, next, passed, happened, reach-JobsMatch, reach-IsAccounted, reach-NodupKeys, reach-IsPrompt,
}
use qlabs_catalog_sync.Models.{
  EntityType, EntityType-discrete, entity_type_eq, data_product, dataset,
}
use qlabs_catalog_sync.Sync.Settings.{ok_status, failed_status}
use qlabs_catalog_sync.Scheduler.Types.{
  SyncPairConfig, PairRunner, PairPlan, ReconcileResult, Scheduler, Options,
}
use qlabs_catalog_sync.Scheduler.Fires.{Event, began, ended, stopped, handle, handle_all}
use qlabs_catalog_sync.Scheduler.Jobs.{make_scheduler, start, initial}
use qlabs_catalog_sync.Scheduler.Reconcile.{
  Outside, probing, loading, building, reconcile, is_applied, untouched,
}

abbrev reason_of : ℕ → String
reason_of n = "consecutive failed sync cycles"

abbrev pair_of : String → SyncPairConfig
pair_of name = record {
  name = name;
  source = "unity";
  target = "qlik";
  cadence_seconds = 900;
  entity_types = data_product ∷ dataset ∷ [];
}

abbrev runner_of : String → ℕ → PairRunner
runner_of name identity = record { identity = identity; pair = pair_of name }

abbrev plan_of : String → String → PairPlan
plan_of name print = record {
  pair = pair_of name;
  selection_rules = record {
    object_rules = [];
    dataset_rules = [];
    object_overrides = [];
    dataset_overrides = [];
  };
  fingerprint = print;
  jitter = none;
}

abbrev options : Options
options = record {
  runners = runner_of "a" 1 ∷ [];
  has_health = true;
  jitter_fraction = 100;
  jitter_cap = 60000;
  degraded_after = 3;
  has_source = true;
  has_factory = true;
  reconcile_interval = 5;
}

-- The store declares both pairs, of generation 7, and every runner builds.
abbrev serving : Outside
serving = record {
  on_generation = λ t. ok 7;
  on_load = λ t. ok (record { plans = plan_of "a" "f1" ∷ plan_of "b" "f2" ∷ []; failures = [] });
  factory = λ t p. ok (record { identity = 10; pair = p.pair });
  during = λ t a. [];
  failing = reason_of;
  misnamed = λ got asked. got <> asked;
}

abbrev ready : Scheduler
ready = start options (initial options)

ready-made : make_scheduler options ≡ ok (initial options)
unfolding make_scheduler check_options first_repeat string_eq
ready-made = refl

abbrev converged : Scheduler
converged = (reconcile options serving ready).1

-- What the first pass answers.
abbrev first_result : ReconcileResult
first_result = record {
  generation = 7;
  reloaded = true;
  added = "b" ∷ [];
  updated = "a" ∷ [];
  removed = [];
  failed = [];
  unreadable = [];
}

converged-facts :
    ((reconcile options serving ready).0 ≡ ok first_result)
    × (Dict.lookup "b" converged.runners_by_pair ≡ some (runner_of "b" 10))
    × (converged.stopping ≡ false)
    × (converged.generation ≡ some 7)
unfolding reconcile start handle_all is_applied Dict.lookup Dict.insert Dict.keys string_eq
    option_eq sort schedule_all schedule_job drop_job apply_unless_stopping adopt apply install_all
    build_all is_backed_off settle install apply_removals is_wanted remove_each
converged-facts = (refl, refl, refl, refl)

ready-distinct : NodupKeys ready.desired
unfolding start schedule_all schedule_job
ready-distinct = tt

b-desired : Dict.lookup "b" converged.desired ≡ some (plan_of "b" "f2")
unfolding reconcile start handle_all is_applied Dict.lookup Dict.insert Dict.keys string_eq
    option_eq sort schedule_all schedule_job drop_job apply_unless_stopping adopt apply install_all
    build_all is_backed_off settle install apply_removals is_wanted remove_each
b-desired = refl

ready-IsBuilt : IsBuilt serving ready
unfolding IsBuilt start schedule_all schedule_job Dict.lookup
ready-IsBuilt name print found = absurd (cc (found))

reconcile-serves_example :
    ((q : PairRunner) × (job_of "b" converged.job_calls ≡ some q) × IsMade serving "b" "f2" q)
    × ((is_none (job_of "a" converged.job_calls) || is_wanted "a" converged) ≡ true)
    × (JobsMatch converged × IsBuilt serving converged)
reconcile-serves_example =
    reconcile-serves options serving ready first_result "b" "a" (plan_of "b" "f2") ready-distinct
      (reach-JobsMatch options (initial options) ready ready-made here) ready-IsBuilt
      converged-facts.0 converged-facts.2 b-desired refl

reconcile-settles_example :
    ((reconcile options serving converged).0 ≡ ok (untouched options serving 7 false))
    × ((reconcile options serving converged).1.runners_by_pair ≡ converged.runners_by_pair)
    × ((reconcile options serving converged).1.job_calls ≡ converged.job_calls)
reconcile-settles_example =
    reconcile-settles options serving serving ready first_result 7 ready-distinct converged-facts.0
      refl converged-facts.2 converged-facts.3 refl

-- Every runner of `b` fails to build.
abbrev broken : Outside
broken = record serving {
  factory = λ t p.
      if string_beq p.pair.name "b"
      then err "ConnectorError: gone"
      else ok (record { identity = 11; pair = p.pair });
}

converged-IsAccounted : IsAccounted converged
converged-IsAccounted =
    reach-IsAccounted options (initial options) converged ready-made
      (next here (passed serving ready))

reach-JobsMatch_example : JobsMatch converged
reach-JobsMatch_example =
    reach-JobsMatch options (initial options) converged ready-made
      (next here (passed serving ready))

reach-IsAccounted_example :
    IsAccounted (handle options reason_of (began (runner_of "a" 1)) converged)
reach-IsAccounted_example = reach-IsAccounted options (initial options) _ ready-made (
    next (next here (passed serving ready))
      (happened reason_of (began (runner_of "a" 1)) converged))

-- The second generation changes the plan of `b` only, and `a` is left alone.
abbrev edited : Outside
edited = record serving {
  on_generation = λ t. ok 8;
  on_load = λ t. ok (record { plans = plan_of "a" "f1" ∷ plan_of "b" "f3" ∷ []; failures = [] });
}

a-Unchanged : Unchanged "a" converged (reconcile options edited converged).1
unfolding reconcile start handle_all is_applied Dict.lookup Dict.insert string_eq option_eq nat_eq
    schedule_all schedule_job drop_job apply_unless_stopping adopt apply install_all build_all
    is_backed_off settle install apply_removals is_wanted remove_each
a-Unchanged = (
  refl,
  λ plan found.
      subst (λ (x : PairPlan). is_applied "a" x converged ≡ true)
        (some-injective (plan_of "a" "f1") plan found) refl,
)

reconcile-Unchanged_example :
    (Dict.lookup "a" (reconcile options edited converged).1.runners_by_pair
      ≡ Dict.lookup "a" converged.runners_by_pair)
    × (calls_of "a" (reconcile options edited converged).1 ≡ calls_of "a" converged)
reconcile-Unchanged_example =
    reconcile-Unchanged options edited "a" converged
      (reach-NodupKeys options (initial options) converged ready-made
        (next here (passed serving ready)))
      a-Unchanged

-- Three failed fires in a row.
abbrev bad_day : List Event
bad_day =
    ended "a" false
    ∷ ended "a" true
    ∷ began (runner_of "a" 1)
    ∷ ended "b" false
    ∷ ended "a" true
    ∷ ended "a" true
    ∷ []

ready-Agrees : Agrees options "a" 0 ready
unfolding start Dict.lookup string_eq schedule_all schedule_job
ready-Agrees = record { count = refl; kept = refl; watched = refl; mark = refl }

handle_all-Agrees_example : Agrees options "a" 3 (handle_all options reason_of bad_day ready)
unfolding string_eq
handle_all-Agrees_example =
    handle_all-Agrees options reason_of "a" (omega arith) bad_day 0 ready ready-Agrees

-- The first entity type ends as FAILED, and closing the second one's run raises.
abbrev rough : Fire
rough = record {
  has_recorder = true;
  on_start = λ calls t. has_returned (length calls);
  on_cycle = λ calls t.
      if ltb (length calls) 3 then has_returned failed_status else has_returned ok_status;
  on_finish = λ calls t verdict.
      if ltb (length calls) 3 then has_returned tt else has_raised "OperationalError";
  on_fail = λ calls t reason. has_returned tt;
}

abbrev types : List EntityType
types = data_product ∷ dataset ∷ []

-- The second run stays RUNNING.
rough_left : running (run_pair_body rough types).calls ≡ dataset ∷ []
unfolding run_pair_body run_entities run_entity finish entity_type_eq EntityType-discrete
rough_left = refl

abbrev smooth : Fire
smooth = record rough { on_finish = λ calls t verdict. has_returned tt }

smooth-done : (run_pair_body smooth types).crashed ≡ false
unfolding run_pair_body run_entities run_entity finish
smooth-done = refl

run_pair_body-covers_example :
    (cycles (run_pair_body smooth types).calls ≡ onto types [])
    × (length (run_pair_body smooth types).statuses ≡ length types)
run_pair_body-covers_example = run_pair_body-covers smooth types smooth-done

-- `b` was asked for and failed; the generation stays.
abbrev without_b : Scheduler
without_b = (reconcile options broken ready).1

without_b-facts :
    (without_b.stopping ≡ false)
    × (without_b.generation ≡ some 7)
    × (Dict.lookup "b" without_b.desired ≡ some (plan_of "b" "f2"))
    × (is_applied "b" (plan_of "b" "f2") without_b ≡ false)
unfolding reconcile start handle_all is_applied Dict.lookup Dict.insert string_eq option_eq
    schedule_all schedule_job drop_job apply_unless_stopping adopt apply install_all build_all
    is_backed_off settle install apply_removals is_wanted record_build_failure remove_each
    report_broken
without_b-facts = (refl, refl, refl, refl)

reconcile-retries_example :
    (j : ℕ) × (j < 32)
    × ((is_applied "b" (plan_of "b" "f2") (passes options broken (suc j) without_b) ≡ true)
        ⊎ (failures_of "b" (passes options broken (suc j) without_b)
            ≡ failures_of "b" without_b + 1))
reconcile-retries_example =
    reconcile-retries options broken "b" (plan_of "b" "f2") 7 (λ t a. tt) (λ t. refl) without_b
      (reach-IsPrompt options (initial options) without_b ready-made
        (next here (passed broken ready)))
      without_b-facts.0 without_b-facts.1
      (reach-NodupKeys options (initial options) without_b ready-made
        (next here (passed broken ready)))
      without_b-facts.2 without_b-facts.3

-- `shutdown` is called while the runner of `b` is being built, and the job is added all the same.
abbrev interrupted : Outside
interrupted = record serving {
  during = λ t a. elim a [ probing ↦ [] | loading ↦ [] | building name ↦ stopped ∷ [] ];
}

added_while_stopping :
    ((reconcile options interrupted ready).1.stopping ≡ true)
    × (Dict.lookup "b" (reconcile options interrupted ready).1.runners_by_pair
        ≡ some (runner_of "b" 10))
unfolding reconcile handle start handle_all is_applied Dict.lookup Dict.insert string_eq option_eq
    nat_eq sort str_lt mark_degraded mark_healthy schedule_all schedule_job drop_job jitter_for
    jitter_seconds_for apply_unless_stopping adopt apply install_all build_all is_backed_off settle
    install apply_removals backoff_of diverged is_wanted record_build_failure remove_each
    report_broken withdraw adjoin discard forget ℕ_discrete
added_while_stopping = (refl, refl)

-- An unreadable pair that never had a job is deleted, and its mark stays degraded.
abbrev malformed : Outside
malformed = record serving {
  on_load =
      λ t. ok (record { plans = []; failures = record { pair = "c"; reason = "ValueError" } ∷ [] });
}

abbrev deleted : Outside
deleted = record serving {
  on_generation = λ t. ok 8;
  on_load = λ t. ok (record { plans = []; failures = [] });
}

degraded_for_good :
    is_degraded "c" (reconcile options deleted (reconcile options malformed ready).1).1.health
    ≡ true
unfolding reconcile start handle_all is_applied Dict.lookup Dict.insert Dict.erase Dict.keys
    string_eq option_eq nat_eq sort str_lt mark_degraded mark_healthy schedule_all schedule_job
    drop_job jitter_for jitter_seconds_for apply_unless_stopping adopt apply install_all build_all
    is_backed_off settle install apply_removals backoff_of diverged is_wanted record_build_failure
    remove_each report_broken withdraw adjoin discard forget ℕ_discrete
degraded_for_good = refl

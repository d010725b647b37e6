-- ===== src/Scheduler/Jobs.antt =====
-- scheduler.py: the constructor's refusals, `start`, and the calls that alter the job set.
use qlabs_catalog_sync.Prelude.{
  ℕ, ◌*◌, Bool, true, false, not, ◌&&◌, ◌||◌, List, [], ◌∷◌, map, String, Option, none, some,
  Result, ok, err, contains, if◌then◌else◌, ltb, leb, eqb, string_eq,
}
use qlabs_catalog_sync.Prelude.Dict.{Dict}
use qlabs_catalog_sync.Prelude.Distinct.{first_repeat}
use qlabs_catalog_sync.Scheduler.Types.{
  SyncPairConfig, PairRunner, remove_job, add_job, Scheduler, Options, is_nil,
}

abbrev pub reconcile_job_id : String
reconcile_job_id = "__reconcile__"

abbrev min : ℕ → ℕ → ℕ
min a b = if leb a b then a else b

-- `jitter_seconds_for`, in milliseconds, of a fraction in thousandths.
unfoldable pub jitter_seconds_for : ℕ → ℕ → ℕ → ℕ
jitter_seconds_for cadence fraction cap =
    if eqb cadence 0 || eqb fraction 0 then 0 else min (cadence * fraction) cap

unfoldable pub jitter_for : Options → SyncPairConfig → ℕ
jitter_for o pair = jitter_seconds_for pair.cadence_seconds o.jitter_fraction o.jitter_cap

abbrev override_or : ℕ → Option ℕ → ℕ
override_or computed none = computed
override_or computed (some jitter) = jitter

unfoldable pub schedule_job : Options → PairRunner → Option ℕ → Scheduler → Scheduler
schedule_job o r jitter s = record s {
  job_calls = add_job r (override_or (jitter_for o r.pair) jitter) ∷ s.job_calls;
}

unfoldable pub drop_job : String → Scheduler → Scheduler
drop_job name s = record s { job_calls = remove_job name ∷ s.job_calls }

pub data ConstructionError : Type 0 where
  source_without_factory no_runners reserved_name bad_degraded_after bad_interval :
      ConstructionError
  duplicate_pair : String → ConstructionError

abbrev pub name_of : PairRunner → String
name_of r = r.pair.name

abbrev pub same_bool : Bool → Bool → Bool
same_bool true b = b
same_bool false b = not b

-- The checks of `__init__`, in order. The refusal of a repeated name shows one of the names.
unfoldable pub check_options : Options → Option ConstructionError
check_options o =
    if not (same_bool o.has_source o.has_factory)
    then some source_without_factory
    else if is_nil o.runners && not o.has_source
    then some no_runners
    else elim (first_repeat name_of [] o.runners) [
      | some name ↦ some (duplicate_pair name)
      | none ↦
          if contains (map name_of o.runners) reconcile_job_id
          then some reserved_name
          else if ltb o.degraded_after 1
          then some bad_degraded_after
          else if eqb o.reconcile_interval 0
          then some bad_interval
          else none
    ]

abbrev pub by_name : List PairRunner → Dict String PairRunner
by_name [] = []
by_name (r ∷ rs) = (name_of r, r) ∷ by_name rs

abbrev pub fresh_states : List PairRunner → Dict String ℕ
fresh_states [] = []
fresh_states (r ∷ rs) = (name_of r, 0) ∷ fresh_states rs

abbrev pub initial : Options → Scheduler
initial o = record {
  stopping = false;
  states = fresh_states o.runners;
  runners_by_pair = by_name o.runners;
  fingerprints = [];
  desired = [];
  unreadable = [];
  running = [];
  retired = [];
  build_failures = [];
  retry_at = [];
  generation = none;
  ticks = 0;
  health = if o.has_health then some [] else none;
  job_calls = [];
}

abbrev pub made : Options → Option ConstructionError → Result ConstructionError Scheduler
made o none = ok (initial o)
made o (some refusal) = err refusal

unfoldable pub make_scheduler : Options → Result ConstructionError Scheduler
make_scheduler o = made o (check_options o)

-- `start`, which adds the jobs of the runners in order; the reconcile job is not a pair's.
unfoldable pub schedule_all : Options → List PairRunner → Scheduler → Scheduler
schedule_all o [] s = s
schedule_all o (r ∷ rs) s = schedule_all o rs (schedule_job o r none s)

unfoldable pub start : Options → Scheduler → Scheduler
start o s = schedule_all o o.runners s

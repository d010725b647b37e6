-- ===== src/Scheduler/Types.antt =====
-- scheduler.py: what the scheduler is given, what it keeps between fires, and what it answers.
use qlabs_catalog_sync.Prelude.{ℕ, Bool, true, false, not, ◌||◌, List, [], ◌∷◌, String, Option}
use qlabs_catalog_sync.Prelude.Dict.{Dict}
use qlabs_catalog_sync.Models.{EntityType}
use qlabs_catalog_sync.Selection.RuleSet.{SelectionRuleSet}
use qlabs_catalog_sync.Health.{HealthRegistry}

-- What the scheduler reads of a `SyncPairConfig`.
pub record SyncPairConfig : Type 0 where
  pub name : String
  pub source : String
  pub target : String
  pub cadence_seconds : ℕ
  pub entity_types : List EntityType

-- A runner is an object: two runners of one pair differ in their identity.
pub record PairRunner : Type 0 where
  pub identity : ℕ
  pub pair : SyncPairConfig

-- Seconds of jitter are counted in milliseconds.
pub record PairPlan : Type 0 where
  pub pair : SyncPairConfig
  pub selection_rules : SelectionRuleSet
  pub fingerprint : String
  pub jitter : Option ℕ

pub record PairLoadFailure : Type 0 where
  pub pair : String
  pub reason : String

pub record ConfigSnapshot : Type 0 where
  pub plans : List PairPlan
  pub failures : List PairLoadFailure

pub record ReconcileResult : Type 0 where
  pub generation : ℕ
  pub reloaded : Bool
  pub added : List String
  pub updated : List String
  pub removed : List String
  pub failed : List String
  pub unreadable : List String

abbrev pub is_nil {ℓ} : {A : Type ℓ} → List A → Bool
is_nil [] = true
is_nil (x ∷ xs) = false

-- `ReconcileResult.changed`
unfoldable pub changed : ReconcileResult → Bool
changed r = not (is_nil r.added) || not (is_nil r.updated) || not (is_nil r.removed)

-- The calls of the APScheduler object that alter its job set. An `add_job` carries the runner as
-- the job's argument; `remove_job` of an unknown id raises a JobLookupError, which is suppressed.
pub data JobCall : Type 0 where
  remove_job : String → JobCall
  add_job : PairRunner → ℕ → JobCall

-- The attributes of a `SyncScheduler` that change, the latest call of the job set first.
pub record Scheduler : Type 0 where
  pub stopping : Bool
  -- `_states`: the consecutive failures of each pair
  pub states : Dict String ℕ
  pub runners_by_pair : Dict String PairRunner
  pub fingerprints : Dict String String
  pub desired : Dict String PairPlan
  pub unreadable : Dict String String
  pub running : Dict String ℕ
  pub retired : List String
  pub build_failures : Dict String ℕ
  pub retry_at : Dict String ℕ
  pub generation : Option ℕ
  pub ticks : ℕ
  pub health : Option HealthRegistry
  pub job_calls : List JobCall

-- The arguments of the constructor that do not change; the fraction is in thousandths.
pub record Options : Type 0 where
  pub runners : List PairRunner
  pub has_health : Bool
  pub jitter_fraction : ℕ
  pub jitter_cap : ℕ
  pub degraded_after : ℕ
  pub has_source : Bool
  pub has_factory : Bool
  pub reconcile_interval : ℕ

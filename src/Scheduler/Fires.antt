-- ===== src/Scheduler/Fires.antt =====
-- scheduler.py: how a fire begins and ends, and what its outcome does to the pair's health.
use qlabs_catalog_sync.Prelude.{
  ℕ, ◌+◌, ◌-◌, Bool, true, false, not, List, [], ◌∷◌, String, Option, none, some, contains, filter,
  if◌then◌else◌, ltb, leb, ◌==◌, string_eq,
}
use qlabs_catalog_sync.Prelude.Dict
use qlabs_catalog_sync.Prelude.Dict.{Dict}
use qlabs_catalog_sync.Health.{HealthRegistry, mark_healthy, mark_degraded}
use qlabs_catalog_sync.Scheduler.Types.{PairRunner, Scheduler, Options}

-- `if self._health is not None`
abbrev pub marked :
    (HealthRegistry → HealthRegistry) → Option HealthRegistry → Option HealthRegistry
marked f none = none
marked f (some h) = some (f h)

abbrev pub get_or_zero : Option ℕ → ℕ
get_or_zero none = 0
get_or_zero (some n) = n

-- `set.discard`
unfoldable pub discard : String → List String → List String
discard name names = filter (λ other. not (name == other)) names

-- `set.add`
unfoldable pub adjoin : String → List String → List String
adjoin name names = if contains names name then names else name ∷ names

abbrev pub is_running : String → Scheduler → Bool
is_running name s = ltb 0 (get_or_zero (Dict.lookup name s.running))

unfoldable pub forget : String → Scheduler → Scheduler
forget name s = record s {
  states = Dict.erase name s.states;
  retired = discard name s.retired;
  running = Dict.erase name s.running;
  health = marked (mark_healthy name) s.health;
}

-- The health of a pair after its `failures`-th failed fire in a row.
abbrev degrade : Options → (ℕ → String) → String → ℕ → Option HealthRegistry → Option HealthRegistry
degrade o reason name failures h =
    if leb o.degraded_after failures then marked (mark_degraded name (reason failures)) h else h

abbrev pub outcome_of_known :
    Options → (ℕ → String) → String → Bool → Option ℕ → Scheduler → Scheduler
outcome_of_known o reason name failed none s = s
outcome_of_known o reason name true (some failures) s = record s {
  states = Dict.insert name (failures + 1) s.states;
  health = degrade o reason name (failures + 1) s.health;
}
outcome_of_known o reason name false (some failures) s = record s {
  states = Dict.insert name 0 s.states;
  health = marked (mark_healthy name) s.health;
}

-- A pair that is no longer known keeps no state.
unfoldable pub record_outcome : Options → (ℕ → String) → String → Bool → Scheduler → Scheduler
record_outcome o reason name failed s =
    outcome_of_known o reason name failed (Dict.lookup name s.states) s

-- `_run_pair` up to the first await of the fire.
unfoldable pub begin_fire : PairRunner → Scheduler → Scheduler
begin_fire r s = record s {
  running = Dict.insert r.pair.name (get_or_zero (Dict.lookup r.pair.name s.running) + 1) s.running;
}

abbrev pub running_or_one : Option ℕ → ℕ
running_or_one none = 1
running_or_one (some n) = n

-- The `finally` of `_run_pair`. The count before is at least one, so `- 1` is exact.
unfoldable pub leave_fire : String → Scheduler → Scheduler
leave_fire name s =
    let remaining = running_or_one (Dict.lookup name s.running) - 1 in
    if ltb 0 remaining
    then record s { running = Dict.insert name remaining s.running }
    else if contains s.retired name
    then forget name (record s { running = Dict.erase name s.running })
    else record s { running = Dict.erase name s.running }

-- From the outcome to the end of the fire there is no await.
unfoldable pub end_fire : Options → (ℕ → String) → String → Bool → Scheduler → Scheduler
end_fire o reason name failed s = leave_fire name (record_outcome o reason name failed s)

-- What may happen while the scheduler awaits: fires begin and end, `shutdown` of the started
-- scheduler is called, and a fire that outlasts its timeout is cancelled, which skips the outcome.
pub data Event : Type 0 where
  began : PairRunner → Event
  ended : String → Bool → Event
  stopped : Event
  cancelled : String → Event

unfoldable pub handle : Options → (ℕ → String) → Event → Scheduler → Scheduler
handle o reason (began r) s = begin_fire r s
handle o reason (ended name failed) s = end_fire o reason name failed s
handle o reason stopped s = record s { stopping = true }
handle o reason (cancelled name) s = leave_fire name s

unfoldable pub handle_all : Options → (ℕ → String) → List Event → Scheduler → Scheduler
handle_all o reason [] s = s
handle_all o reason (e ∷ es) s = handle_all o reason es (handle o reason e s)

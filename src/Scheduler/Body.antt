-- ===== src/Scheduler/Body.antt =====
-- scheduler.py: the body of one fire, every entity type in turn, with its run history.
use qlabs_catalog_sync.Prelude.{ℕ, Bool, true, false, ◌||◌, List, [], ◌∷◌, String, if◌then◌else◌}
use qlabs_catalog_sync.Models.{EntityType}
use qlabs_catalog_sync.Sync.Settings.{
  RunStatus, ok_status, partial_status, failed_status, skipped_status,
}

-- What comes of an awaited call. The last is the `CancelledError` of `task.cancel()` in `shutdown`,
-- which no `except Exception` catches.
pub data Awaited {ℓ} (A : Type ℓ) : Type ℓ where
  has_returned : A → Awaited A
  has_raised : String → Awaited A
  was_cancelled : Awaited A

pub data Ending : Type 0 where
  with_result with_error with_cancel : Ending

abbrev pub ending {ℓ} : {A : Type ℓ} → Awaited A → Ending
ending (has_returned a) = with_result
ending (has_raised reason) = with_error
ending was_cancelled = with_cancel

-- The calls of the recorder and of the runner, with how each ended. The row of a run is there when
-- its start has returned, and is written as closed when its finish or fail has.
pub data RunCall : Type 0 where
  start_run : EntityType → Ending → RunCall
  run_cycle : EntityType → Ending → RunCall
  finish_run : EntityType → RunStatus → Ending → RunCall
  fail_run : EntityType → String → Ending → RunCall

-- The recorder and the runner answer by the calls before, the latest first.
pub record Fire : Type 0 where
  pub has_recorder : Bool
  pub on_start : List RunCall → EntityType → Awaited ℕ
  pub on_cycle : List RunCall → EntityType → Awaited RunStatus
  pub on_finish : List RunCall → EntityType → RunStatus → Awaited (Unit {0})
  pub on_fail : List RunCall → EntityType → String → Awaited (Unit {0})

-- What the loop has come to: the statuses of the reports, latest first; whether the fire failed;
-- whether an exception ended the loop, and whether that was a cancellation, after which no outcome
-- is recorded.
pub record Progress : Type 0 where
  pub statuses : List RunStatus
  pub failed : Bool
  pub crashed : Bool
  pub cancelled : Bool
  pub calls : List RunCall

abbrev pub is_failed_status : RunStatus → Bool
is_failed_status ok_status = false
is_failed_status partial_status = false
is_failed_status failed_status = true
is_failed_status skipped_status = false

module _ (f : Fire) where
  abbrev log : RunCall → Progress → Progress
  log call p = record p { calls = call ∷ p.calls }

  -- `except Exception` of the whole loop.
  abbrev crash : Progress → Progress
  crash p = record p { failed = true; crashed = true }

  -- A cancellation passes every `except Exception`.
  abbrev cancel : Progress → Progress
  cancel p = record p { crashed = true; cancelled = true }

  -- The report of a closed run is kept, and a FAILED one is counted.
  abbrev report : RunStatus → Progress → Progress
  report verdict p = record p {
    statuses = verdict ∷ p.statuses;
    failed = p.failed || is_failed_status verdict;
  }

  abbrev closed : RunStatus → Awaited (Unit {0}) → Progress → Progress
  closed verdict (has_returned _) p = report verdict p
  closed verdict (has_raised _) p = crash p
  closed verdict was_cancelled p = cancel p

  -- `_finish_run`, of a runner that returned its report.
  unfoldable pub finish : EntityType → RunStatus → Progress → Progress
  finish t verdict p =
      let answer = f.on_finish p.calls t verdict in
      if f.has_recorder
      then closed verdict answer (log (finish_run t verdict (ending answer)) p)
      else report verdict p

  -- What the write raises is swallowed, and the cycle's own error is raised again.
  abbrev failed_run : Awaited (Unit {0}) → Progress → Progress
  failed_run (has_returned _) p = crash p
  failed_run (has_raised _) p = crash p
  failed_run was_cancelled p = cancel p

  -- `_fail_run`, of a runner that raised.
  unfoldable pub fail : EntityType → String → Progress → Progress
  fail t reason p =
      let answer = f.on_fail p.calls t reason in
      if f.has_recorder
      then failed_run answer (log (fail_run t reason (ending answer)) p)
      else crash p

  abbrev cycled : EntityType → Awaited RunStatus → Progress → Progress
  cycled t (has_returned verdict) p = finish t verdict p
  cycled t (has_raised reason) p = fail t reason p
  cycled t was_cancelled p = cancel p

  abbrev cycle : EntityType → Progress → Progress
  cycle t p =
      let answer = f.on_cycle p.calls t in cycled t answer (log (run_cycle t (ending answer)) p)

  -- `_begin_run` of a scheduler with a recorder.
  abbrev opened : EntityType → Awaited ℕ → Progress → Progress
  opened t (has_returned _) p = cycle t (log (start_run t with_result) p)
  opened t (has_raised _) p = crash (log (start_run t with_error) p)
  opened t was_cancelled p = cancel (log (start_run t with_cancel) p)

  -- One entity type.
  unfoldable pub run_entity : EntityType → Progress → Progress
  run_entity t p = if f.has_recorder then opened t (f.on_start p.calls t) p else cycle t p

  unfoldable pub run_entities : List EntityType → Progress → Progress
  run_entities [] p = p
  run_entities (t ∷ ts) p =
      let q = run_entity t p in let rest = run_entities ts q in if q.crashed then q else rest

  -- `_run_pair_body`: what it hands to `_record_outcome`, and the calls it made.
  unfoldable pub run_pair_body : List EntityType → Progress
  run_pair_body ts =
      run_entities ts
        (record { statuses = []; failed = false; crashed = false; cancelled = false; calls = [] })

-- ===== src/Scheduler/Runs.antt =====
-- Which runs a fire leaves open in the history, and that no report stops the others.
use qlabs_catalog_sync.Prelude.{
  ℕ, suc, ◌+◌, ◌≡◌, refl, ap, ◌∙◌, Bool, true, false, not, ◌||◌, ◌&&◌, List, [], ◌∷◌, arith,
  if◌then◌else◌, any, length, ◌==◌,
}
use qlabs_catalog_sync.Models.{EntityType, entity_type_eq}
use qlabs_catalog_sync.Scheduler.Body.{
  Ending, with_result, with_error, with_cancel, RunCall, start_run, run_cycle, finish_run, fail_run,
  Fire, Progress, is_failed_status, finish, fail, run_entity, run_entities, run_pair_body,
}

abbrev remove : EntityType → List EntityType → List EntityType
remove t [] = []
remove t (u ∷ us) = if t == u then us else u ∷ remove t us

-- The entity types whose run is RUNNING in the history after the calls, the latest call first.
abbrev pub running : List RunCall → List EntityType
running [] = []
running (start_run t with_result ∷ calls) = t ∷ running calls
running (start_run t with_error ∷ calls) = running calls
running (start_run t with_cancel ∷ calls) = running calls
running (run_cycle t end ∷ calls) = running calls
running (finish_run t verdict with_result ∷ calls) = remove t (running calls)
running (finish_run t verdict with_error ∷ calls) = running calls
running (finish_run t verdict with_cancel ∷ calls) = running calls
running (fail_run t reason with_result ∷ calls) = remove t (running calls)
running (fail_run t reason with_error ∷ calls) = running calls
running (fail_run t reason with_cancel ∷ calls) = running calls

abbrev pub unless_returned : EntityType → Ending → List EntityType
unless_returned t with_result = []
unless_returned t with_error = t ∷ []
unless_returned t with_cancel = t ∷ []

-- The run that the last call of a fire leaves without a close: a cycle that was cancelled, or a
-- close that did not return.
abbrev pub unclosed : List RunCall → List EntityType
unclosed [] = []
unclosed (start_run t end ∷ calls) = []
unclosed (run_cycle t with_result ∷ calls) = []
unclosed (run_cycle t with_error ∷ calls) = []
unclosed (run_cycle t with_cancel ∷ calls) = t ∷ []
unclosed (finish_run t verdict end ∷ calls) = unless_returned t end
unclosed (fail_run t reason end ∷ calls) = unless_returned t end

-- The entity types that were cycled, the latest first.
abbrev pub cycles : List RunCall → List EntityType
cycles [] = []
cycles (start_run t end ∷ calls) = cycles calls
cycles (run_cycle t end ∷ calls) = t ∷ cycles calls
cycles (finish_run t verdict end ∷ calls) = cycles calls
cycles (fail_run t reason end ∷ calls) = cycles calls

-- The list turned round onto another.
abbrev pub onto : List EntityType → List EntityType → List EntityType
onto [] acc = acc
onto (t ∷ ts) acc = onto ts (t ∷ acc)

-- What is left open is what the last call left without a close, and nothing while the loop goes on.
record IsClosed (recorded : Bool) (p : Progress) : Type 0 where
  left : running p.calls ≡ (if recorded then unclosed p.calls else [])
  none_left : p.crashed ≡ false → running p.calls ≡ []

abbrev how_ended : RunCall → Ending
how_ended (start_run t end) = end
how_ended (run_cycle t end) = end
how_ended (finish_run t verdict end) = end
how_ended (fail_run t reason end) = end

-- The call was cancelled; it did not return.
abbrev pub was_cut : RunCall → Bool
was_cut call = elim (how_ended call) [
  | with_result ↦ false
  | with_error ↦ false
  | with_cancel ↦ true
]

abbrev pub was_broken : RunCall → Bool
was_broken call = elim (how_ended call) [
  | with_result ↦ false
  | with_error ↦ true
  | with_cancel ↦ true
]

-- The flags are what the calls and the reports make them.
record IsHonest (p : Progress) : Type 0 where
  failure :
      p.failed
      ≡ (any was_broken p.calls && not (any was_cut p.calls) || any is_failed_status p.statuses)
  crash : p.crashed ≡ any was_broken p.calls
  cut : p.cancelled ≡ any was_cut p.calls
  uncut : (any was_cut p.calls && not (any was_broken p.calls)) ≡ false

module _ (f : Fire) where
  -- An entity type that does not crash the fire is cycled and reported.
  run_entity-cycles :
      (t : EntityType) (p : Progress)
      → (run_entity f t p).crashed ≡ false
      → (cycles (run_entity f t p).calls ≡ t ∷ cycles p.calls)
        × (length (run_entity f t p).statuses ≡ suc (length p.statuses))
  unfolding run_entity finish fail
  run_entity-cycles t p h = (ground arith, ground arith)

  run_entities-cycles :
      (ts : List EntityType) (p : Progress)
      → (run_entities f ts p).crashed ≡ false
      → (cycles (run_entities f ts p).calls ≡ onto ts (cycles p.calls))
        × (length (run_entities f ts p).statuses ≡ length ts + length p.statuses)
  unfolding run_entities
  run_entities-cycles [] p h = (refl, ground arith)
  run_entities-cycles (t ∷ ts) p h =
      go (run_entity f t p).crashed refl (run_entities-cycles ts (run_entity f t p)) h
    where
      rest : Progress
      rest = run_entities f ts (run_entity f t p)

      go :
          (dead : Bool)
          → (run_entity f t p).crashed ≡ dead
          → (rest.crashed ≡ false
              → (cycles rest.calls ≡ onto ts (cycles (run_entity f t p).calls))
                × (length rest.statuses ≡ length ts + length (run_entity f t p).statuses))
          → (if dead then run_entity f t p else rest).crashed ≡ false
          → (cycles (if dead then run_entity f t p else rest).calls ≡ onto ts (t ∷ cycles p.calls))
            × (length (if dead then run_entity f t p else rest).statuses
                ≡ suc (length ts) + length p.statuses)
      go true dead ih h = absurd (cc (dead, h))
      go false live ih h =
          let (here, one) = run_entity-cycles t p live in
          let (later, more) = ih h in
          (later ∙ ap (onto ts) here, more ∙ ap (λ (n : ℕ). length ts + n) one ∙ ground arith)

  -- Where nothing raises, a FAILED report does not stop the others: every entity type of the pair
  -- is cycled once, in order, and gives one report.
  pub run_pair_body-covers :
      (ts : List EntityType)
      → (run_pair_body f ts).crashed ≡ false
      → (cycles (run_pair_body f ts).calls ≡ onto ts [])
        × (length (run_pair_body f ts).statuses ≡ length ts)
  unfolding run_pair_body
  run_pair_body-covers ts h =
      let (order, many) = run_entities-cycles ts _ h in (order, many ∙ ground arith)

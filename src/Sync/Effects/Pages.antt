-- ===== src/Sync/Effects/Pages.antt =====
-- The effects of the loop over the pages and of the health checks before it.
use qlabs_catalog_sync.Prelude.{
  ℕ, zero, suc, Bool, true, false, if◌then◌else◌, List, [], ◌∷◌, String, none, some, Result, ok,
  err, nat_eq,
}
use qlabs_catalog_sync.Models.{EntityType}
use qlabs_catalog_sync.Changes.{ChangeRef, Watermark}
use qlabs_catalog_sync.Sync.Settings.{
  Settings, Endpoints, Side, source, target, healthcheck, list_changed, RecordReport,
}
use qlabs_catalog_sync.Sync.Cycle.{Cycle, Raised, ◌>>=◌}
use qlabs_catalog_sync.Sync.Keeps.{Keeps, bind-Keeps, continue-Keeps, call_with-Keeps}
use qlabs_catalog_sync.Sync.Process.{process}
use qlabs_catalog_sync.Changes.{ListChangedResult}
use qlabs_catalog_sync.Sync.Calls.{call_list_changed, preflight_check, check_health, quarantine_if}
use qlabs_catalog_sync.Sync.Run.{
  Progress, Turn, note_record, noted, start_page, finish_page, turned, listed, run_page, run_pages,
}
use qlabs_catalog_sync.Sync.Effects.{Steps}
use qlabs_catalog_sync.Sync.Effects.Record.{if-Keeps}
use qlabs_catalog_sync.Sync.Effects.Process.{process-Keeps}

module _ (R : Cycle → Cycle → Type 0) (casefold : String → String) (s : Settings) (e : Endpoints)
    (steps : Steps R s e) where
  noted-Keeps :
      (rest : Progress → Cycle → Turn) (p : Progress) (c : Cycle)
      (out : Result Raised RecordReport × Cycle)
      → R c out.1
      → ((q : Progress) (c1 : Cycle) → R c1 (rest q c1).1)
      → R c (noted rest p out).1
  noted-Keeps rest p c (ok r, c1) h k = steps.order.join c c1 _ h (k (note_record r p) c1)
  noted-Keeps rest p c (err x, c1) h k = h

  run_page-Keeps :
      (t : EntityType) (changes : List ChangeRef) (p : Progress) (c : Cycle)
      → R c (run_page casefold s e t changes p c).1
  unfolding run_page
  run_page-Keeps t [] p c = steps.order.same c
  run_page-Keeps t (change ∷ changes) p c =
      noted-Keeps (run_page casefold s e t changes) p c (process casefold s e change t c)
        (process-Keeps R casefold s e steps change t c) (run_page-Keeps t changes)

  turned-Keeps :
      (again : Progress → Cycle → Turn) (page : ListChangedResult) (c : Cycle) (turn : Turn)
      → R c turn.1
      → ((q : Progress) (c1 : Cycle) → R c1 (again q c1).1)
      → R c (turned again page turn).1
  turned-Keeps again page c ((some x, p), c1) h k = h
  turned-Keeps again page c ((none, p), c1) h k = go page.has_more
    where
      go :
          (more : Bool)
          → R c (if more then again (finish_page page p) c1 else ((none, finish_page page p), c1)).1
      go true = steps.order.join c c1 _ h (k (finish_page page p) c1)
      go false = h

  listed-Keeps :
      (t : EntityType) (again : Progress → Cycle → Turn) (p : Progress) (c : Cycle)
      (out : Result Raised ListChangedResult × Cycle)
      → R c out.1
      → ((q : Progress) (c1 : Cycle) → R c1 (again q c1).1)
      → R c (listed casefold s e t again p out).1
  listed-Keeps t again p c (err x, c1) h k = h
  listed-Keeps t again p c (ok page, c1) h k =
      turned-Keeps again page c _
        (steps.order.join c c1 _ h (run_page-Keeps t page.changes (start_page page p) c1)) k

  list-Keeps : (t : EntityType) (since : Watermark) → Keeps R (call_list_changed s e t since)
  unfolding call_list_changed
  list-Keeps t since =
      call_with-Keeps R steps.order _ (list_changed t since) (λ h. e.on_list_changed h t since) _
        (steps.reads _ tt)

  pub run_pages-Keeps :
      (n : ℕ) (t : EntityType) (p : Progress) (c : Cycle) → R c (run_pages casefold s e n t p c).1
  unfolding run_pages
  run_pages-Keeps zero t p c = steps.order.same c
  run_pages-Keeps (suc n) t p c =
      listed-Keeps t (run_pages casefold s e n t) p c (call_list_changed s e t p.cursor c)
        (list-Keeps t p.cursor c) (run_pages-Keeps n t)

  check_health-Keeps : (side : Side) → Keeps R (check_health s e side)
  unfolding check_health
  check_health-Keeps side c =
      continue-Keeps R steps.order (quarantine_if s e side) c _
        (call_with-Keeps R steps.order _ (healthcheck side) (λ h. e.on_healthcheck h side) _
          (steps.reads _ tt) c)
        quarantine-Keeps
    where
      quarantine-Keeps : (sick : Bool) → Keeps R (quarantine_if s e side sick)
      quarantine-Keeps true = steps.order.same
      quarantine-Keeps false = steps.order.same

  pub preflight_check-Keeps : Keeps R (preflight_check s e)
  unfolding preflight_check
  preflight_check-Keeps =
      if-Keeps R casefold s e steps s.preflight
        (check_health s e source >>= λ _. check_health s e target) _
        (λ _.
          bind-Keeps R steps.order (check_health s e source) (λ _. check_health s e target)
            (check_health-Keeps source) (λ _. check_health-Keeps target))
        (λ _. steps.order.same)

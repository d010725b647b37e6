-- ===== src/Sync/Run.antt =====
-- `run_cycle`: the watermark, the pages of the listing, and the one transaction at the end.
use qlabs_catalog_sync.Prelude.{
  ℕ, zero, suc, Bool, true, false, not, ◌&&◌, ◌||◌, if◌then◌else◌, List, [], ◌∷◌, ◌++◌, String,
  Option, none, some, ◌==◌, string_eq, contains, any, Result, ok, err,
}
use qlabs_catalog_sync.Prelude.Dict.{Dict}
use qlabs_catalog_sync.Models.{EntityType, entity_type_eq}
use qlabs_catalog_sync.Diff.{supports}
use qlabs_catalog_sync.Changes.{
  ChangeRef, Watermark, initial_watermark, same_stream_as, same_watermark, ListChangedResult,
}
use qlabs_catalog_sync.State.Rows.{RowKey, Db, OrphanLogRow}
use qlabs_catalog_sync.State.Queries.{get_watermark, list_orphans}
use qlabs_catalog_sync.Sync.Settings.{
  Settings, Endpoints, RecordReport, RunStatus, ok_status, partial_status, failed_status,
  skipped_status,
}
use qlabs_catalog_sync.Sync.Cycle.{
  Cycle, no_mutations, Sync, Raised, connector_error, cycle_aborted, store_error, diff_error,
  tree_error, ◌>>=◌,
}
use qlabs_catalog_sync.Sync.Calls.{now, preflight_check, call_list_changed}
use qlabs_catalog_sync.Sync.Pending.{commit_writes, transact}
use qlabs_catalog_sync.Sync.Process.{process}

-- What the loop over the pages has reached.
pub record Progress : Type 0 where
  pub cursor : Watermark
  pub committable : Watermark
  pub all_terminal : Bool
  pub page_terminal : Bool
  pub records : List RecordReport
  pub pages : ℕ
  pub has_more : Bool

pub record SyncRunReport : Type 0 where
  pub status : RunStatus
  pub committed : Bool
  pub watermark_before : Watermark
  pub watermark_after : Watermark
  pub watermark_advanced : Bool
  pub progress : Progress
  pub quarantined : Option String

abbrev pub open_ids : EntityType → Dict RowKey OrphanLogRow → List ℕ
open_ids t [] = []
open_ids t ((key, row) ∷ rows) =
    let rest = open_ids t rows in if key.entity_type == t then key.neutral_id ∷ rest else rest

abbrev pub Turn : Type 0
Turn = (Option Raised × Progress) × Cycle

abbrev pub note_record : RecordReport → Progress → Progress
note_record r p = record p {
  records = p.records ++ (r ∷ []);
  page_terminal = if r.holds_watermark then false else p.page_terminal;
}

abbrev pub noted : (Progress → Cycle → Turn) → Progress → Result Raised RecordReport × Cycle → Turn
noted rest p (ok r, c) = rest (note_record r p) c
noted rest p (err x, c) = ((some x, p), c)

abbrev pub start_page : ListChangedResult → Progress → Progress
start_page page p = record p {
  cursor = page.next_watermark;
  page_terminal = true;
  pages = suc p.pages;
  has_more = page.has_more;
}

-- The committable watermark moves only while every page so far is terminal.
unfoldable pub finish_page : ListChangedResult → Progress → Progress
finish_page page p =
    if p.all_terminal && p.page_terminal
    then record p { committable = page.next_watermark }
    else record p { all_terminal = false }

abbrev pub turned : (Progress → Cycle → Turn) → ListChangedResult → Turn → Turn
turned again page ((some x, p), c) = ((some x, p), c)
turned again page ((none, p), c) =
    let next = finish_page page p in if page.has_more then again next c else ((none, next), c)

abbrev pub start_progress : Watermark → Progress
start_progress since = record {
  cursor = since;
  committable = since;
  all_terminal = true;
  page_terminal = true;
  records = [];
  pages = 0;
  has_more = false;
}

module _ (casefold : String → String) (s : Settings) (e : Endpoints) where
  unfoldable pub run_page : EntityType → List ChangeRef → Progress → Cycle → Turn
  run_page t [] p c = ((none, p), c)
  run_page t (change ∷ rest) p c = noted (run_page t rest) p (process casefold s e change t c)

  abbrev pub listed :
      EntityType
      → (Progress → Cycle → Turn)
      → Progress
      → Result Raised ListChangedResult × Cycle
      → Turn
  listed t again p (err x, c) = ((some x, p), c)
  listed t again p (ok page, c) = turned again page (run_page t page.changes (start_page page p) c)

  -- The first argument is `max_pages` less the pages that were read.
  unfoldable pub run_pages : ℕ → EntityType → Progress → Cycle → Turn
  run_pages zero t p c = ((none, p), c)
  run_pages (suc left) t p c = listed t (run_pages left t) p (call_list_changed s e t p.cursor c)

  unfoldable pub is_unsupported : EntityType → Bool
  is_unsupported t =
      not (contains s.entity_types t)
      || not (supports s.source_manifest t && supports s.target_manifest t)

-- `parse` and `dump` are pydantic's `model_validate_json` and `model_dump_json`.
module _ (parse : String → Option Watermark) (s : Settings) where
  abbrev in_stream : Watermark → Option Watermark → Watermark
  in_stream initial none = initial
  in_stream initial (some stored) = if same_stream_as stored initial then stored else initial

  abbrev watermark_of : Watermark → Option String → Watermark
  watermark_of initial none = initial
  watermark_of initial (some token) = in_stream initial (parse token)

  unfoldable pub load_watermark : EntityType → Db → Watermark
  load_watermark t db =
      let initial = initial_watermark s.source_name t in
      elim (get_watermark
        (record { sync_pair = s.pair_name; endpoint = s.source_name; entity_type = t }) db) [
          | none ↦ initial
          | some row ↦ watermark_of initial row.watermark_token
        ]

abbrev pub status_of : List RecordReport → RunStatus
status_of records = if any (λ r. r.holds_watermark) records then partial_status else ok_status

abbrev pub quarantine_of : Raised → Option String
quarantine_of (cycle_aborted endpoint) = endpoint
quarantine_of (connector_error x) = none
quarantine_of (store_error x) = none
quarantine_of (diff_error x) = none
quarantine_of (tree_error x) = none

abbrev pub note_failure : Cycle → Cycle
note_failure c = record c { errors = c.errors ++ (record { native_key = none; fatal = true } ∷ []) }

-- The two `except` clauses of `run_cycle`.
abbrev pub failed : Watermark → Progress → Raised → Cycle → SyncRunReport × Cycle
failed since p x c = (
  record {
    status = failed_status;
    committed = false;
    watermark_before = since;
    watermark_after = p.committable;
    watermark_advanced = false;
    progress = p;
    quarantined = quarantine_of x;
  },
  note_failure c,
)

abbrev pub finished : Watermark → Progress → Bool → Cycle → SyncRunReport × Cycle
finished since p committed c = (
  record {
    status = status_of p.records;
    committed = committed;
    watermark_before = since;
    watermark_after = p.committable;
    watermark_advanced = committed && not (same_watermark p.committable since);
    progress = p;
    quarantined = none;
  },
  c,
)

abbrev pub fresh_cycle : Cycle → Cycle
fresh_cycle c = record c { mutations = no_mutations; errors = []; open_orphans = [] }

abbrev pub not_scheduled : Watermark → Cycle → SyncRunReport × Cycle
not_scheduled since c = (
  record {
    status = skipped_status;
    committed = false;
    watermark_before = since;
    watermark_after = since;
    watermark_advanced = false;
    progress = start_progress since;
    quarantined = none;
  },
  note_failure c,
)

module _ (casefold : String → String) (dump : Watermark → String)
    (parse : String → Option Watermark) (s : Settings) (e : Endpoints) where
  unfoldable pub commit : EntityType → Watermark → RunStatus → Sync (Unit {0})
  commit t watermark status c =
      (do at ← now s e; transact (commit_writes s dump t c.mutations watermark status at)) c

  abbrev pub committed :
      Watermark → Progress → Result Raised (Unit {0}) × Cycle → SyncRunReport × Cycle
  committed since p (ok _, c) = finished since p true c
  committed since p (err x, c) = failed since p x c

  unfoldable pub conclude : EntityType → Watermark → Turn → SyncRunReport × Cycle
  conclude t since ((some x, p), c) = failed since p x c
  conclude t since ((none, p), c) =
      if s.dry_run
      then finished since p false c
      else committed since p (commit t p.committable (status_of p.records) c)

  abbrev pub checked :
      EntityType → Watermark → Result Raised (Unit {0}) × Cycle → SyncRunReport × Cycle
  checked t since (err x, c) = failed since (start_progress since) x c
  checked t since (ok _, c) =
      let opened = record c {
        open_orphans = open_ids t (list_orphans (some s.source_name) true c.db);
      } in
      conclude t since (run_pages casefold s e s.max_pages t (start_progress since) opened)

  unfoldable pub run_cycle : EntityType → Cycle → SyncRunReport × Cycle
  run_cycle t c =
      let since = load_watermark parse s t c.db in
      if is_unsupported casefold s e t
      then not_scheduled since (fresh_cycle c)
      else checked t since (preflight_check s e (fresh_cycle c))

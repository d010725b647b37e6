-- ===== src/Tests/Sync.antt =====
-- A pair whose source lists one empty page, and one whose source cannot be reached.
use qlabs_catalog_sync.Prelude.{
  ℕ, inl, ap, sym, suc, ◌≤◌, ◌≡◌, refl, Bool, true, false, length, All, List, [], ◌∷◌, String,
  Option, none, some, Result, ok, err, string_eq, arith,
}
use qlabs_catalog_sync.Models.{data_product, entity_type_eq, FieldDiff}
use qlabs_catalog_sync.Changes.{
  Watermark, timestamp, initial_watermark, other_error, transient_error, same_stream_as,
}
use qlabs_catalog_sync.Diff.{AnyManifest, bespoke, DiffPlan}
use qlabs_catalog_sync.State.Rows.{empty}
use qlabs_catalog_sync.State.Uniqueness.{IsSound}
use qlabs_catalog_sync.Selection.RuleSet.{SelectionRuleSet}
use qlabs_catalog_sync.Sync.Settings.{
  Settings, Endpoints, source, read, WithheldField, failed_status,
}
use qlabs_catalog_sync.Sync.Cycle.{Cycle, cycle_aborted, no_mutations, pure}
use qlabs_catalog_sync.Sync.Calls.{call_with, preflight_check}
use qlabs_catalog_sync.Sync.Retry.{Attempted, repeat, call_with-Attempted, call_with-exhausted}
use qlabs_catalog_sync.Sync.Withheld.{CleanCall, apply_update-IsClean}
use qlabs_catalog_sync.Sync.Writes.{plan_diff, effective_diff, apply_update}
use qlabs_catalog_sync.Sync.Effects.{IsRead}
use qlabs_catalog_sync.Sync.Listing.{PageRead, prefix_mark, all_reports, Listed}
use qlabs_catalog_sync.Sync.Run.{run_cycle, load_watermark, SyncRunReport, fresh_cycle}
use qlabs_catalog_sync.Sync.Safety.{dry_run-IsRead, run_cycle-IsSound}
use qlabs_catalog_sync.Sync.Failure.{SameTables, failed_cycle-SameTables}
use qlabs_catalog_sync.Prelude.Dict.{NodupKeys}
use qlabs_catalog_sync.Diff.{supports}
use qlabs_catalog_sync.Diff.InSync.{idle_plan}
use qlabs_catalog_sync.Sync.Pending.{stored_target_envelopes, set_mutations, queue_envelopes}
use qlabs_catalog_sync.Sync.Replay.{index_of, IsCovered, plan_diff-replay}
use qlabs_catalog_sync.Sync.Resume.{run_cycle-resumes, opened_at}
use qlabs_catalog_sync.Tests.State.{empty-IsSound, east}
use qlabs_catalog_sync.Tests.Diff.{plan, at_source, envelope}

abbrev same : String → String
same s = s

abbrev everything : AnyManifest
everything = bespoke (λ t. true) (λ t field. true) (λ t field. false)

abbrev no_rules : SelectionRuleSet
no_rules = record {
  object_rules = [];
  dataset_rules = [];
  object_overrides = [];
  dataset_overrides = [];
}

abbrev pub settings : Settings
settings = record {
  pair_name = "p";
  source_name = "uc";
  target_name = "qlik";
  entity_types = data_product ∷ [];
  target_space = "space";
  activation_opt_in = false;
  write_policy = none;
  source_manifest = everything;
  target_manifest = everything;
  native_update_paths = [];
  rules = no_rules;
  create_missing = false;
  dry_run = false;
  preflight = false;
  max_pages = 2;
  retry_attempts = 1;
  clock = λ n. n;
  uuid4 = λ n. n;
}

abbrev mark : Watermark
mark = record (initial_watermark "uc" data_product) { kind = timestamp; timestamp = some 5 }

abbrev pub unreachable : Endpoints
unreachable = record {
  on_healthcheck = λ h side. err other_error;
  on_list_changed = λ h t since. err (transient_error none);
  on_read = λ h side ref. err other_error;
  on_update = λ h ref d. err other_error;
  on_create = λ h entity. err other_error;
}

abbrev idle : Endpoints
idle = record unreachable {
  on_list_changed =
      λ h t since. ok (record { changes = []; next_watermark = mark; has_more = false });
}

abbrev pub start : Cycle
start = record {
  history = [];
  db = empty;
  mutations = no_mutations;
  errors = [];
  open_orphans = [];
  clock_readings = 0;
  ids_drawn = 0;
}

abbrev dump : Watermark → String
dump w = "5"

abbrev parse : String → Option Watermark
parse token = some mark

call_with-Attempted_example :
    Attempted
      (read source east)
      2
      start
      (call_with "uc" (read source east) (λ h. unreachable.on_read h source east) 1 start)
call_with-Attempted_example =
    call_with-Attempted "uc" (read source east) (λ h. unreachable.on_read h source east) 1 start

call_with-exhausted_example :
    call_with {A = ℕ} "uc" (read source east) (λ h. err (transient_error none)) 1 start
    ≡ (err (cycle_aborted none), record start { history = repeat 2 (read source east) [] })
call_with-exhausted_example =
    call_with-exhausted "uc" (read source east) (λ h. err (transient_error none)) 1 start
      (λ h. none) (λ h. refl)

abbrev held : List WithheldField
held = record { field = "name"; reason = "manual_edit_preserved" } ∷ []

abbrev nothing : FieldDiff
nothing = record plan.diff { changes = [] }

all_held : effective_diff plan held ≡ ok nothing
unfolding effective_diff qlabs_catalog_sync.Diff.make_diff
    qlabs_catalog_sync.Prelude.Distinct.first_repeat string_eq
all_held = refl

apply_update-IsClean_example :
    All
      (CleanCall held)
      (apply_update settings unreachable east nothing data_product [] held start).1.history
apply_update-IsClean_example =
    apply_update-IsClean settings unreachable held east plan nothing data_product [] start all_held
      tt

abbrev rehearsal : Settings
rehearsal = record settings { dry_run = true }

dry_run-IsRead_example :
    ((run_cycle same dump parse rehearsal idle data_product start).1.db ≡ empty)
    × All IsRead (run_cycle same dump parse rehearsal idle data_product start).1.history
dry_run-IsRead_example = dry_run-IsRead same dump parse rehearsal idle data_product start refl tt

run_cycle-IsSound_example :
    IsSound (run_cycle same dump parse settings idle data_product start).1.db.identity_map
run_cycle-IsSound_example =
    run_cycle-IsSound same dump parse settings idle data_product start empty-IsSound

fails : (run_cycle same dump parse settings unreachable data_product start).0.status ≡ failed_status
unfolding run_cycle qlabs_catalog_sync.Sync.Run.is_unsupported entity_type_eq
    qlabs_catalog_sync.Diff.supports qlabs_catalog_sync.Sync.Calls.preflight_check
    qlabs_catalog_sync.Sync.Run.conclude qlabs_catalog_sync.Sync.Run.run_pages
    qlabs_catalog_sync.Sync.Calls.call_list_changed call_with
fails = refl

failed_cycle-SameTables_example :
    SameTables empty (run_cycle same dump parse settings unreachable data_product start).1.db
failed_cycle-SameTables_example =
    failed_cycle-SameTables same dump parse settings unreachable data_product start fails

commits : (run_cycle same dump parse settings idle data_product start).0.committed ≡ true
unfolding run_cycle qlabs_catalog_sync.Sync.Run.is_unsupported entity_type_eq
    qlabs_catalog_sync.Diff.supports qlabs_catalog_sync.Sync.Calls.preflight_check
    qlabs_catalog_sync.Sync.Run.conclude qlabs_catalog_sync.Sync.Run.run_pages
    qlabs_catalog_sync.Sync.Calls.call_list_changed call_with qlabs_catalog_sync.Sync.Calls.after
    qlabs_catalog_sync.Sync.Run.run_page qlabs_catalog_sync.Sync.Run.finish_page
    qlabs_catalog_sync.Sync.Run.commit qlabs_catalog_sync.Sync.Calls.now
    qlabs_catalog_sync.Sync.Pending.transact qlabs_catalog_sync.State.UnitOfWork.unit_of_work
    qlabs_catalog_sync.State.UnitOfWork.perform_all qlabs_catalog_sync.State.UnitOfWork.perform
    qlabs_catalog_sync.State.UnitOfWork.advance_watermark
    qlabs_catalog_sync.Sync.Pending.commit_writes qlabs_catalog_sync.Sync.Pending.planned_writes
    qlabs_catalog_sync.Sync.Run.load_watermark qlabs_catalog_sync.State.Queries.get_watermark
    qlabs_catalog_sync.Prelude.Dict.lookup
commits = refl

moves : (run_cycle same dump parse settings idle data_product start).0.watermark_after ≡ mark
unfolding run_cycle qlabs_catalog_sync.Sync.Run.is_unsupported entity_type_eq
    qlabs_catalog_sync.Diff.supports qlabs_catalog_sync.Sync.Calls.preflight_check
    qlabs_catalog_sync.Sync.Run.conclude qlabs_catalog_sync.Sync.Run.run_pages
    qlabs_catalog_sync.Sync.Calls.call_list_changed call_with qlabs_catalog_sync.Sync.Calls.after
    qlabs_catalog_sync.Sync.Run.run_page qlabs_catalog_sync.Sync.Run.finish_page
    qlabs_catalog_sync.Sync.Run.commit qlabs_catalog_sync.Sync.Calls.now
    qlabs_catalog_sync.Sync.Pending.transact qlabs_catalog_sync.State.UnitOfWork.unit_of_work
    qlabs_catalog_sync.State.UnitOfWork.perform_all qlabs_catalog_sync.State.UnitOfWork.perform
    qlabs_catalog_sync.State.UnitOfWork.advance_watermark
    qlabs_catalog_sync.Sync.Pending.commit_writes qlabs_catalog_sync.Sync.Pending.planned_writes
    qlabs_catalog_sync.Sync.Run.load_watermark qlabs_catalog_sync.State.Queries.get_watermark
    qlabs_catalog_sync.Prelude.Dict.lookup
moves = refl

mark_in_stream : same_stream_as mark (initial_watermark "uc" data_product) ≡ true
unfolding same_stream_as string_eq entity_type_eq
mark_in_stream = refl

in_stream :
    same_stream_as
      (run_cycle same dump parse settings idle data_product start).0.watermark_after
      (initial_watermark "uc" data_product)
    ≡ true
in_stream = rw moves mark_in_stream

reads_back :
    parse (dump (run_cycle same dump parse settings idle data_product start).0.watermark_after)
    ≡ some (run_cycle same dump parse settings idle data_product start).0.watermark_after
reads_back = ap some (sym moves)

run_cycle-resumes_example :
    (begun : Cycle) × (ended : Cycle) × (pages : List PageRead) × (preflight_check settings idle
        (fresh_cycle start)
      ≡ (ok tt, begun))
    × Listed same settings idle data_product 2
        (load_watermark parse settings data_product empty)
        (opened_at settings data_product begun)
        pages
        ended
    × ((run_cycle same dump parse settings idle data_product start).0.progress.records
        ≡ all_reports pages)
    × ((run_cycle same dump parse settings idle data_product start).0.watermark_after
        ≡ prefix_mark (load_watermark parse settings data_product empty) pages)
    × (load_watermark parse settings data_product
          (run_cycle same dump parse settings idle data_product start).1.db
        ≡ (run_cycle same dump parse settings idle data_product start).0.watermark_after)
run_cycle-resumes_example =
    run_cycle-resumes same dump parse settings idle data_product start commits reads_back in_stream

names_differ : NodupKeys at_source
unfolding qlabs_catalog_sync.Prelude.Dict.lookup string_eq
names_differ = (refl, (refl, tt))

name_written :
    IsCovered
      ("name" ∷ "tags" ∷ [])
      (stored_target_envelopes settings 7 start)
      ("name", envelope "Sales" "a1")
unfolding string_eq
name_written = record { sum = "a1"; computed = refl; settled = inl refl }

tags_written :
    IsCovered
      ("name" ∷ "tags" ∷ [])
      (stored_target_envelopes settings 7 start)
      ("tags", envelope "x" "b1")
unfolding string_eq
tags_written = record { sum = "b1"; computed = refl; settled = inl refl }

nothing_pending : NodupKeys (index_of 7 no_mutations)
unfolding qlabs_catalog_sync.Prelude.Dict.lookup
nothing_pending = tt

supported : supports everything data_product ≡ true
unfolding supports
supported = refl

plan_diff-replay_example :
    plan_diff settings idle data_product at_source (
      stored_target_envelopes settings 7 (
        set_mutations
          (queue_envelopes 7 "qlik" data_product none 3
            ("name" ∷ "tags" ∷ [])
            at_source
            no_mutations)
          start))
    ≡ pure (idle_plan everything data_product)
plan_diff-replay_example =
    plan_diff-replay settings idle 7 data_product none 3 ("name" ∷ "tags" ∷ []) at_source start
      supported names_differ nothing_pending (name_written, (tags_written, tt))

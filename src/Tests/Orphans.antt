-- ===== src/Tests/Orphans.antt =====
-- Two bindings, the one open and back, the other gone; an orphan that came back; an activation.
use native.Mathlib.Decide.{ℕ_discrete}
use qlabs_catalog_sync.Prelude.{
  ◌≡◌, ◌≢◌, ◌↔◌, ◌<◌, refl, ap, true, not, ◌&&◌, List, [], ◌∷◌, map, filter, none, some, Result, ok,
  err, arith, if◌then◌else◌, ◌==◌, string_eq, nat_eq,
}
use qlabs_catalog_sync.Prelude.Dict
use qlabs_catalog_sync.Prelude.Distinct.{DistinctBy}
use qlabs_catalog_sync.Models.{data_product, EntityType-discrete, entity_type_eq, IdentityRef, null}
use qlabs_catalog_sync.Changes.{NeutralEntity, not_found, ConnectorError, WriteResult, updated}
use qlabs_catalog_sync.State.Rows.{
  Db, empty, RowKey, OrphanLogRow, row_key_eq, RowKey-discrete, String-discrete,
}
use qlabs_catalog_sync.State.UnitOfWork.{
  identity_key, bound_row, perform_all, perform, unit_of_work, record_orphan, resolve_orphan,
}
use qlabs_catalog_sync.State.Queries.{
  IdentityBinding, list_orphans, orphans_in, envelopes_from, fetch_envelopes,
}
use qlabs_catalog_sync.Orphans.Digest.{
  OrphanPolicy, OrphanDigest, confirmed, summarize_orphans, confidence, confirmed_of, tentative_of,
  by_endpoint,
}
use qlabs_catalog_sync.Orphans.Checks.{
  Source, Check, ReadError, classified, unclassified, check_all, check_one, last_synced_at,
}
use qlabs_catalog_sync.Orphans.Pass.{
  ReconciliationReport, OrphanReport, Outcome, row_key, reconcile_bindings, recheck_open_orphans,
  first_foreign, writes_for, write_for, open_ids, empty_report, note, report_for,
}
use qlabs_catalog_sync.Orphans.Writes.{settled_row, verdict}
use qlabs_catalog_sync.Orphans.Outcome.{reconcile_bindings-settles, binding_of, read_each}
use qlabs_catalog_sync.Orphans.Report.{reconcile_bindings-reports, Lists}
use qlabs_catalog_sync.Orphans.Recheck.{recheck_open_orphans-answers}
use qlabs_catalog_sync.Orphans.Confirmed.{record_orphan-confidence}
use qlabs_catalog_sync.Orphans.Groups.{
  summarize_orphans-sorts, nonempty, at, told, is_open, is_sure,
}
use qlabs_catalog_sync.Activation.{active, ActivateCall, reconcile_activation}
use qlabs_catalog_sync.Activation.Gates.{Follows, reconcile_activation-gates}
use qlabs_catalog_sync.Tests.State.{east}

abbrev west : IdentityRef
west = record east { native_key = "sales.west" }

abbrev binding : IdentityBinding
binding = record {
  neutral_id = 7;
  identity = east;
  confirmed = true;
  created_at = 10;
  updated_at = 10;
  confirmed_at = some 10;
}

abbrev other : IdentityBinding
other = record binding { neutral_id = 8; identity = west }

abbrev missed : OrphanLogRow
missed = record {
  native_key = some "sales.east";
  first_missing_at = 20;
  last_missing_at = 20;
  last_seen_at = none;
  resolved_at = none;
}

abbrev store : Db
store = record empty {
  identity_map =
      (identity_key 7 east, bound_row east true 10 none)
      ∷ (identity_key 8 west, bound_row west true 10 none)
      ∷ [];
  orphan_log = (identity_key 7 east, missed) ∷ [];
}

abbrev found : NeutralEntity
found = record { neutral_id = 7; product = none; field_envelopes = []; body = null }

-- East is back; everything else is gone.
abbrev answer : IdentityRef → Result ReadError NeutralEntity
answer i = if i.native_key == "sales.east" then ok found else err (classified not_found)

abbrev source : Source
source = record { name = "uc"; on_read = λ _. answer; describe = λ _. "error" }

abbrev west_missing : OrphanReport
west_missing = record {
  neutral_id = 8;
  entity_type = data_product;
  endpoint = "uc";
  native_key = some "sales.west";
  observed_at = 30;
}

abbrev report : ReconciliationReport
report = record {
  endpoint = "uc";
  checked_at = 30;
  checked = 2;
  newly_missing = west_missing ∷ [];
  still_missing = [];
  resolved = 7 ∷ [];
  inconclusive = [];
}

abbrev after : Db
after = record store {
  orphan_log =
      (identity_key 7 east, record missed { resolved_at = some 30; last_seen_at = some 30 })
      ∷ (
        identity_key 8 west,
        record {
          native_key = some "sales.west";
          first_missing_at = 30;
          last_missing_at = 30;
          last_seen_at = none;
          resolved_at = none;
        },
      )
      ∷ [];
}

passed :
    reconcile_bindings source 30 (binding ∷ other ∷ []) store store []
    ≡ (ok report, after, west ∷ east ∷ [])
unfolding reconcile_bindings first_foreign string_eq check_all check_one unit_of_work perform_all
    writes_for write_for open_ids list_orphans orphans_in nat_eq perform resolve_orphan
    record_orphan Dict.lookup Dict.insert row_key_eq RowKey-discrete String-discrete
    EntityType-discrete entity_type_eq ℕ_discrete last_synced_at empty_report note report_for
    envelopes_from fetch_envelopes
passed = refl

different : DistinctBy (row_key source 30) (binding ∷ other ∷ [])
different = (((λ e. cc), tt), (tt, tt))

reconcile_bindings-settles_example :
    (checks : List (IdentityBinding × Check)) × (check_all source (binding ∷ other ∷ []) store []
      ≡ (ok checks, west ∷ east ∷ []))
    × (map binding_of checks ≡ binding ∷ other ∷ [])
    × (west ∷ east ∷ [] ≡ read_each (binding ∷ other ∷ []) [])
    × ((key : RowKey)
        → Dict.lookup key after.orphan_log
          ≡ settled_row source 30
              (open_ids (list_orphans (some "uc") true store))
              (verdict source 30 key checks)
              (Dict.lookup key store.orphan_log))
    × (after ≡ record store { orphan_log = after.orphan_log })
reconcile_bindings-settles_example =
    reconcile_bindings-settles source 30 (binding ∷ other ∷ []) store store [] report after
      (west ∷ east ∷ []) different passed

reconcile_bindings-reports_example :
    (checks : List (IdentityBinding × Check)) × ((check_all source
        (binding ∷ other ∷ [])
        store
        []).0
      ≡ ok checks)
    × Lists source 30 (open_ids (list_orphans (some "uc") true store)) checks report
    × (report.endpoint ≡ "uc")
    × (report.checked_at ≡ 30)
    × (report.checked ≡ 2)
reconcile_bindings-reports_example =
    reconcile_bindings-reports source 30 (binding ∷ other ∷ []) store store [] report
      (ap (λ (o : Outcome source 30). o.0) passed)

answer-classified : (i : IdentityRef) → answer i ≢ err unclassified
answer-classified i = ground arith

recheck_open_orphans-answers_example :
    (r : ReconciliationReport) × ((recheck_open_orphans source 30 data_product store store []).0
      ≡ ok r)
recheck_open_orphans-answers_example =
    recheck_open_orphans-answers source 30 data_product store store [] (Dict.lookup-nil _, tt)
      (λ key h. h) (λ _. answer-classified)

-- East was gone at 20 and back at 25, and is missed again at 40.
abbrev returned : Db
returned = record empty {
  orphan_log =
      (identity_key 7 east, record missed { resolved_at = some 25; last_seen_at = some 25 }) ∷ [];
}

abbrev again : OrphanLogRow
again = record missed { last_missing_at = 40; last_seen_at = some 25 }

abbrev gone_again : Db
gone_again = record empty { orphan_log = (identity_key 7 east, again) ∷ [] }

recorded : record_orphan (identity_key 7 east) (some "sales.east") none 40 returned ≡ ok gone_again
unfolding record_orphan Dict.lookup Dict.insert row_key_eq RowKey-discrete String-discrete
    EntityType-discrete entity_type_eq ℕ_discrete string_eq
recorded = refl

looked_up : Dict.lookup (identity_key 7 east) gone_again.orphan_log ≡ some again
unfolding Dict.lookup row_key_eq RowKey-discrete String-discrete EntityType-discrete entity_type_eq
    ℕ_discrete string_eq
looked_up = refl

record_orphan-confidence_example :
    (confidence (record { require_reconfirmation = true }) again ≡ confirmed) ↔ (
      (before : OrphanLogRow) × (Dict.lookup (identity_key 7 east) returned.orphan_log
        ≡ some before)
      × (before.first_missing_at < 40))
record_orphan-confidence_example =
    record_orphan-confidence (record { require_reconfirmation = true }) (identity_key 7 east)
      (some "sales.east") none 40 returned gone_again again refl recorded looked_up

-- The first miss after the return is confirmed at once.
confirmed_at_once : confidence (record { require_reconfirmation = true }) again ≡ confirmed
unfolding confidence
confirmed_at_once = refl

abbrev digest : OrphanDigest
digest =
    summarize_orphans (λ _ _. "archive it") (record { require_reconfirmation = true }) 50
      after.orphan_log

abbrev twice : OrphanPolicy
twice = record { require_reconfirmation = true }

summarize_orphans-sorts_example :
    (map told digest.advisories ≡ filter is_open after.orphan_log)
    × (map told (confirmed_of digest) ≡ filter (λ r. is_open r && is_sure twice r) after.orphan_log)
    × (map told (tentative_of digest)
        ≡ filter (λ r. is_open r && not (is_sure twice r)) after.orphan_log)
    × (Dict.lookup "uc" (by_endpoint digest) ≡ nonempty (filter (at "uc") digest.advisories))
summarize_orphans-sorts_example =
    summarize_orphans-sorts (λ _ _. "archive it") (record { require_reconfirmation = true }) 50
      after.orphan_log "uc"

abbrev accept : ActivateCall → Result ConnectorError WriteResult
accept call = ok (record {
  ref = call.ref;
  outcome = updated;
  source_revision = none;
  written_fields = [];
  skipped_fields = [];
})

reconcile_activation-gates_example :
    Follows
      (record { activation = some accept })
      east
      (some active)
      true
      (some "s1")
      (reconcile_activation
        (record { activation = some accept })
        east
        "Sales"
        (some active)
        true
        (some "s1"))
reconcile_activation-gates_example =
    reconcile_activation-gates (record { activation = some accept }) east "Sales" (some active) true
      (some "s1")

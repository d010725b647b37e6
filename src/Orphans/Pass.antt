-- ===== src/Orphans/Pass.antt =====
-- sync/orphans.py: `reconcile_bindings` and `recheck_open_orphans`.
use qlabs_catalog_sync.Prelude.{
  ℕ, Bool, true, false, List, [], ◌∷◌, ◌++◌, map, String, Option, none, some, Result, ok, err,
  if◌then◌else◌, contains, ◌==◌, string_eq, nat_eq, length,
}
use qlabs_catalog_sync.Prelude.Dict.{Dict}
use qlabs_catalog_sync.Models.{EntityType, entity_type_eq, IdentityRef}
use qlabs_catalog_sync.State.Rows.{RowKey, OrphanLogRow, Db}
use qlabs_catalog_sync.State.UnitOfWork.{
  StoreError, Write, orphan, resolve, unit_of_work, perform_all,
}
use qlabs_catalog_sync.State.Queries.{IdentityBinding, get_binding, list_orphans}
use qlabs_catalog_sync.Orphans.Checks.{
  CheckStatus, present, missing, inconclusive, Check, Source, PassError, wrong_endpoint,
  store_raised, check_all,
}

pub record OrphanReport : Type 0 where
  pub neutral_id : ℕ
  pub entity_type : EntityType
  pub endpoint : String
  pub native_key : Option String
  pub observed_at : ℕ

pub record InconclusiveCheck : Type 0 where
  pub neutral_id : ℕ
  pub endpoint : String
  pub entity_type : EntityType
  pub native_key : String
  pub detail : Option String

pub record ReconciliationReport : Type 0 where
  pub endpoint : String
  pub checked_at : ℕ
  pub checked : ℕ
  pub newly_missing : List OrphanReport
  pub still_missing : List OrphanReport
  pub resolved : List ℕ
  pub inconclusive : List InconclusiveCheck

-- `ReconciliationReport.missing`
unfoldable pub missing_of : ReconciliationReport → List OrphanReport
missing_of r = r.newly_missing ++ r.still_missing

-- The neutral ids in `already_open`.
unfoldable pub open_ids : Dict RowKey OrphanLogRow → List ℕ
open_ids records = map (λ (key, _). key.neutral_id) records

module _ (source : Source) (now : ℕ) where
  unfoldable pub empty_report : ℕ → ReconciliationReport
  empty_report checked = record {
    endpoint = source.name;
    checked_at = now;
    checked = checked;
    newly_missing = [];
    still_missing = [];
    resolved = [];
    inconclusive = [];
  }

  abbrev pub orphan_report : IdentityBinding → OrphanReport
  orphan_report b = record {
    neutral_id = b.neutral_id;
    entity_type = b.identity.entity_type;
    endpoint = source.name;
    native_key = some b.identity.native_key;
    observed_at = now;
  }

  abbrev pub inconclusive_check : IdentityBinding → Check → InconclusiveCheck
  inconclusive_check b check = record {
    neutral_id = b.neutral_id;
    endpoint = source.name;
    entity_type = b.identity.entity_type;
    native_key = b.identity.native_key;
    detail = check.detail;
  }

  -- The row of a binding: its own entity type, at the source.
  abbrev pub row_key : IdentityBinding → RowKey
  row_key b = record {
    neutral_id = b.neutral_id;
    endpoint = source.name;
    entity_type = b.identity.entity_type;
  }

  -- What one check makes the commit write.
  unfoldable pub write_for : Bool → IdentityBinding → Check → CheckStatus → List Write
  write_for known b check missing =
      orphan (row_key b) (some b.identity.native_key) check.last_synced_at now ∷ []
  write_for known b check present = if known then resolve (row_key b) now ∷ [] else []
  write_for known b check inconclusive = []

  unfoldable pub writes_for : List ℕ → List (IdentityBinding × Check) → List Write
  writes_for already_open [] = []
  writes_for already_open ((b, check) ∷ checks) =
      write_for (contains already_open b.neutral_id) b check check.status
      ++ writes_for already_open checks

  -- What one check adds to the report of those after it.
  unfoldable pub note :
      Bool → IdentityBinding → Check → CheckStatus → ReconciliationReport → ReconciliationReport
  note true b check missing r = record r { still_missing = orphan_report b ∷ r.still_missing }
  note false b check missing r = record r { newly_missing = orphan_report b ∷ r.newly_missing }
  note true b check present r = record r { resolved = b.neutral_id ∷ r.resolved }
  note false b check present r = r
  note known b check inconclusive r = record r {
    inconclusive = inconclusive_check b check ∷ r.inconclusive;
  }

  unfoldable pub report_for : ℕ → List ℕ → List (IdentityBinding × Check) → ReconciliationReport
  report_for checked already_open [] = empty_report checked
  report_for checked already_open ((b, check) ∷ checks) =
      note (contains already_open b.neutral_id) b check check.status
        (report_for checked already_open checks)

  -- The first binding that is of another endpoint.
  unfoldable pub first_foreign : List IdentityBinding → Option IdentityRef
  first_foreign [] = none
  first_foreign (b ∷ bs) =
      let rest = first_foreign bs in
      if b.identity.endpoint == source.name then rest else some b.identity

  -- A pass leaves what it answers or raises, the store, and the reads so far.
  abbrev pub Outcome : Type 0
  Outcome = Result PassError ReconciliationReport × Db × List IdentityRef

  abbrev pub committed :
      ReconciliationReport → List IdentityRef → Result StoreError (Unit {0}) × Db → Outcome
  committed report reads (ok _, db) = (ok report, db, reads)
  committed report reads (err e, db) = (err (store_raised e), db, reads)

  abbrev pub commit_checks :
      ℕ
      → List ℕ
      → Db
      → Result PassError (List (IdentityBinding × Check)) × List IdentityRef
      → Outcome
  commit_checks checked already_open db (err e, reads) = (err e, db, reads)
  commit_checks checked already_open db (ok checks, reads) =
      committed (report_for checked already_open checks) reads
        (unit_of_work (perform_all (writes_for already_open checks)) db)

  -- `later` is the store as other tasks have left it by the time of the commit, or of the end.
  unfoldable pub reconcile_bindings : List IdentityBinding → Db → Db → List IdentityRef → Outcome
  reconcile_bindings [] db later history = (ok (empty_report 0), later, history)
  reconcile_bindings (b ∷ bs) db later history = elim (first_foreign (b ∷ bs)) [
    | some identity ↦ (err (wrong_endpoint identity), later, history)
    | none ↦
        commit_checks (length (b ∷ bs)) (open_ids (list_orphans (some source.name) true db)) later
          (check_all source (b ∷ bs) db history)
  ]

  -- The bindings of the orphans of a type; one without a binding is passed over.
  abbrev pub keep_found : Option IdentityBinding → List IdentityBinding → List IdentityBinding
  keep_found none rest = rest
  keep_found (some b) rest = b ∷ rest

  unfoldable pub bindings_for : EntityType → Db → Dict RowKey OrphanLogRow → List IdentityBinding
  bindings_for t db [] = []
  bindings_for t db ((key, _) ∷ orphans) =
      let rest = bindings_for t db orphans in
      if key.entity_type == t
      then keep_found
          (get_binding
            (record { neutral_id = key.neutral_id; endpoint = source.name; entity_type = t }) db)
          rest
      else rest

  unfoldable pub recheck_open_orphans : EntityType → Db → Db → List IdentityRef → Outcome
  recheck_open_orphans t db later history =
      reconcile_bindings (bindings_for t db (list_orphans (some source.name) true db)) db later
        history

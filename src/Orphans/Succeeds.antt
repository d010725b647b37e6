-- ===== src/Orphans/Succeeds.antt =====
-- A pass over bindings of the source that have rows answers, unless a read fails unclassified.
use qlabs_catalog_sync.Prelude.{
  ℕ, Bool, true, false, List, [], ◌∷◌, Option, none, some, Result, ok, err, contains, string_eq,
  nat_eq, length, All, ◌≡◌, ◌≢◌, refl, ◌∙◌, arith,
}
use qlabs_catalog_sync.Prelude.Dict
use qlabs_catalog_sync.Prelude.Dict.{Dict, NodupKeys}
use qlabs_catalog_sync.Models.{entity_type_eq, IdentityRef}
use qlabs_catalog_sync.State.Rows.{RowKey, row_key_eq, OrphanLogRow, Db}
use qlabs_catalog_sync.State.UnitOfWork.{
  perform, perform_all, record_orphan, resolve_orphan, unit_of_work,
}
use qlabs_catalog_sync.State.Queries.{IdentityBinding, list_orphans}
use qlabs_catalog_sync.Changes.{
  NeutralEntity, auth_error, transient_error, not_found, conflict_error, capability_error,
  other_error,
}
use qlabs_catalog_sync.Orphans.Writes.{row_after, write_for-row, perform_all-then}
use qlabs_catalog_sync.Orphans.Checks.{
  CheckStatus, present, missing, inconclusive, Check, Source, ReadError, classified, unclassified,
  judged, check_all, check_one,
}
use qlabs_catalog_sync.Orphans.Pass.{
  ReconciliationReport, row_key, write_for, writes_for, open_ids, reconcile_bindings, report_for,
  empty_report, first_foreign,
}

module _ (source : Source) (now : ℕ) where
  row_after-some :
      (known : Bool) (b : IdentityBinding) (check : Check) (status : CheckStatus)
      (row : Option OrphanLogRow)
      → row ≢ none
      → row_after source now known b check status row ≢ none
  row_after-some known b check missing row h = (λ e. cc)
  row_after-some true b check present none h = h
  row_after-some true b check present (some row) h = (λ e. cc)
  row_after-some false b check present row h = h
  row_after-some known b check inconclusive row h = h

  abbrev pub HasRow : Db → RowKey → Type 0
  HasRow db key = Dict.lookup key db.orphan_log ≢ none

  write_for-succeeds :
      (known : Bool) (b : IdentityBinding) (check : Check) (status : CheckStatus) (db : Db)
      → HasRow db (row_key source now b)
      → (mid : Db) × (perform_all (write_for source now known b check status) db ≡ ok mid)
  unfolding perform_all perform write_for record_orphan resolve_orphan
  write_for-succeeds known b check missing db h = (_, refl)
  write_for-succeeds true b check present db h =
      go (Dict.lookup (row_key source now b) db.orphan_log) refl
    where
      go :
          (o : Option OrphanLogRow)
          → Dict.lookup (row_key source now b) db.orphan_log ≡ o
          → (mid : Db) × (perform_all (write_for source now true b check present) db ≡ ok mid)
      go none e = absurd (h e)
      go (some row) e = (
        record db {
          orphan_log =
              Dict.insert (row_key source now b)
                (record row { resolved_at = some now; last_seen_at = some now }) db.orphan_log;
        },
        ground (arith, e),
      )
  write_for-succeeds false b check present db h = (db, refl)
  write_for-succeeds known b check inconclusive db h = (db, refl)

  -- No row of the log is deleted.
  HasRow-kept :
      (known : Bool) (b : IdentityBinding) (check : Check) (status : CheckStatus) (db mid : Db)
      (key : RowKey)
      → perform_all (write_for source now known b check status) db ≡ ok mid
      → HasRow db (row_key source now b)
      → HasRow db key
      → HasRow mid key
  HasRow-kept known b check status db mid key done own h =
      let after = write_for-row source now known b check status key db mid done in
      let some_row = row_after-some known b check status _ own in ground (arith, after, some_row)

  HasRows-kept :
      (known : Bool) (b : IdentityBinding) (check : Check) (status : CheckStatus) (db mid : Db)
      (checks : List (IdentityBinding × Check))
      → perform_all (write_for source now known b check status) db ≡ ok mid
      → HasRow db (row_key source now b)
      → All (λ (c, _). HasRow db (row_key source now c)) checks
      → All (λ (c, _). HasRow mid (row_key source now c)) checks
  HasRows-kept known b check status db mid [] done own h = tt
  HasRows-kept known b check status db mid ((c, other) ∷ checks) done own (h, hs) = (
    HasRow-kept known b check status db mid (row_key source now c) done own h,
    HasRows-kept known b check status db mid checks done own hs,
  )

  pub writes_for-succeeds :
      (open_at_start : List ℕ) (checks : List (IdentityBinding × Check)) (db : Db)
      → All (λ (b, _). HasRow db (row_key source now b)) checks
      → (end : Db) × (perform_all (writes_for source now open_at_start checks) db ≡ ok end)
  unfolding writes_for perform_all
  writes_for-succeeds open_at_start [] db h = (db, refl)
  writes_for-succeeds open_at_start ((b, check) ∷ checks) db (h, hs) =
      let known = contains open_at_start b.neutral_id in
      let (mid, first) = write_for-succeeds known b check check.status db h in
      let (end, rest) =
        writes_for-succeeds open_at_start checks mid
          (HasRows-kept known b check check.status db mid checks first h hs) in
      (
        end,
        perform_all-then source now (write_for source now known b check check.status)
              (writes_for source now open_at_start checks) db mid first
            ∙ rest,
      )

  check_one-answers :
      (b : IdentityBinding) (db : Db) (history : List IdentityRef)
      → source.on_read history b.identity ≢ err unclassified
      → (check : Check) × (check_one source b db history ≡ ok check)
  unfolding check_one
  check_one-answers b db history fine = go (source.on_read history b.identity) fine
    where
      go :
          (answer : Result ReadError NeutralEntity)
          → answer ≢ err unclassified
          → (check : Check) × (judged source b db answer ≡ ok check)
      go (ok entity) h = (_, refl)
      go (err unclassified) h = absurd (h refl)
      go (err (classified auth_error)) h = (_, refl)
      go (err (classified (transient_error after))) h = (_, refl)
      go (err (classified not_found)) h = (_, refl)
      go (err (classified conflict_error)) h = (_, refl)
      go (err (classified capability_error)) h = (_, refl)
      go (err (classified other_error)) h = (_, refl)

  pub check_all-succeeds :
      ((history : List IdentityRef) (i : IdentityRef) → source.on_read history i ≢ err unclassified)
      → (bs : List IdentityBinding) (db : Db) (history : List IdentityRef)
      → (checks : List (IdentityBinding × Check)) × (reads : List IdentityRef) × (check_all source
            bs db history
          ≡ (ok checks, reads))
  unfolding check_all
  check_all-succeeds fine [] db history = ([], history, refl)
  check_all-succeeds fine (b ∷ bs) db history =
      let (check, one) = check_one-answers b db history (fine history b.identity) in
      let (checks, reads, rest) = check_all-succeeds fine bs db (b.identity ∷ history) in
      ((b, check) ∷ checks, reads, ground (arith, one, rest))

  pub reconcile_bindings-answers :
      (bs : List IdentityBinding) (db later end : Db) (history : List IdentityRef)
      (checks : List (IdentityBinding × Check)) (reads : List IdentityRef)
      → first_foreign source now bs ≡ none
      → check_all source bs db history ≡ (ok checks, reads)
      → perform_all
          (writes_for source now (open_ids (list_orphans (some source.name) true db)) checks)
          later
        ≡ ok end
      → (report : ReconciliationReport) × (reconcile_bindings source now bs db later history
          ≡ (ok report, end, reads))
  unfolding reconcile_bindings unit_of_work check_all writes_for perform_all
  reconcile_bindings-answers [] db later end history checks reads own found done =
      (empty_report source now 0, go checks (cc) done)
    where
      go :
          (cs : List (IdentityBinding × Check))
          → cs ≡ []
          → perform_all
              (writes_for source now (open_ids (list_orphans (some source.name) true db)) cs)
              later
            ≡ ok end
          → reconcile_bindings source now [] db later history
            ≡ (ok (empty_report source now 0), end, reads)
      go [] e h = cc
      go (c ∷ cs) e h = absurd (cc (e))
  reconcile_bindings-answers (b ∷ bs) db later end history checks reads own found done = (
    report_for source now (length (b ∷ bs)) (open_ids (list_orphans (some source.name) true db))
        checks,
    ground (arith, own, found, done),
  )

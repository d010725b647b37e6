-- ===== src/Orphans/Recheck.antt =====
-- A recheck of the open orphans of a type always answers, unless a read fails unclassified.
use qlabs_catalog_sync.Prelude.{
  ℕ, true, List, [], ◌∷◌, none, some, ok, err, string_eq, nat_eq, All, ◌≡◌, ◌≢◌, sym, ap, ◌∙◌,
  subst,
}
use qlabs_catalog_sync.Prelude.Dict
use qlabs_catalog_sync.Prelude.Dict.{Dict, NodupKeys}
use qlabs_catalog_sync.Prelude.Distinct.{All-map}
use qlabs_catalog_sync.Models.{EntityType, entity_type_eq, IdentityRef}
use qlabs_catalog_sync.State.Rows.{RowKey, row_key_eq, Db}
use qlabs_catalog_sync.State.Queries.{IdentityBinding, list_orphans}
use qlabs_catalog_sync.State.Orphans.{shown, lookup-orphans_in}
use qlabs_catalog_sync.Orphans.Outcome.{binding_of, check_all-ok}
use qlabs_catalog_sync.Orphans.Checks.{Source, unclassified}
use qlabs_catalog_sync.Orphans.Pass.{
  ReconciliationReport, Outcome, row_key, open_ids, bindings_for, recheck_open_orphans,
}
use qlabs_catalog_sync.Orphans.Listed.{IsListed, rechecked-AreListed}
use qlabs_catalog_sync.Orphans.Succeeds.{
  HasRow, writes_for-succeeds, check_all-succeeds, reconcile_bindings-answers,
}

module _ (source : Source) (now : ℕ) where
  listed-HasRow :
      (db : Db) (key : RowKey)
      → NodupKeys db.orphan_log
      → Dict.lookup key (list_orphans (some source.name) true db) ≢ none
      → HasRow source now db key
  unfolding list_orphans
  listed-HasRow db key u listed gone = listed (
      lookup-orphans_in (some source.name) true key db.orphan_log u
      ∙ ap (shown (some source.name) true key) gone)

  All-HasRow :
      (db later : Db) (bs : List IdentityBinding)
      → NodupKeys db.orphan_log
      → ((key : RowKey) → HasRow source now db key → HasRow source now later key)
      → All (IsListed source now (list_orphans (some source.name) true db)) bs
      → All (λ b. HasRow source now later (row_key source now b)) bs
  All-HasRow db later [] u kept h = tt
  All-HasRow db later (b ∷ bs) u kept (h, hs) =
      (kept _ (listed-HasRow db (row_key source now b) u h), All-HasRow db later bs u kept hs)

  -- Where the keys of the orphan log do not repeat, other tasks remove none of its rows, and no read
  -- raises anything but a classified error, a recheck of the open orphans of a type answers with a
  -- report, whatever the source answers.
  pub recheck_open_orphans-answers :
      (t : EntityType) (db later : Db) (history : List IdentityRef)
      → NodupKeys db.orphan_log
      → ((key : RowKey) → HasRow source now db key → HasRow source now later key)
      → ((before : List IdentityRef) (i : IdentityRef) → source.on_read before i ≢ err unclassified)
      → (report : ReconciliationReport) × ((recheck_open_orphans source now t db later history).0
          ≡ ok report)
  unfolding recheck_open_orphans
  recheck_open_orphans-answers t db later history u kept fine =
      let bs = bindings_for source now t db (list_orphans (some source.name) true db) in
      let h = rechecked-AreListed source now t db u in
      let (checks, reads, found) = check_all-succeeds source now fine bs db history in
      let order = (check_all-ok source now bs db history checks reads found).0 in
      let rows =
        subst (All (λ b. HasRow source now later (row_key source now b))) (sym order)
          (All-HasRow db later bs u kept h.listed) in
      let (end, done) =
        writes_for-succeeds source now (open_ids (list_orphans (some source.name) true db)) checks
          later (All-map binding_of _ checks rows) in
      let (report, answer) =
        reconcile_bindings-answers source now bs db later end history checks reads h.own found
          done in
      (report, ap (λ (o : Outcome source now). o.0) answer)

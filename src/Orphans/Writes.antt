-- ===== src/Orphans/Writes.antt =====
-- What the commit of a pass over bindings does to the orphan log.
use qlabs_catalog_sync.Prelude.{
  ℕ, Bool, true, false, List, [], ◌∷◌, ◌++◌, Option, none, some, Result, ok, err, ok-injective,
  if◌then◌else◌, contains, ◌==◌, nat_eq, All, ◌≡◌, ◌≢◌, refl, sym, ap, ◌∙◌, subst, arith, ◌>>=◌,
  >>=-eq-ok, inl, inr, ◌⊎◌,
}
use qlabs_catalog_sync.Prelude.Dict
use qlabs_catalog_sync.Prelude.Dict.{Dict}
use qlabs_catalog_sync.Prelude.Distinct.{DistinctBy}
use qlabs_catalog_sync.Models.{IdentityRef}
use qlabs_catalog_sync.State.Rows.{RowKey, row_key_eq, OrphanLogRow, Db}
use qlabs_catalog_sync.State.UnitOfWork.{
  StoreError, Write, orphan_row, record_orphan, resolve_orphan, perform, perform_all, unit_of_work,
}
use qlabs_catalog_sync.State.Queries.{IdentityBinding}
use qlabs_catalog_sync.Orphans.Checks.{
  CheckStatus, present, missing, inconclusive, Check, Source, store_raised,
}
use qlabs_catalog_sync.Orphans.Pass.{
  row_key, write_for, writes_for, committed, ReconciliationReport,
}

module _ (source : Source) (now : ℕ) where
  -- The check of the binding with a row key.
  abbrev pub verdict : RowKey → List (IdentityBinding × Check) → Option (IdentityBinding × Check)
  verdict key [] = none
  verdict key ((b, check) ∷ checks) =
      if key == row_key source now b then some (b, check) else verdict key checks

  -- The row that a check leaves of the row before.
  abbrev pub row_after :
      Bool → IdentityBinding → Check → CheckStatus → Option OrphanLogRow → Option OrphanLogRow
  row_after known b check missing row =
      some (orphan_row (some b.identity.native_key) check.last_synced_at now row)
  row_after true b check present none = none
  row_after true b check present (some row) =
      some (record row { resolved_at = some now; last_seen_at = some now })
  row_after false b check present row = row
  row_after known b check inconclusive row = row

  abbrev pub settled_row :
      List ℕ → Option (IdentityBinding × Check) → Option OrphanLogRow → Option OrphanLogRow
  settled_row already_open none row = row
  settled_row already_open (some (b, check)) row =
      row_after (contains already_open b.neutral_id) b check check.status row

  perform_all-append :
      (ws vs : List Write) (db end : Db)
      → perform_all (ws ++ vs) db ≡ ok end
      → (mid : Db) × (perform_all ws db ≡ ok mid) × (perform_all vs mid ≡ ok end)
  unfolding perform_all
  perform_all-append [] vs db end h = (db, refl, h)
  perform_all-append (w ∷ ws) vs db end h =
      let (next, first, rest) = >>=-eq-ok (perform w db) (λ d. perform_all (ws ++ vs) d) h in
      let (mid, done, last) = perform_all-append ws vs next end rest in
      (mid, ap (λ (r : Result StoreError Db). r >>= perform_all ws) first ∙ done, last)

  pub perform_all-then :
      (ws vs : List Write) (db mid : Db)
      → perform_all ws db ≡ ok mid
      → perform_all (ws ++ vs) db ≡ perform_all vs mid
  unfolding perform_all
  perform_all-then [] vs db mid h = ap (perform_all vs) (ok-injective h)
  perform_all-then (w ∷ ws) vs db mid h =
      let (next, first, rest) = >>=-eq-ok (perform w db) (perform_all ws) h in
      ap (λ (r : Result StoreError Db). r >>= perform_all (ws ++ vs)) first
      ∙ perform_all-then ws vs next mid rest

  -- One check changes the row of its binding, and no other.
  pub write_for-row :
      (known : Bool) (b : IdentityBinding) (check : Check) (status : CheckStatus) (key : RowKey)
      (db end : Db)
      → perform_all (write_for source now known b check status) db ≡ ok end
      → Dict.lookup key end.orphan_log ≡ (
          if key == row_key source now b
          then row_after known b check status (Dict.lookup (row_key source now b) db.orphan_log)
          else Dict.lookup key db.orphan_log)
  unfolding perform_all perform write_for record_orphan resolve_orphan
  write_for-row known b check missing key db end h =
      ap (λ d. Dict.lookup key d.orphan_log) (sym (ok-injective h))
      ∙ Dict.lookup-insert key (row_key source now b) _ db.orphan_log
  write_for-row true b check present key db end h =
      go (Dict.lookup (row_key source now b) db.orphan_log) refl
    where
      go :
          (o : Option OrphanLogRow)
          → Dict.lookup (row_key source now b) db.orphan_log ≡ o
          → Dict.lookup key end.orphan_log ≡ (
              if key == row_key source now b
              then row_after true b check present o
              else Dict.lookup key db.orphan_log)
      go none e = cc
      go (some row) e =
          let kept : OrphanLogRow = record row {
            resolved_at = some now;
            last_seen_at = some now;
          } in
          let log = Dict.insert (row_key source now b) kept db.orphan_log in
          let done : ◌≡◌ {A = Result StoreError Db} (ok (record db { orphan_log = log })) (ok end) =
            cc in
          ap (λ d. Dict.lookup key d.orphan_log) (sym (ok-injective done))
          ∙ Dict.lookup-insert key (row_key source now b) kept db.orphan_log
  write_for-row false b check present key db end h = ground (arith, ok-injective h)
  write_for-row known b check inconclusive key db end h = ground (arith, ok-injective h)

  verdict-absent :
      (key : RowKey) (checks : List (IdentityBinding × Check))
      → All (λ (b, _). key ≢ row_key source now b) checks
      → verdict key checks ≡ none
  verdict-absent key [] h = refl
  verdict-absent key ((b, check) ∷ checks) (h, hs) = ground (arith, verdict-absent key checks hs)

  -- The row of every key after the writes for the checks of different bindings.
  pub writes_for-row :
      (already_open : List ℕ) (checks : List (IdentityBinding × Check)) (key : RowKey) (db end : Db)
      → DistinctBy (λ (b, _). row_key source now b) checks
      → perform_all (writes_for source now already_open checks) db ≡ ok end
      → Dict.lookup key end.orphan_log
        ≡ settled_row already_open (verdict key checks) (Dict.lookup key db.orphan_log)
  unfolding writes_for perform_all
  writes_for-row already_open [] key db end _ h =
      ap (λ (d : Db). Dict.lookup key d.orphan_log) (sym (ok-injective h))
  writes_for-row already_open ((b, check) ∷ checks) key db end (apart, distinct) h =
      let known = contains already_open b.neutral_id in
      let (mid, first, rest) =
        perform_all-append (write_for source now known b check check.status)
          (writes_for source now already_open checks) db end h in
      let one = write_for-row known b check check.status key db mid first in
      let others = writes_for-row already_open checks key mid end distinct rest in
      elim (row_key_eq.dec key (row_key source now b)) [
        | yes same ↦
            let absent =
              verdict-absent key checks
                (subst (λ k. All (λ (c, _). k ≢ row_key source now c) checks) (sym same) apart) in
            ground arith
        | no differ ↦ ground arith
      ]

  only_log :
      (db end : Db) (log : Dict RowKey OrphanLogRow)
      → ◌≡◌ {A = Result StoreError Db} (ok (record db { orphan_log = log })) (ok end)
      → end ≡ record db { orphan_log = end.orphan_log }
  only_log db end log h =
      sym (ok-injective h)
      ∙ ap (λ (d : Db). record db { orphan_log = d.orphan_log }) (ok-injective h)

  write_for-log :
      (known : Bool) (b : IdentityBinding) (check : Check) (status : CheckStatus) (db end : Db)
      → perform_all (write_for source now known b check status) db ≡ ok end
      → end ≡ record db { orphan_log = end.orphan_log }
  unfolding perform_all perform write_for record_orphan resolve_orphan
  write_for-log known b check missing db end h = only_log db end _ h
  write_for-log true b check present db end h =
      go (Dict.lookup (row_key source now b) db.orphan_log) refl
    where
      go :
          (o : Option OrphanLogRow)
          → Dict.lookup (row_key source now b) db.orphan_log ≡ o
          → end ≡ record db { orphan_log = end.orphan_log }
      go none e = cc
      go (some row) e =
          let kept : OrphanLogRow = record row {
            resolved_at = some now;
            last_seen_at = some now;
          } in
          only_log db end (Dict.insert (row_key source now b) kept db.orphan_log) cc
  write_for-log false b check present db end h = only_log db end db.orphan_log h
  write_for-log known b check inconclusive db end h = only_log db end db.orphan_log h

  -- The writes change the orphan log only.
  pub writes_for-log :
      (already_open : List ℕ) (checks : List (IdentityBinding × Check)) (db end : Db)
      → perform_all (writes_for source now already_open checks) db ≡ ok end
      → end ≡ record db { orphan_log = end.orphan_log }
  unfolding writes_for perform_all
  writes_for-log already_open [] db end h = only_log db end db.orphan_log h
  writes_for-log already_open ((b, check) ∷ checks) db end h =
      let (mid, first, rest) =
        perform_all-append
          (write_for source now (contains already_open b.neutral_id) b check check.status)
          (writes_for source now already_open checks) db end h in
      writes_for-log already_open checks mid end rest
      ∙ ap (λ (d : Db). record d { orphan_log = end.orphan_log })
          (write_for-log (contains already_open b.neutral_id) b check check.status db mid first)

  -- A commit that succeeds did all the writes, and one that fails did none.
  pub committed-cases :
      (report : ReconciliationReport) (reads : List IdentityRef) (ws : List Write) (db : Db)
      → ((end : Db) × (perform_all ws db ≡ ok end)
          × (committed source now report reads (unit_of_work (perform_all ws) db)
              ≡ (ok report, end, reads)))
        ⊎ ((e : StoreError) × (committed source now report reads (unit_of_work (perform_all ws) db)
              ≡ (err (store_raised e), db, reads)))
  unfolding unit_of_work
  committed-cases report reads ws db = go (perform_all ws db) refl
    where
      go :
          (r : Result StoreError Db)
          → perform_all ws db ≡ r
          → ((end : Db) × (r ≡ ok end)
              × (committed source now report reads (unit_of_work (perform_all ws) db)
                  ≡ (ok report, end, reads)))
            ⊎ ((e : StoreError) × (committed source now report reads
                    (unit_of_work (perform_all ws) db)
                  ≡ (err (store_raised e), db, reads)))
      go (ok end) e = inl (
        end,
        refl,
        ap
            (λ (r : Result StoreError Db).
              committed source now report reads
                (elim r [ ok d ↦ (ok tt, d) | err x ↦ (err x, db) ]))
            e,
      )
      go (err x) e = inr (
        x,
        ap
            (λ (r : Result StoreError Db).
              committed source now report reads
                (elim r [ ok d ↦ (ok tt, d) | err x ↦ (err x, db) ]))
            e,
      )

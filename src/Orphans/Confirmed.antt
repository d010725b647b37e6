-- ===== src/Orphans/Confirmed.antt =====
-- When a recorded miss counts as confirmed.
use qlabs_catalog_sync.Prelude.{
  ℕ, ◌<◌, true, String, Option, none, some, ok, ok-injective, ◌≡◌, refl, sym, ap, ◌∙◌, subst, ◌↔◌,
  arith,
}
use qlabs_catalog_sync.Prelude.Dict
use qlabs_catalog_sync.State.Rows.{RowKey, row_key_eq, OrphanLogRow, Db}
use qlabs_catalog_sync.State.UnitOfWork.{record_orphan, orphan_row}
use qlabs_catalog_sync.Orphans.Digest.{confirmed, OrphanPolicy, confidence}

recorded_row :
    (key : RowKey) (native_key : Option String) (last_seen_at : Option ℕ) (now : ℕ) (db db' : Db)
    → record_orphan key native_key last_seen_at now db ≡ ok db'
    → Dict.lookup key db'.orphan_log
      ≡ some (orphan_row native_key last_seen_at now (Dict.lookup key db.orphan_log))
unfolding record_orphan
recorded_row key native_key last_seen_at now db db' h =
    ap (λ (d : Db). Dict.lookup key d.orphan_log) (sym (ok-injective h))
    ∙ Dict.lookup-insert key key _ db.orphan_log
    ∙ ground arith

-- Under a policy that wants reconfirmation, a miss that is recorded is confirmed exactly when the
-- log had a row of the object already, with an earlier first miss. That row may have been resolved
-- in between: its first miss stays, and then the first miss after the return is confirmed at once.
pub record_orphan-confidence :
    (policy : OrphanPolicy) (key : RowKey) (native_key : Option String) (last_seen_at : Option ℕ)
    (now : ℕ) (db db' : Db) (row : OrphanLogRow)
    → policy.require_reconfirmation ≡ true
    → record_orphan key native_key last_seen_at now db ≡ ok db'
    → Dict.lookup key db'.orphan_log ≡ some row
    → (confidence policy row ≡ confirmed) ↔ (
        (before : OrphanLogRow) × (Dict.lookup key db.orphan_log ≡ some before)
        × (before.first_missing_at < now))
unfolding confidence
record_orphan-confidence policy key native_key last_seen_at now db db' row strict recorded found =
    go (Dict.lookup key db.orphan_log) refl
      (sym found ∙ recorded_row key native_key last_seen_at now db db' recorded)
  where
    go :
        (o : Option OrphanLogRow)
        → Dict.lookup key db.orphan_log ≡ o
        → some row ≡ some (orphan_row native_key last_seen_at now o)
        → (confidence policy row ≡ confirmed) ↔ (
            (before : OrphanLogRow) × (Dict.lookup key db.orphan_log ≡ some before)
            × (before.first_missing_at < now))
    go none e f =
        let same : row ≡ orphan_row native_key last_seen_at now none = cc in
        let first : row.first_missing_at ≡ now =
          ap (λ (r : OrphanLogRow). r.first_missing_at) same in
        let last : row.last_missing_at ≡ now = ap (λ (r : OrphanLogRow). r.last_missing_at) same in
        ((λ h. ground arith), λ (before, found', _). absurd (cc (e, found')))
    go (some before) e f =
        let same : row ≡ orphan_row native_key last_seen_at now (some before) = cc in
        let first : row.first_missing_at ≡ before.first_missing_at =
          ap (λ (r : OrphanLogRow). r.first_missing_at) same in
        let last : row.last_missing_at ≡ now = ap (λ (r : OrphanLogRow). r.last_missing_at) same in
        (
          (λ h. (before, e, ground arith)),
          λ (other, found', earlier).
              let it : before ≡ other = cc in
              let early : before.first_missing_at < now =
                subst (λ (r : OrphanLogRow). r.first_missing_at < now) (sym it) earlier in
              ground arith,
        )

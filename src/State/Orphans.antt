-- ===== src/State/Orphans.antt =====
-- The orphan log: which rows `list_orphans` reports as open.
use qlabs_catalog_sync.Prelude.{
  ℕ, Bool, true, false, not, ◌&&◌, ◌||◌, [], ◌∷◌, String, Option, none, some, if◌then◌else◌, ◌==◌,
  string_eq, is_none, ◌≡◌, refl, sym, ap, ◌∙◌, ok, ok-injective, arith, subst,
}
use qlabs_catalog_sync.Prelude.Dict
use qlabs_catalog_sync.Prelude.Dict.{Dict, NodupKeys}
use qlabs_catalog_sync.State.Rows.{RowKey, row_key_eq, OrphanLogRow, Db}
use qlabs_catalog_sync.State.UnitOfWork.{orphan_row, record_orphan, resolve_orphan}
use qlabs_catalog_sync.State.Queries.{at_endpoint, orphans_in, list_orphans}

abbrev pub shown : Option String → Bool → RowKey → Option OrphanLogRow → Option OrphanLogRow
shown endpoint unresolved_only key none = none
shown endpoint unresolved_only key (some row) =
    if at_endpoint endpoint key.endpoint && (not unresolved_only || is_none row.resolved_at)
    then some row
    else none

pub lookup-orphans_in :
    (endpoint : Option String) (unresolved_only : Bool) (key : RowKey)
    (rows : Dict RowKey OrphanLogRow)
    → NodupKeys rows
    → Dict.lookup key (orphans_in endpoint unresolved_only rows)
      ≡ shown endpoint unresolved_only key (Dict.lookup key rows)
unfolding orphans_in Dict.lookup
lookup-orphans_in endpoint unresolved_only key [] nodup = refl
lookup-orphans_in endpoint unresolved_only key ((k, r) ∷ rows) (fresh, nodup) =
    ground (arith, lookup-orphans_in endpoint unresolved_only key rows nodup)

pick-shown :
    (key j : RowKey) (row : OrphanLogRow) (before : Option OrphanLogRow)
    → shown none true j (if j == key then some row else before)
      ≡ (if j == key then shown none true key (some row) else shown none true j before)
pick-shown key j row before = ground arith

-- The open orphans after a change of one row.
open-insert :
    (key j : RowKey) (row : OrphanLogRow) (db db' : Db)
    → NodupKeys db.orphan_log
    → db'.orphan_log ≡ Dict.insert key row db.orphan_log
    → Dict.lookup j (list_orphans none true db') ≡ (
        if j == key
        then shown none true key (some row)
        else Dict.lookup j (list_orphans none true db))
unfolding list_orphans
open-insert key j row db db' nodup same =
    ap (λ log. Dict.lookup j (orphans_in none true log)) same
    ∙ lookup-orphans_in none true j _ (Dict.insert-NodupKeys key row db.orphan_log nodup)
    ∙ ap (shown none true j) (Dict.lookup-insert j key row db.orphan_log)
    ∙ pick-shown key j row _
    ∙ ap (λ o. if j == key then shown none true key (some row) else o)
        (sym (lookup-orphans_in none true j db.orphan_log nodup))

recorded-shown :
    (key : RowKey) (native_key : Option String) (last_seen : Option ℕ) (now : ℕ)
    (before : Option OrphanLogRow)
    → shown none true key (some (orphan_row native_key last_seen now before))
      ≡ some (orphan_row native_key last_seen now before)
recorded-shown key native_key last_seen now none = refl
recorded-shown key native_key last_seen now (some r) = refl

record_orphan-open :
    (key j : RowKey) (native_key : Option String) (last_seen : Option ℕ) (now : ℕ) (db db' : Db)
    → NodupKeys db.orphan_log
    → record_orphan key native_key last_seen now db ≡ ok db'
    → Dict.lookup j (list_orphans none true db') ≡ (
        if j == key
        then some (orphan_row native_key last_seen now (Dict.lookup key db.orphan_log))
        else Dict.lookup j (list_orphans none true db))
unfolding record_orphan
record_orphan-open key j native_key last_seen now db db' nodup h =
    open-insert key j _ db db' nodup (sym (ap (λ d. d.orphan_log) (ok-injective h)))
    ∙ ap (λ o. if j == key then o else Dict.lookup j (list_orphans none true db))
        (recorded-shown key native_key last_seen now _)

resolve_orphan-cases :
    (key : RowKey) (now : ℕ) (db db' : Db)
    → resolve_orphan key now db ≡ ok db'
    → (row : OrphanLogRow) × (is_none row.resolved_at ≡ false)
      × (db'.orphan_log ≡ Dict.insert key row db.orphan_log)
unfolding resolve_orphan
resolve_orphan-cases key now db db' h = go (Dict.lookup key db.orphan_log) refl
  where
    go :
        (o : Option OrphanLogRow)
        → Dict.lookup key db.orphan_log ≡ o
        → (row : OrphanLogRow) × (is_none row.resolved_at ≡ false)
          × (db'.orphan_log ≡ Dict.insert key row db.orphan_log)
    go none missing = cc
    go (some r) found =
        (record r { resolved_at = some now; last_seen_at = some now }, refl, ground arith)

resolve_orphan-closed :
    (key j : RowKey) (now : ℕ) (db db' : Db)
    → NodupKeys db.orphan_log
    → resolve_orphan key now db ≡ ok db'
    → Dict.lookup j (list_orphans none true db')
      ≡ (if j == key then none else Dict.lookup j (list_orphans none true db))
resolve_orphan-closed key j now db db' nodup h =
    let (row, closed, log) = resolve_orphan-cases key now db db' h in
    open-insert key j row db db' nodup log
    ∙ ap
        (λ b.
          if j == key
          then (if b then some row else none)
          else Dict.lookup j (list_orphans none true db))
        closed

record_orphan-NodupKeys :
    (key : RowKey) (native_key : Option String) (last_seen : Option ℕ) (now : ℕ) (db db' : Db)
    → NodupKeys db.orphan_log
    → record_orphan key native_key last_seen now db ≡ ok db'
    → NodupKeys db'.orphan_log
unfolding record_orphan
record_orphan-NodupKeys key native_key last_seen now db db' nodup h =
    subst (λ d. NodupKeys d.orphan_log) (ok-injective h)
      (Dict.insert-NodupKeys key _ db.orphan_log nodup)

-- What the open row of an orphan recorded now holds, by the row of its key before.
abbrev pub IsRecordedAs : Option String → Option ℕ → ℕ → Option OrphanLogRow → OrphanLogRow → Type 0
IsRecordedAs native_key last_seen now before row =
    (row.first_missing_at ≡ elim before [ none ↦ now | some r ↦ r.first_missing_at ])
    × (row.last_missing_at ≡ now)
    × (row.native_key ≡ elim native_key [
      | some k ↦ some k
      | none ↦ elim before [ none ↦ none | some r ↦ r.native_key ]
    ])
    × (row.last_seen_at ≡ elim last_seen [
      | some seen ↦ some seen
      | none ↦ elim before [ none ↦ none | some r ↦ r.last_seen_at ]
    ])
    × (row.resolved_at ≡ none)

orphan_row-IsRecordedAs :
    (native_key : Option String) (last_seen : Option ℕ) (now : ℕ) (before : Option OrphanLogRow)
    → IsRecordedAs native_key last_seen now before (orphan_row native_key last_seen now before)
orphan_row-IsRecordedAs none none now none = (refl, refl, refl, refl, refl)
orphan_row-IsRecordedAs none none now (some r) = (refl, refl, refl, refl, refl)
orphan_row-IsRecordedAs none (some seen) now none = (refl, refl, refl, refl, refl)
orphan_row-IsRecordedAs none (some seen) now (some r) = (refl, refl, refl, refl, refl)
orphan_row-IsRecordedAs (some k) none now none = (refl, refl, refl, refl, refl)
orphan_row-IsRecordedAs (some k) none now (some r) = (refl, refl, refl, refl, refl)
orphan_row-IsRecordedAs (some k) (some seen) now none = (refl, refl, refl, refl, refl)
orphan_row-IsRecordedAs (some k) (some seen) now (some r) = (refl, refl, refl, refl, refl)

-- The life of an orphan, in a log whose keys do not repeat. Recorded now, it is open: its row was
-- first missing at the time of the row before, or now without one; last missing now; has the native
-- key and the last sighting that the record brings, or else those of the row before; and is not
-- resolved. Resolved, it is open no more. Every other row stays as open as it was.
pub orphan_lifecycle :
    (key j : RowKey) (native_key : Option String) (last_seen : Option ℕ) (now later : ℕ)
    (db db1 db2 : Db)
    → NodupKeys db.orphan_log
    → record_orphan key native_key last_seen now db ≡ ok db1
    → resolve_orphan key later db1 ≡ ok db2
    → (row : OrphanLogRow) × IsRecordedAs native_key last_seen now
        (Dict.lookup key db.orphan_log)
        row
      × (Dict.lookup j (list_orphans none true db1)
          ≡ (if j == key then some row else Dict.lookup j (list_orphans none true db)))
      × (Dict.lookup j (list_orphans none true db2)
          ≡ (if j == key then none else Dict.lookup j (list_orphans none true db)))
orphan_lifecycle key j native_key last_seen now later db db1 db2 nodup recorded resolved =
    let opened = record_orphan-open key j native_key last_seen now db db1 nodup recorded in
    let nodup1 = record_orphan-NodupKeys key native_key last_seen now db db1 nodup recorded in
    (
      _,
      orphan_row-IsRecordedAs native_key last_seen now (Dict.lookup key db.orphan_log),
      opened,
      resolve_orphan-closed key j later db1 db2 nodup1 resolved ∙ ground (arith, opened),
    )

-- ===== src/State/Uniqueness.antt =====
-- The unique constraint of `identity_map`: no unit of work breaks it, so a native object is
-- never bound to two neutral ids.
use qlabs_catalog_sync.Prelude.{
  ℕ, ◌≤◌, Bool, true, false, List, [], ◌∷◌, Option, none, some, string_eq, ◌≡◌, refl, sym, ap, ◌∙◌,
  Result, ok, err, ok-injective, subst, length, arith, Bool-cases, ◌⊎◌, inl, inr, >>=-eq-ok,
}
use qlabs_catalog_sync.Prelude.Dict
use qlabs_catalog_sync.Prelude.Dict.{Dict, NodupKeys}
use qlabs_catalog_sync.Models.{entity_type_eq, IdentityRef}
use qlabs_catalog_sync.State.Rows.{RowKey, row_key_eq, IdentityMapRow, Db}
use qlabs_catalog_sync.State.UnitOfWork.{
  StoreError, upsert_field_envelope, advance_watermark, record_orphan, resolve_orphan, Write, bind,
  confirm, upsert, advance, orphan, resolve, perform, perform_all, unit_of_work, names_object,
  taken, identity_key, bound_row, bind_identity, confirm_identity,
}
use qlabs_catalog_sync.State.Queries.{
  IdentityBinding, binding_from_row, bindings_of, find_binding, one_or_none,
}

-- No two rows stand for the same native object.
pub record IsSound (rows : Dict RowKey IdentityMapRow) : Type 0 where
  pub nodup : NodupKeys rows
  pub once : (i : IdentityRef) → length (bindings_of i rows) ≤ 1

free-bindings :
    (key : RowKey) (i : IdentityRef) (rows : Dict RowKey IdentityMapRow)
    → taken key i rows ≡ false
    → Dict.lookup key rows ≡ none
    → bindings_of i rows ≡ []
unfolding taken bindings_of Dict.lookup
free-bindings key i [] free absent = refl
free-bindings key i ((j, r) ∷ rows) free absent = ground (arith, free-bindings key i rows)

pub bound-bindings :
    (key : RowKey) (i : IdentityRef) (row : IdentityMapRow) (rows : Dict RowKey IdentityMapRow)
    → NodupKeys rows
    → taken key i rows ≡ false
    → names_object i key row ≡ true
    → bindings_of i (Dict.insert key row rows) ≡ binding_from_row key row ∷ []
unfolding taken bindings_of Dict.insert
bound-bindings key i row [] _ free named = ground arith
bound-bindings key i row ((j, r) ∷ rows) (fresh, nodup) free named =
    ground (arith, bound-bindings key i row rows nodup, free-bindings key i rows)

unnamed-bindings :
    (key : RowKey) (i : IdentityRef) (row : IdentityMapRow) (rows : Dict RowKey IdentityMapRow)
    → names_object i key row ≡ false
    → length (bindings_of i (Dict.insert key row rows)) ≤ length (bindings_of i rows)
unfolding bindings_of Dict.insert
unnamed-bindings key i row [] named = ground arith
unnamed-bindings key i row ((j, r) ∷ rows) named =
    ground (arith, unnamed-bindings key i row rows named)

same-bindings :
    (key : RowKey) (i : IdentityRef) (new old : IdentityMapRow) (rows : Dict RowKey IdentityMapRow)
    → Dict.lookup key rows ≡ some old
    → names_object i key new ≡ names_object i key old
    → length (bindings_of i (Dict.insert key new rows)) ≡ length (bindings_of i rows)
unfolding bindings_of Dict.insert Dict.lookup
same-bindings key i new old [] found named = cc
same-bindings key i new old ((j, r) ∷ rows) found named =
    ground (arith, same-bindings key i new old rows)

-- The four fields by which a native object is known.
unfoldable pub Agree : (i j : IdentityRef) → Type 0
Agree i j =
    (i.endpoint ≡ j.endpoint)
    × (i.entity_type ≡ j.entity_type)
    × (i.tenant_id ≡ j.tenant_id)
    × (i.native_key ≡ j.native_key)

named-Agree :
    (i j : IdentityRef) (n : ℕ) (confirmed : Bool) (now : ℕ) (before : Option IdentityMapRow)
    → names_object i (identity_key n j) (bound_row j confirmed now before) ≡ true
    → Agree i j
unfolding names_object Agree
named-Agree i j n confirmed now none named = ground arith
named-Agree i j n confirmed now (some r) named = ground arith

names_object-Agree :
    (i j : IdentityRef) (key : RowKey) (row : IdentityMapRow)
    → Agree i j
    → names_object i key row ≡ names_object j key row
unfolding names_object Agree
names_object-Agree i j key row (e, t, n, k) = cc

taken-Agree :
    (i j : IdentityRef) (key : RowKey) (rows : Dict RowKey IdentityMapRow)
    → Agree i j
    → taken key i rows ≡ taken key j rows
unfolding taken
taken-Agree i j key [] same = refl
taken-Agree i j key ((k, r) ∷ rows) same =
    cc (names_object-Agree i j k r same, taken-Agree i j key rows same)

pub bind_identity-cases :
    (n : ℕ) (i : IdentityRef) (confirmed : Bool) (now : ℕ) (db db' : Db)
    → bind_identity n i confirmed now db ≡ ok db'
    → (taken (identity_key n i) i db.identity_map ≡ false)
      × (db'.identity_map
          ≡ Dict.insert
              (identity_key n i)
              (bound_row i confirmed now (Dict.lookup (identity_key n i) db.identity_map))
              db.identity_map)
unfolding bind_identity
bind_identity-cases n i confirmed now db db' h = ground arith

pub bound-named :
    (i j : IdentityRef) (n : ℕ) (confirmed : Bool) (now : ℕ) (before : Option IdentityMapRow)
    → Agree i j
    → names_object i (identity_key n j) (bound_row j confirmed now before) ≡ true
unfolding names_object Agree
bound-named i j n confirmed now none (e, t, k, l) = ground arith
bound-named i j n confirmed now (some r) (e, t, k, l) = ground arith

bind-once :
    (n : ℕ) (i : IdentityRef) (confirmed : Bool) (now : ℕ) (before : Option IdentityMapRow)
    (rows : Dict RowKey IdentityMapRow) (j : IdentityRef)
    → IsSound rows
    → taken (identity_key n i) i rows ≡ false
    → length
        (bindings_of j (Dict.insert (identity_key n i) (bound_row i confirmed now before) rows))
      ≤ 1
bind-once n i confirmed now before rows j sound free = elim (Bool-cases (names_object j key row)) [
  | inl named ↦
      let same = named-Agree j i n confirmed now before named in
      rw (bound-bindings key j row rows sound.nodup (taken-Agree j i key rows same ∙ free) named)
        (omega arith)
  | inr other ↦ omega (arith, unnamed-bindings key j row rows other, sound.once j)
]
  where
    key : RowKey
    key = identity_key n i

    row : IdentityMapRow
    row = bound_row i confirmed now before

bind_identity-IsSound :
    (n : ℕ) (i : IdentityRef) (confirmed : Bool) (now : ℕ) (db db' : Db)
    → bind_identity n i confirmed now db ≡ ok db'
    → IsSound db.identity_map
    → IsSound db'.identity_map
bind_identity-IsSound n i confirmed now db db' h sound =
    let (free, rows) = bind_identity-cases n i confirmed now db db' h in
    subst IsSound (sym rows) (record {
      nodup = Dict.insert-NodupKeys _ _ db.identity_map sound.nodup;
      once = λ j. bind-once n i confirmed now _ db.identity_map j sound free;
    })

confirm_identity-IsSound :
    (key : RowKey) (now : ℕ) (db db' : Db)
    → confirm_identity key now db ≡ ok db'
    → IsSound db.identity_map
    → IsSound db'.identity_map
unfolding confirm_identity names_object
confirm_identity-IsSound key now db db' h sound = go (Dict.lookup key db.identity_map) refl
  where
    go :
        (o : Option IdentityMapRow) → Dict.lookup key db.identity_map ≡ o → IsSound db'.identity_map
    go none missing = cc
    go (some row) found =
        let new : IdentityMapRow = record row {
          confirmed = true;
          confirmed_at = some now;
          updated_at = now;
        } in
        subst IsSound (ground arith) (record {
          nodup = Dict.insert-NodupKeys key new db.identity_map sound.nodup;
          once = λ i.
              omega (arith, sound.once i, same-bindings key i new row db.identity_map found refl);
        })

-- The other writes leave `identity_map` alone.
kept-IsSound :
    (db db' : Db)
    → db'.identity_map ≡ db.identity_map
    → IsSound db.identity_map
    → IsSound db'.identity_map
kept-IsSound db db' same = subst IsSound (sym same)

resolve-keeps :
    (key : RowKey) (now : ℕ) (db db' : Db)
    → resolve_orphan key now db ≡ ok db'
    → db'.identity_map ≡ db.identity_map
unfolding resolve_orphan
resolve-keeps key now db db' h = ground arith

perform-IsSound :
    (w : Write) (db db' : Db)
    → perform w db ≡ ok db'
    → IsSound db.identity_map
    → IsSound db'.identity_map
unfolding perform upsert_field_envelope advance_watermark record_orphan
perform-IsSound (bind n i confirmed now) db db' h = bind_identity-IsSound n i confirmed now db db' h
perform-IsSound (confirm key now) db db' h = confirm_identity-IsSound key now db db' h
perform-IsSound (upsert key e now) db db' h =
    kept-IsSound db db' (sym (ap (λ d. d.identity_map) (ok-injective h)))
perform-IsSound (advance key token status run_at) db db' h =
    kept-IsSound db db' (sym (ap (λ d. d.identity_map) (ok-injective h)))
perform-IsSound (orphan key native_key last_seen observed) db db' h =
    kept-IsSound db db' (sym (ap (λ d. d.identity_map) (ok-injective h)))
perform-IsSound (resolve key now) db db' h = kept-IsSound db db' (resolve-keeps key now db db' h)

pub perform_all-IsSound :
    (ws : List Write) (db db' : Db)
    → perform_all ws db ≡ ok db'
    → IsSound db.identity_map
    → IsSound db'.identity_map
unfolding perform_all
perform_all-IsSound [] db db' h sound = subst (λ d. IsSound d.identity_map) (ok-injective h) sound
perform_all-IsSound (w ∷ ws) db db' h sound =
    let (db1, first, rest) = >>=-eq-ok (perform w db) _ h in
    perform_all-IsSound ws db1 db' rest (perform-IsSound w db db1 first sound)

find-one :
    (bs : List IdentityBinding)
    → length bs ≤ 1
    → (o : Option IdentityBinding) × (one_or_none bs ≡ ok o)
find-one [] h = (none, refl)
find-one (b ∷ []) h = (some b, refl)
find-one (b ∷ c ∷ bs) h = absurd (omega (arith, h))

pub unit_of_work-cases :
    (body : Db → Result StoreError Db) (db : Db)
    → ((unit_of_work body db).1 ≡ db) ⊎ (body db ≡ ok (unit_of_work body db).1)
unfolding unit_of_work
unit_of_work-cases body db = go (body db) refl
  where
    go :
        (r : Result StoreError Db)
        → body db ≡ r
        → ((unit_of_work body db).1 ≡ db) ⊎ (body db ≡ ok (unit_of_work body db).1)
    go (ok db') h = inr (rw (unit_of_work, h) refl)
    go (err e) h = inl (rw (unit_of_work, h) refl)

pub unit_of_work-IsSound :
    (ws : List Write) (db : Db)
    → IsSound db.identity_map
    → IsSound (unit_of_work (perform_all ws) db).1.identity_map
unit_of_work-IsSound ws db sound = elim (unit_of_work-cases (perform_all ws) db) [
  | inl same ↦ subst (λ d. IsSound d.identity_map) (sym same) sound
  | inr done ↦ perform_all-IsSound ws db _ done sound
]

-- A unit of work of any writes, committed or rolled back, leaves no native object under two
-- neutral ids when none was before, so that every later `find_binding` answers: it does not
-- raise `MultipleResultsFound`.
pub find_binding_total :
    (ws : List Write) (db : Db) (i : IdentityRef)
    → IsSound db.identity_map
    → IsSound (unit_of_work (perform_all ws) db).1.identity_map
      × ((o : Option IdentityBinding) × (find_binding i (unit_of_work (perform_all ws) db).1
            ≡ ok o))
unfolding find_binding
find_binding_total ws db i sound =
    let after = unit_of_work-IsSound ws db sound in
    (after, find-one (bindings_of i _) (after.once i))

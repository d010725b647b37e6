-- ===== src/Tests/State.antt =====
-- A store with one confirmed binding, one stored envelope and one orphan.
use qlabs_catalog_sync.Prelude.{
  ◌≡◌, refl, true, [], ◌∷◌, String, Option, none, some, if◌then◌else◌, ok, arith, ◌==◌, string_eq,
  nat_eq, length, ◌≤◌,
}
use qlabs_catalog_sync.Prelude.Text.{is_empty}
use qlabs_catalog_sync.Prelude.Dict
use qlabs_catalog_sync.Prelude.Dict.{Dict}
use qlabs_catalog_sync.Models.{data_product, entity_type_eq, str, IdentityRef, FieldEnvelope}
use qlabs_catalog_sync.State.Rows.{Db, empty, RowKey, OrphanLogRow, row_key_eq, envelope_key_eq}
use qlabs_catalog_sync.State.UnitOfWork.{
  Write, bind, confirm, unit_of_work, perform_all, bind_identity, identity_key, bound_row,
  upsert_field_envelope, envelope_row, record_orphan, resolve_orphan, orphan_row,
}
use qlabs_catalog_sync.State.Queries.{
  IdentityBinding, bindings_of, find_binding, get_binding, fetch_envelopes, list_orphans,
}
use qlabs_catalog_sync.State.Uniqueness.{IsSound, find_binding_total}
use qlabs_catalog_sync.State.Bound.{IsBoundAs, bind-find}
use qlabs_catalog_sync.State.Envelopes.{key_of, upsert-fetch}
use qlabs_catalog_sync.State.Orphans.{IsRecordedAs, orphan_lifecycle}

abbrev pub east : IdentityRef
east = record {
  endpoint = "uc";
  entity_type = data_product;
  native_key = "sales.east";
  tenant_id = "t1";
  secondary_keys = [];
}

abbrev key : RowKey
key = identity_key 7 east

none_bound : (i : IdentityRef) → length (bindings_of i empty.identity_map) ≤ 1
unfolding bindings_of
none_bound i = omega arith

pub empty-IsSound : IsSound empty.identity_map
empty-IsSound = record { nodup = tt; once = λ i. none_bound i }

abbrev bound : Db
bound = record empty { identity_map = (key, bound_row east true 10 none) ∷ [] }

bound_once : bind_identity 7 east true 10 empty ≡ ok bound
unfolding bind_identity qlabs_catalog_sync.State.UnitOfWork.taken Dict.insert Dict.lookup
bound_once = refl

find_binding_total_example :
    IsSound
      (unit_of_work
        (perform_all (bind 7 east true 10 ∷ bind 8 east true 11 ∷ []))
        empty).1.identity_map
    × ((o : Option IdentityBinding) × (find_binding east
            (unit_of_work (perform_all (bind 7 east true 10 ∷ bind 8 east true 11 ∷ [])) empty).1
          ≡ ok o))
find_binding_total_example =
    find_binding_total (bind 7 east true 10 ∷ bind 8 east true 11 ∷ []) empty east empty-IsSound

bind-find_example :
    (b : IdentityBinding) × (find_binding east bound ≡ ok (some b))
    × IsBoundAs 7 east true 10 (get_binding key empty) b
bind-find_example = bind-find 7 east true 10 empty bound bound_once empty-IsSound

abbrev title : FieldEnvelope
title = record {
  value = str "Sales";
  source_endpoint = "uc";
  source_revision = none;
  last_modified_at = none;
  last_synced_at = some 12;
  checksum = some "a1";
}

abbrev with_title : Db
with_title = record empty {
  field_envelopes = (key_of 7 "qlik" data_product "name", envelope_row title 12) ∷ [];
}

titled : upsert_field_envelope (key_of 7 "qlik" data_product "name") title 12 empty ≡ ok with_title
unfolding upsert_field_envelope Dict.insert
titled = refl

abbrev name : String
name = "name"

abbrev uc : String
uc = "uc"

upsert-fetch_example : Dict.lookup "name" (fetch_envelopes 7 "qlik" with_title) ≡ (
    if name == name
    then some (record title { source_endpoint = if is_empty uc then "qlik" else uc })
    else Dict.lookup "name" (fetch_envelopes 7 "qlik" empty))
upsert-fetch_example =
    upsert-fetch 7 "qlik" data_product "name" "name" title 12 empty tt tt with_title titled

abbrev gone : Db
gone = record empty { orphan_log = (key, orphan_row (some "sales.east") (some 5) 20 none) ∷ [] }

abbrev back : Db
back = record empty {
  orphan_log =
      (
        key,
        record (orphan_row (some "sales.east") (some 5) 20 none) {
          resolved_at = some 30;
          last_seen_at = some 30;
        },
      )
      ∷ [];
}

recorded : record_orphan key (some "sales.east") (some 5) 20 empty ≡ ok gone
unfolding record_orphan Dict.insert Dict.lookup
recorded = refl

resolved : resolve_orphan key 30 gone ≡ ok back
unfolding resolve_orphan Dict.lookup Dict.insert
resolved = ground arith

orphan_lifecycle_example :
    (row : OrphanLogRow) × IsRecordedAs
      (some "sales.east")
      (some 5)
      20
      (Dict.lookup key empty.orphan_log)
      row
    × (Dict.lookup key (list_orphans none true gone)
        ≡ (if key == key then some row else Dict.lookup key (list_orphans none true empty)))
    × (Dict.lookup key (list_orphans none true back)
        ≡ (if key == key then none else Dict.lookup key (list_orphans none true empty)))
orphan_lifecycle_example =
    orphan_lifecycle key key (some "sales.east") (some 5) 20 30 empty gone back tt recorded resolved

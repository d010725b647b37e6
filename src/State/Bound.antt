-- ===== src/State/Bound.antt =====
-- What `find_binding` answers after `bind_identity`.
use qlabs_catalog_sync.Prelude.{
  ℕ, Bool, true, false, Option, none, some, ◌≡◌, refl, ap, ◌∙◌, ok, arith,
}
use qlabs_catalog_sync.Prelude.Dict
use qlabs_catalog_sync.Models.{IdentityRef}
use qlabs_catalog_sync.State.Rows.{row_key_eq, IdentityMapRow, Db}
use qlabs_catalog_sync.State.UnitOfWork.{identity_key, prefer, bound_row, bind_identity}
use qlabs_catalog_sync.State.Queries.{
  IdentityBinding, binding_from_row, get_binding, bindings_of, find_binding, one_or_none,
}
use qlabs_catalog_sync.State.Uniqueness.{
  IsSound, Agree, bound-bindings, bind_identity-cases, bound-named,
}

-- When the binding of a neutral id was created, and when it was first confirmed, by what
-- `get_binding` answered before and a bind now.
abbrev pub first_created : ℕ → Option IdentityBinding → ℕ
first_created now none = now
first_created now (some earlier) = earlier.created_at

abbrev pub first_confirmed : Bool → ℕ → Option IdentityBinding → Option ℕ
first_confirmed false now none = none
first_confirmed true now none = some now
first_confirmed false now (some earlier) = earlier.confirmed_at
first_confirmed true now (some earlier) = prefer earlier.confirmed_at (some now)

-- What a store answers for a binding made now.
abbrev pub IsBoundAs :
    ℕ → IdentityRef → Bool → ℕ → Option IdentityBinding → IdentityBinding → Type 0
IsBoundAs n i confirmed now earlier b =
    (b.neutral_id ≡ n)
    × (b.identity ≡ i)
    × (b.confirmed ≡ confirmed)
    × (b.updated_at ≡ now)
    × (b.created_at ≡ first_created now earlier)
    × (b.confirmed_at ≡ first_confirmed confirmed now earlier)

bound-IsBoundAs :
    (n : ℕ) (i : IdentityRef) (confirmed : Bool) (now : ℕ) (db : Db)
    → IsBoundAs n i confirmed now (get_binding (identity_key n i) db) (
        binding_from_row
          (identity_key n i)
          (bound_row i confirmed now (Dict.lookup (identity_key n i) db.identity_map)))
unfolding get_binding
bound-IsBoundAs n i confirmed now db = go confirmed (Dict.lookup (identity_key n i) db.identity_map)
  where
    go :
        (confirmed : Bool) (before : Option IdentityMapRow)
        → IsBoundAs n i confirmed now
            (elim before [
              | none ↦ none
              | some row ↦ some (binding_from_row (identity_key n i) row)
            ])
            (binding_from_row (identity_key n i) (bound_row i confirmed now before))
    go true none = (refl, refl, refl, refl, refl, refl)
    go false none = (refl, refl, refl, refl, refl, refl)
    go true (some r) = (refl, refl, refl, refl, refl, ground arith)
    go false (some r) = (refl, refl, refl, refl, refl, refl)

-- In a sound store, after a successful `bind_identity`, `find_binding` answers for that native
-- object with the neutral id, the very identity, its secondary keys included, and the confirmation
-- as bound now. It keeps the time of creation of the neutral id's earlier binding, and is created
-- now without one; it keeps the time of the first confirmation, and a confirming bind without an
-- earlier confirmation is confirmed now.
pub bind-find :
    (n : ℕ) (i : IdentityRef) (confirmed : Bool) (now : ℕ) (db db' : Db)
    → bind_identity n i confirmed now db ≡ ok db'
    → IsSound db.identity_map
    → (b : IdentityBinding) × (find_binding i db' ≡ ok (some b))
      × IsBoundAs n i confirmed now (get_binding (identity_key n i) db) b
unfolding find_binding Agree
bind-find n i confirmed now db db' h sound =
    let (free, rows) = bind_identity-cases n i confirmed now db db' h in
    let before = Dict.lookup (identity_key n i) db.identity_map in
    (
      _,
      ap (λ rows. one_or_none (bindings_of i rows)) rows
          ∙ ap one_or_none (
              bound-bindings (identity_key n i) i _ db.identity_map sound.nodup free
                (bound-named i i n confirmed now before (refl, refl, refl, refl))),
      bound-IsBoundAs n i confirmed now db,
    )

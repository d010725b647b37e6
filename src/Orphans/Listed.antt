-- ===== src/Orphans/Listed.antt =====
-- The bindings of the open orphans of a type: each has its row, at the source, and they differ.
use qlabs_catalog_sync.Prelude.{
  ℕ, Bool, true, false, List, [], ◌∷◌, String, Option, none, some, if◌then◌else◌, ◌==◌, string_eq,
  nat_eq, All, ◌≡◌, ◌≢◌, refl, sym, ap, ◌∙◌, subst, arith,
}
use qlabs_catalog_sync.Prelude.Dict
use qlabs_catalog_sync.Prelude.Dict.{Dict, NodupKeys}
use qlabs_catalog_sync.Prelude.Distinct.{DistinctBy}
use qlabs_catalog_sync.Models.{EntityType, entity_type_eq}
use qlabs_catalog_sync.State.Rows.{RowKey, row_key_eq, IdentityMapRow, OrphanLogRow, Db}
use qlabs_catalog_sync.State.Queries.{
  IdentityBinding, binding_from_row, get_binding, orphans_in, list_orphans,
}
use qlabs_catalog_sync.State.Orphans.{lookup-orphans_in}
use qlabs_catalog_sync.Orphans.Checks.{Source}
use qlabs_catalog_sync.Orphans.Pass.{row_key, first_foreign, bindings_for, keep_found}

module _ (source : Source) (now : ℕ) where
  -- The rows of a listing are of the source, and its keys differ.
  abbrev AtSource : Dict RowKey OrphanLogRow → Type 0
  AtSource rows = All (λ (k, _). k.endpoint ≡ source.name) rows

  orphans_in-AtSource :
      (rows : Dict RowKey OrphanLogRow) → AtSource (orphans_in (some source.name) true rows)
  unfolding orphans_in
  orphans_in-AtSource [] = tt
  orphans_in-AtSource ((k, row) ∷ rows) = ground (arith, orphans_in-AtSource rows)

  orphans_in-NodupKeys :
      (rows : Dict RowKey OrphanLogRow)
      → NodupKeys rows
      → NodupKeys (orphans_in (some source.name) true rows)
  unfolding orphans_in
  orphans_in-NodupKeys [] h = tt
  orphans_in-NodupKeys ((k, row) ∷ rows) (fresh, h) =
      ground
        (arith, orphans_in-NodupKeys rows h, lookup-orphans_in (some source.name) true k rows h)

  -- The binding has a row in the listing.
  abbrev pub IsListed : Dict RowKey OrphanLogRow → IdentityBinding → Type 0
  IsListed rows b = Dict.lookup (row_key source now b) rows ≢ none

  All-listed :
      (k : RowKey) (row : OrphanLogRow) (rows : Dict RowKey OrphanLogRow)
      (bs : List IdentityBinding)
      → All (IsListed rows) bs
      → All (IsListed ((k, row) ∷ rows)) bs
  unfolding Dict.lookup
  All-listed k row rows [] h = tt
  All-listed k row rows (b ∷ bs) (h, hs) = ground (arith, All-listed k row rows bs hs)

  All-apart :
      (k : RowKey) (rows : Dict RowKey OrphanLogRow) (bs : List IdentityBinding)
      → Dict.lookup k rows ≡ none
      → All (IsListed rows) bs
      → All (λ b. k ≢ row_key source now b) bs
  All-apart k rows [] fresh h = tt
  All-apart k rows (b ∷ bs) fresh (h, hs) =
      ((λ e. h (ap (λ j. Dict.lookup j rows) (sym e) ∙ fresh)), All-apart k rows bs fresh hs)

  -- What `bindings_for` finds.
  pub record AreListed (rows : Dict RowKey OrphanLogRow) (bs : List IdentityBinding) : Type 0 where
    pub listed : All (IsListed rows) bs
    pub own : first_foreign source now bs ≡ none
    pub apart : DistinctBy (row_key source now) bs

  skip-AreListed :
      (k : RowKey) (row : OrphanLogRow) (rows : Dict RowKey OrphanLogRow)
      (bs : List IdentityBinding)
      → AreListed rows bs
      → AreListed ((k, row) ∷ rows) bs
  skip-AreListed k row rows bs h = record {
    listed = All-listed k row rows bs h.listed;
    own = h.own;
    apart = h.apart;
  }

  keep-AreListed :
      (b : IdentityBinding) (row : OrphanLogRow) (rows : Dict RowKey OrphanLogRow)
      (bs : List IdentityBinding)
      → b.identity.endpoint ≡ source.name
      → Dict.lookup (row_key source now b) rows ≡ none
      → AreListed rows bs
      → AreListed ((row_key source now b, row) ∷ rows) (b ∷ bs)
  unfolding first_foreign Dict.lookup
  keep-AreListed b row rows bs own fresh h = record {
    listed = (ground arith, All-listed _ row rows bs h.listed);
    own = ground (arith, h.own, own);
    apart = (All-apart _ rows bs fresh h.listed, h.apart);
  }

  get_binding-key :
      (key : RowKey) (db : Db) (b : IdentityBinding)
      → get_binding key db ≡ some b
      → key.endpoint ≡ source.name
      → (b.identity.endpoint ≡ source.name) × (row_key source now b ≡ key)
  unfolding get_binding
  get_binding-key key db b h own = go (Dict.lookup key db.identity_map) h
    where
      go :
          (o : Option IdentityMapRow)
          → elim o [ none ↦ none | some row ↦ some (binding_from_row key row) ] ≡ some b
          → (b.identity.endpoint ≡ source.name) × (row_key source now b ≡ key)
      go none e = absurd (cc (e))
      go (some row) e =
          let same : binding_from_row key row ≡ b = cc in
          (
            ap (λ (c : IdentityBinding). c.identity.endpoint) (sym same) ∙ own,
            ap (row_key source now) (sym same)
                ∙ ap
                    (λ (e : String). record {
                      neutral_id = key.neutral_id;
                      endpoint = e;
                      entity_type = key.entity_type;
                    })
                    (sym own),
          )

  bindings_for-AreListed :
      (t : EntityType) (db : Db) (rows : Dict RowKey OrphanLogRow)
      → AtSource rows
      → NodupKeys rows
      → AreListed rows (bindings_for source now t db rows)
  unfolding bindings_for first_foreign
  bindings_for-AreListed t db [] h u = record { listed = tt; own = refl; apart = tt }
  bindings_for-AreListed t db ((k, row) ∷ rows) (h, hs) (fresh, u) =
      go (k.entity_type == t) refl
        (get_binding (record { neutral_id = k.neutral_id; endpoint = source.name; entity_type = t })
          db)
        refl (bindings_for source now t db rows) (bindings_for-AreListed t db rows hs u)
    where
      wanted : RowKey
      wanted = record { neutral_id = k.neutral_id; endpoint = source.name; entity_type = t }

      go :
          (same : Bool)
          → (k.entity_type == t) ≡ same
          → (found : Option IdentityBinding) → get_binding wanted db ≡ found
          → (rest : List IdentityBinding) → AreListed rows rest
          → AreListed ((k, row) ∷ rows) (if same then keep_found source now found rest else rest)
      go false e found f rest ih = skip-AreListed k row rows rest ih
      go true e none f rest ih = skip-AreListed k row rows rest ih
      go true e (some b) f rest ih =
          let (own, keyed) = get_binding-key wanted db b f refl in
          let typed : k.entity_type ≡ t = ground (arith, e) in
          let same_key : row_key source now b ≡ k =
            keyed
            ∙ ap (λ (at : String). record wanted { endpoint = at }) (sym h)
            ∙ ap (λ (u : EntityType). record k { entity_type = u }) (sym typed) in
          subst (λ j. AreListed ((j, row) ∷ rows) (b ∷ rest)) same_key
            (keep-AreListed b row rows rest own (ap (λ j. Dict.lookup j rows) same_key ∙ fresh) ih)

  pub rechecked-AreListed :
      (t : EntityType) (db : Db)
      → NodupKeys db.orphan_log
      → AreListed
          (list_orphans (some source.name) true db)
          (bindings_for source now t db (list_orphans (some source.name) true db))
  unfolding list_orphans
  rechecked-AreListed t db u =
      bindings_for-AreListed t db _ (orphans_in-AtSource db.orphan_log)
        (orphans_in-NodupKeys db.orphan_log u)

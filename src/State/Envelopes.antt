-- ===== src/State/Envelopes.antt =====
-- The stored envelopes: what `fetch_envelopes` answers after `upsert_field_envelope`.
use qlabs_catalog_sync.Prelude.{
  ℕ, [], ◌∷◌, String, Option, none, some, ◌&&◌, if◌then◌else◌, ◌==◌, string_eq, nat_eq, ◌≡◌, refl,
  sym, ap, ◌∙◌, ok, All, arith, ok-injective,
}
use qlabs_catalog_sync.Prelude.Text.{is_empty}
use qlabs_catalog_sync.Prelude.Dict
use qlabs_catalog_sync.Prelude.Dict.{Dict, NodupKeys}
use qlabs_catalog_sync.Models.{EntityType, FieldEnvelope, Envelopes}
use qlabs_catalog_sync.State.Rows.{EnvelopeKey, envelope_key_eq, FieldEnvelopeRow, Db}
use qlabs_catalog_sync.State.UnitOfWork.{upsert_field_envelope, envelope_row}
use qlabs_catalog_sync.State.Queries.{envelope_from_row, envelopes_from, fetch_envelopes}

abbrev pub key_of : ℕ → String → EntityType → String → EnvelopeKey
key_of neutral_id endpoint entity_type field = record {
  neutral_id = neutral_id;
  endpoint = endpoint;
  entity_type = entity_type;
  field = field;
}

-- The rows of one neutral id at one endpoint are of one entity type.
pub HasType : ℕ → String → EntityType → EnvelopeKey × FieldEnvelopeRow → Type 0
HasType neutral_id endpoint entity_type (key, _) =
    key.neutral_id ≡ neutral_id → key.endpoint ≡ endpoint → key.entity_type ≡ entity_type

abbrev stored_or :
    EnvelopeKey → Option FieldEnvelopeRow → Option FieldEnvelope → Option FieldEnvelope
stored_or key none before = before
stored_or key (some row) before = some (envelope_from_row key row)

-- What the fold does with one row.
abbrev gathered : ℕ → String → Envelopes → EnvelopeKey → FieldEnvelopeRow → Envelopes
gathered n ep found k r =
    if k.neutral_id == n && k.endpoint == ep
    then Dict.insert k.field (envelope_from_row k r) found
    else found

lookup-gathered :
    (n : ℕ) (ep : String) (t : EntityType) (f : String) (found : Envelopes) (k : EnvelopeKey)
    (r : FieldEnvelopeRow) (later : Option FieldEnvelopeRow)
    → HasType n ep t (k, r)
    → (key_of n ep t f ≡ k → later ≡ none)
    → stored_or (key_of n ep t f) later (Dict.lookup f (gathered n ep found k r))
      ≡ stored_or
          (key_of n ep t f)
          (if key_of n ep t f == k then some r else later)
          (Dict.lookup f found)
unfolding HasType
lookup-gathered n ep t f found k r later typed fresh =
    ground (arith, Dict.lookup-insert f k.field (envelope_from_row k r) found)

lookup-envelopes_from :
    (n : ℕ) (ep : String) (t : EntityType) (f : String) (found : Envelopes)
    (rows : Dict EnvelopeKey FieldEnvelopeRow)
    → NodupKeys rows
    → All (HasType n ep t) rows
    → Dict.lookup f (envelopes_from n ep found rows)
      ≡ stored_or (key_of n ep t f) (Dict.lookup (key_of n ep t f) rows) (Dict.lookup f found)
unfolding envelopes_from HasType
lookup-envelopes_from n ep t f found [] nodup typed = rw Dict.lookup-nil refl
lookup-envelopes_from n ep t f found ((k, r) ∷ rows) (fresh, nodup) (here, typed) =
    lookup-envelopes_from n ep t f (gathered n ep found k r) rows nodup typed
    ∙ lookup-gathered n ep t f found k r _ here (λ same. ap (λ k. Dict.lookup k rows) same ∙ fresh)
    ∙ ap (λ o. stored_or (key_of n ep t f) o (Dict.lookup f found))
        (sym (Dict.lookup-cons (key_of n ep t f) k r rows))

insert-HasType :
    (n : ℕ) (ep : String) (t : EntityType) (g : String) (row : FieldEnvelopeRow)
    (rows : Dict EnvelopeKey FieldEnvelopeRow)
    → All (HasType n ep t) rows
    → All (HasType n ep t) (Dict.insert (key_of n ep t g) row rows)
unfolding HasType Dict.insert
insert-HasType n ep t g row [] typed = (λ _ _. refl, tt)
insert-HasType n ep t g row ((k, r) ∷ rows) (here, typed) =
    ground (arith, insert-HasType n ep t g row rows typed)

fetch-lookup :
    (n : ℕ) (ep : String) (t : EntityType) (f : String) (rows : Dict EnvelopeKey FieldEnvelopeRow)
    → NodupKeys rows
    → All (HasType n ep t) rows
    → Dict.lookup f (envelopes_from n ep [] rows)
      ≡ stored_or (key_of n ep t f) (Dict.lookup (key_of n ep t f) rows) none
fetch-lookup n ep t f rows nodup typed =
    lookup-envelopes_from n ep t f [] rows nodup typed
    ∙ ap (stored_or (key_of n ep t f) _) (Dict.lookup-nil f)

stored_or-insert :
    (n : ℕ) (ep : String) (t : EntityType) (f g : String) (row : FieldEnvelopeRow)
    (before : Option FieldEnvelopeRow)
    → stored_or
        (key_of n ep t f)
        (if key_of n ep t f == key_of n ep t g then some row else before)
        none
      ≡ (if f == g
          then some (envelope_from_row (key_of n ep t g) row)
          else stored_or (key_of n ep t f) before none)
stored_or-insert n ep t f g row before = ground arith

-- Where the rows of a neutral id at an endpoint are of one entity type and no key repeats,
-- `fetch_envelopes` answers after `upsert_field_envelope` with the very envelope that was written
-- for its field, where an envelope without a source endpoint gets the endpoint of its row, and as
-- before for every other field.
pub upsert-fetch :
    (n : ℕ) (ep : String) (t : EntityType) (f g : String) (e : FieldEnvelope) (now : ℕ) (db : Db)
    → NodupKeys db.field_envelopes
    → All (HasType n ep t) db.field_envelopes
    → (db' : Db) → upsert_field_envelope (key_of n ep t g) e now db ≡ ok db'
    → Dict.lookup f (fetch_envelopes n ep db') ≡ (
        if f == g
        then some (record e {
          source_endpoint = if is_empty e.source_endpoint then ep else e.source_endpoint;
        })
        else Dict.lookup f (fetch_envelopes n ep db))
unfolding fetch_envelopes upsert_field_envelope
upsert-fetch n ep t f g e now db nodup typed db' h =
    ap (λ d. Dict.lookup f (envelopes_from n ep [] d.field_envelopes)) (sym (ok-injective h))
    ∙ fetch-lookup n ep t f _ (Dict.insert-NodupKeys (key_of n ep t g) row rows nodup)
        (insert-HasType n ep t g row rows typed)
    ∙ ap (λ o. stored_or (key_of n ep t f) o none)
        (Dict.lookup-insert (key_of n ep t f) (key_of n ep t g) row rows)
    ∙ stored_or-insert n ep t f g row _
    ∙ ap (λ o. if f == g then some (envelope_from_row (key_of n ep t g) row) else o)
        (sym (fetch-lookup n ep t f rows nodup typed))
  where
    row : FieldEnvelopeRow
    row = envelope_row e now

    rows : Dict EnvelopeKey FieldEnvelopeRow
    rows = db.field_envelopes

-- ===== src/Orphans/Groups.antt =====
-- The digest lists every open orphan once, by confidence and by endpoint.
use qlabs_catalog_sync.Prelude.{
  ℕ, Bool, true, not, ◌&&◌, ◌||◌, ltb, sym, List, [], ◌∷◌, ◌++◌, String, Option, none, some, filter,
  is_none, ◌==◌, string_eq, ◌≡◌, refl, ap, ◌∙◌, arith, map,
}
use mathlib.Core.List
use qlabs_catalog_sync.Prelude.Dict
use qlabs_catalog_sync.Prelude.Dict.{Dict}
use qlabs_catalog_sync.State.Rows.{RowKey, OrphanLogRow}
use qlabs_catalog_sync.Orphans.Digest.{
  OrphanPolicy, OrphanAdvisory, confirmed_of, tentative_of, is_confirmed, is_tentative, confidence,
  group, by_endpoint, get_or_nil, advise, advise_all, summarize_orphans,
}

abbrev pub nonempty {ℓ} : {A : Type ℓ} → List A → Option (List A)
nonempty [] = none
nonempty (x ∷ xs) = some (x ∷ xs)

abbrev joined : Option (List OrphanAdvisory) → List OrphanAdvisory → Option (List OrphanAdvisory)
joined before [] = before
joined before (a ∷ rest) = some (get_or_nil before ++ (a ∷ rest))

joined-append :
    (before : Option (List OrphanAdvisory)) (a : OrphanAdvisory) (rest : List OrphanAdvisory)
    → joined (some (get_or_nil before ++ (a ∷ []))) rest ≡ joined before (a ∷ rest)
joined-append before a [] = refl
joined-append before a (b ∷ rest) =
    ap some (List.append_assoc (get_or_nil before) (a ∷ []) (b ∷ rest))

abbrev pub at : String → OrphanAdvisory → Bool
at endpoint a = endpoint == a.endpoint

group-lookup :
    (endpoint : String) (advisories : List OrphanAdvisory)
    (grouped : Dict String (List OrphanAdvisory))
    → Dict.lookup endpoint (group advisories grouped)
      ≡ joined (Dict.lookup endpoint grouped) (filter (at endpoint) advisories)
unfolding group
group-lookup endpoint [] grouped = refl
group-lookup endpoint (a ∷ rest) grouped =
    let ih =
      group-lookup endpoint rest (
        Dict.insert a.endpoint (get_or_nil (Dict.lookup a.endpoint grouped) ++ (a ∷ [])) grouped) in
    let put =
      Dict.lookup-insert endpoint a.endpoint
        (get_or_nil (Dict.lookup a.endpoint grouped) ++ (a ∷ [])) grouped in
    let more = joined-append (Dict.lookup endpoint grouped) a (filter (at endpoint) rest) in
    ground (arith, ih, put, more)

-- The record that an advisory tells of.
abbrev pub told : OrphanAdvisory → RowKey × OrphanLogRow
told a = (
  record { neutral_id = a.neutral_id; endpoint = a.endpoint; entity_type = a.entity_type },
  record {
    native_key = a.native_key;
    first_missing_at = a.first_missing_at;
    last_missing_at = a.last_missing_at;
    last_seen_at = a.last_seen_at;
    resolved_at = none;
  },
)

abbrev pub is_open : RowKey × OrphanLogRow → Bool
is_open (_, row) = is_none row.resolved_at

-- The record was seen missing a second time, or the policy does not ask for it.
abbrev pub is_sure : OrphanPolicy → RowKey × OrphanLogRow → Bool
is_sure policy (_, row) =
    not policy.require_reconfirmation || ltb row.first_missing_at row.last_missing_at

told-advise :
    (text : RowKey → OrphanLogRow → String) (policy : OrphanPolicy) (now : ℕ) (key : RowKey)
    (row : OrphanLogRow)
    → is_none row.resolved_at ≡ true
    → told (advise text policy now key row) ≡ (key, row)
unfolding advise
told-advise text policy now key row h = go row.resolved_at refl h
  where
    go :
        (o : Option ℕ)
        → row.resolved_at ≡ o
        → is_none o ≡ true
        → told (advise text policy now key row) ≡ (key, row)
    go none missing _ = ap (λ o. (key, record row { resolved_at = o })) (sym missing)
    go (some at) closed h = absurd (cc (h))

advise-sure :
    (text : RowKey → OrphanLogRow → String) (policy : OrphanPolicy) (now : ℕ) (key : RowKey)
    (row : OrphanLogRow)
    → (is_confirmed (advise text policy now key row).confidence ≡ is_sure policy (key, row))
      × (is_tentative (advise text policy now key row).confidence ≡ not (is_sure policy (key, row)))
unfolding advise confidence
advise-sure text policy now key row = (ground arith, ground arith)

-- The advisories that pass a test, where the test asks the same of the records they tell of.
told-filter :
    (text : RowKey → OrphanLogRow → String) (policy : OrphanPolicy) (now : ℕ)
    (test : OrphanAdvisory → Bool) (same : RowKey × OrphanLogRow → Bool)
    → ((key : RowKey) (row : OrphanLogRow)
        → test (advise text policy now key row) ≡ same (key, row))
    → (records : Dict RowKey OrphanLogRow)
    → map told (filter test (advise_all text policy now records))
      ≡ filter (λ r. is_open r && same r) records
unfolding advise_all
told-filter text policy now test same agree [] = refl
told-filter text policy now test same agree ((key, row) ∷ records) = ground (
  arith,
  told-filter text policy now test same agree records,
  agree key row,
  told-advise text policy now key row,
)

told-all :
    (text : RowKey → OrphanLogRow → String) (policy : OrphanPolicy) (now : ℕ)
    (records : Dict RowKey OrphanLogRow)
    → map told (advise_all text policy now records) ≡ filter is_open records
unfolding advise_all
told-all text policy now [] = refl
told-all text policy now ((key, row) ∷ records) =
    ground (arith, told-all text policy now records, told-advise text policy now key row)

-- The advisories of a digest tell of the records that are not resolved, each once and in order, by
-- their key, times and native key. The confirmed ones are those of the records seen missing at a
-- later time than the first, and of all records where the policy asks for no second observation;
-- the tentative ones are the others. Under each endpoint the digest groups the advisories of that
-- endpoint, in order, and has no group for an endpoint without any.
pub summarize_orphans-sorts :
    (text : RowKey → OrphanLogRow → String) (policy : OrphanPolicy) (now : ℕ)
    (records : Dict RowKey OrphanLogRow) (endpoint : String)
    → let d = summarize_orphans text policy now records in
      (map told d.advisories ≡ filter is_open records)
      × (map told (confirmed_of d) ≡ filter (λ r. is_open r && is_sure policy r) records)
      × (map told (tentative_of d) ≡ filter (λ r. is_open r && not (is_sure policy r)) records)
      × (Dict.lookup endpoint (by_endpoint d) ≡ nonempty (filter (at endpoint) d.advisories))
unfolding summarize_orphans confirmed_of tentative_of by_endpoint
summarize_orphans-sorts text policy now records endpoint =
    let all = advise_all text policy now records in
    let sure = advise-sure text policy now in
    (
      told-all text policy now records,
      told-filter text policy now _ (is_sure policy) (λ key row. (sure key row).0) records,
      told-filter text policy now _ (λ r. not (is_sure policy r)) (λ key row. (sure key row).1)
          records,
      group-lookup endpoint all [] ∙ started (filter (at endpoint) all),
    )
  where
    started : (rest : List OrphanAdvisory) → joined (Dict.lookup endpoint []) rest ≡ nonempty rest
    started [] = Dict.lookup-nil endpoint
    started (a ∷ rest) = ap (λ o. some (get_or_nil o ++ (a ∷ rest))) (Dict.lookup-nil endpoint)

-- ===== src/Envelope.antt =====
-- The SDK's envelope.py: change detection by checksums, and the faithful JSON form of a value.
use qlabs_catalog_sync.Prelude.{
  ℕ, suc, Bool, true, not, List, [], ◌∷◌, String, Option, none, some, if◌then◌else◌, ltb, ◌==◌,
  contains, string_eq, Result, ok, err, ◌>>=◌, ◌>>◌,
}
use qlabs_catalog_sync.Prelude.Dict.{lookup}
use qlabs_catalog_sync.Prelude.Sort.{sort}
use qlabs_catalog_sync.Prelude.Text.{str_lt}
use qlabs_catalog_sync.Models.{
  Json, null, bool, int, float, str, arr, obj, Items, nil, cons, Members, end, member, Float,
  finite, infinite, not_a_number, FieldEnvelope, Envelopes,
}

pub data CanonicalizationError : Type 0 where
  too_deep : CanonicalizationError
  not_finite : CanonicalizationError
  duplicate_key : String → CanonicalizationError
  no_checksum : CanonicalizationError

abbrev pub max_depth : ℕ
max_depth = 64

abbrev pub checked_float : Float → Result CanonicalizationError Float
checked_float (finite m e) = ok (finite m e)
checked_float (infinite negative) = err not_finite
checked_float not_a_number = err not_finite

abbrev pub guard_depth : ℕ → Result CanonicalizationError Unit
guard_depth depth = if ltb max_depth depth then err too_deep else ok tt

-- `_project` and `_project_mapping` on JSON values with `canonical=False`.
unfoldable mutual
  pub project : ℕ → Json → Result CanonicalizationError Json
  project depth null = guard_depth depth >> ok null
  project depth (bool b) = guard_depth depth >> ok (bool b)
  project depth (int n) = guard_depth depth >> ok (int n)
  project depth (float x) = do guard_depth depth; y ← checked_float x; ok (float y)
  project depth (str s) = guard_depth depth >> ok (str s)
  project depth (arr xs) = do guard_depth depth; ys ← project_items depth xs; ok (arr ys)
  project depth (obj ms) = do guard_depth depth; ns ← project_members depth [] ms; ok (obj ns)

  pub project_items : ℕ → Items → Result CanonicalizationError Items
  project_items depth nil = ok nil
  project_items depth (cons x xs) = do
    y ← project (suc depth) x
    ys ← project_items depth xs
    ok (cons y ys)

  pub project_members : ℕ → List String → Members → Result CanonicalizationError Members
  project_members depth seen end = ok end
  project_members depth seen (member key x ms) = do
    (if contains seen key then err (duplicate_key key) else ok tt)
    y ← project (suc depth) x
    ns ← project_members depth (key ∷ seen) ms
    ok (member key y ns)

unfoldable pub to_json_value : Json → Result CanonicalizationError Json
to_json_value v = project 0 v

-- The comparison of `has_changed`, of the two checksums.
unfoldable pub differs : String → Option String → Bool
differs fresh none = true
differs fresh (some stored) = not (fresh == stored)

abbrev pub stored_checksum : Option FieldEnvelope → Option String
stored_checksum none = none
stored_checksum (some e) = e.checksum

unfoldable pub has_changed :
    FieldEnvelope → Option FieldEnvelope → Result CanonicalizationError Bool
has_changed fresh stored = elim fresh.checksum [
  | none ↦ err no_checksum
  | some mine ↦ ok (differs mine (stored_checksum stored))
]

unfoldable pub changed_names : Envelopes → Envelopes → Result CanonicalizationError (List String)
changed_names [] stored = ok []
changed_names ((name, envelope) ∷ fresh) stored = do
  changed ← has_changed envelope (lookup name stored)
  rest ← changed_names fresh stored
  ok (if changed then name ∷ rest else rest)

unfoldable pub changed_fields : Envelopes → Envelopes → Result CanonicalizationError (List String)
unfolding changed_names
changed_fields fresh stored = do names ← changed_names fresh stored; ok (sort str_lt names)

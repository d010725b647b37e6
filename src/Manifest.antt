-- ===== src/Manifest.antt =====
-- The SDK's manifest.py: what an endpoint declares about its entities and fields.
use qlabs_catalog_sync.Prelude.{
  ℕ, Bool, true, false, not, ◌&&◌, List, [], ◌∷◌, String, Option, none, some, if◌then◌else◌, ltb,
  length, all, ◌==◌, string_eq, option_eq, Result, ok, err, ◌>>◌,
}
use qlabs_catalog_sync.Prelude.Dict.{Dict, lookup}
use qlabs_catalog_sync.Prelude.Distinct.{first_repeat}
use qlabs_catalog_sync.Models.{EntityType, entity_type_eq}
use text.Mathlib.Text.{starts_with}

pub data FieldCapabilityMode : Type 0 where
  rw_mode ro_mode na_mode : FieldCapabilityMode

pub data ConcurrencyMode : Type 0 where
  etag revision unguarded : ConcurrencyMode

pub record FieldCapability : Type 0 where
  pub mode : FieldCapabilityMode
  pub normalized_by_target : Bool
  pub writable_via : Option String
  pub partial_update : Bool

pub record EntityCapability : Type 0 where
  pub supported : Bool
  pub identity_keys : List String
  pub fields : Dict String FieldCapability
  pub supports_events : Bool
  pub allowed_update_paths : Option (List String)
  pub max_update_operations : Option ℕ

pub data ManifestError : Type 0 where
  writable_via_meaningless : ManifestError
  identity_keys_missing identity_keys_repeat : ManifestError
  paths_empty paths_repeat paths_not_pointers : ManifestError
  operations_below_one operations_above_paths : ManifestError

unfoldable pub field_is_writable : FieldCapability → Bool
field_is_writable f = elim f.mode [ rw_mode ↦ true | ro_mode ↦ false | na_mode ↦ false ]

unfoldable pub field_requires_full_replace : FieldCapability → Bool
unfolding field_is_writable
field_requires_full_replace f = field_is_writable f && not f.partial_update

-- `_writable_via_only_when_writable`
unfoldable pub make_field : FieldCapability → Result ManifestError FieldCapability
unfolding field_is_writable
make_field f =
    if not (field_is_writable f) && not (f.writable_via == none)
    then err writable_via_meaningless
    else ok f

repeats : List String → Bool
repeats keys = elim (first_repeat (λ (k : String). k) [] keys) [ none ↦ false | some _ ↦ true ]

-- `_supported_entity_needs_identity_keys`
unfoldable pub check_identity_keys : EntityCapability → Result ManifestError Unit
unfolding repeats
check_identity_keys e =
    if e.supported && elim e.identity_keys [ [] ↦ true | _ ∷ _ ↦ false ]
    then err identity_keys_missing
    else if repeats e.identity_keys
    then err identity_keys_repeat
    else ok tt

unfoldable pub check_paths : Option (List String) → Result ManifestError Unit
unfolding repeats
check_paths none = ok tt
check_paths (some []) = err paths_empty
check_paths (some (p ∷ paths)) =
    if repeats (p ∷ paths)
    then err paths_repeat
    else if all (λ path. starts_with path "/") (p ∷ paths)
    then ok tt
    else err paths_not_pointers

unfoldable pub check_operations : Option ℕ → Option (List String) → Result ManifestError Unit
check_operations none paths = ok tt
check_operations (some n) none = if ltb n 1 then err operations_below_one else ok tt
check_operations (some n) (some paths) =
    if ltb n 1
    then err operations_below_one
    else if ltb (length paths) n
    then err operations_above_paths
    else ok tt

-- The constructor with its two validators.
unfoldable pub make_entity : EntityCapability → Result ManifestError EntityCapability
unfolding check_identity_keys check_paths check_operations
make_entity e = do
  check_identity_keys e
  check_paths e.allowed_update_paths
  check_operations e.max_update_operations e.allowed_update_paths
  ok e

pub record CapabilityManifest : Type 0 where
  pub entities : Dict EntityType EntityCapability
  pub concurrency : ConcurrencyMode

module _ (m : CapabilityManifest) (entity_type : EntityType) where
  unfoldable pub supports : Bool
  supports = elim (lookup entity_type m.entities) [
    | none ↦ false
    | some capability ↦ capability.supported
  ]

  unfoldable pub entity_capability : Option EntityCapability
  entity_capability = lookup entity_type m.entities

  unfoldable pub field_capability : String → Option FieldCapability
  field_capability field = elim (lookup entity_type m.entities) [
    | none ↦ none
    | some capability ↦ lookup field capability.fields
  ]

  unfoldable pub is_writable : String → Bool
  is_writable field = elim (lookup entity_type m.entities) [
    | none ↦ false
    | some capability ↦
        if capability.supported
        then elim (lookup field capability.fields) [ none ↦ false | some f ↦ field_is_writable f ]
        else false
  ]

  unfoldable pub requires_full_replace : String → Bool
  requires_full_replace field = elim (lookup entity_type m.entities) [
    | none ↦ false
    | some capability ↦
        if capability.supported
        then elim (lookup field capability.fields) [
          | none ↦ false
          | some f ↦ field_requires_full_replace f
        ]
        else false
  ]

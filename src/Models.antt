-- ===== src/Models.antt =====
-- The SDK's models.py: the values that the engine and the connectors exchange.
-- A UUID and an instant are numbers; a dict is an association list in insertion order.
use qlabs_catalog_sync.Prelude.{ℕ, Eq, Bool, List, String, Option}
use qlabs_catalog_sync.Prelude.Dict.{Dict}

pub data EntityType : Type 0 where
  data_product dataset glossary_term category : EntityType

unfoldable pub EntityType-discrete : Discrete EntityType
EntityType-discrete = hlevel

-- Shut in proofs, where a split on `s == t` yields the equation or its negation.
instance unfoldable pub entity_type_eq : Eq EntityType
unfolding EntityType-discrete
entity_type_eq = record { dec = EntityType-discrete }

-- `negsuc n` is -(n + 1).
pub data ℤ : Type 0 where
  pos : ℕ → ℤ
  negsuc : ℕ → ℤ

-- An IEEE double: `finite m e` is m * 2 ^ e.
pub data Float : Type 0 where
  finite : ℤ → ℤ → Float
  infinite : Bool → Float
  not_a_number : Float

mutual
  pub data Json : Type 0 where
    null : Json
    bool : Bool → Json
    int : ℤ → Json
    float : Float → Json
    str : String → Json
    arr : Items → Json
    obj : Members → Json

  pub data Items : Type 0 where
    nil : Items
    cons : Json → Items → Items

  pub data Members : Type 0 where
    end : Members
    member : String → Json → Members → Members

pub record IdentityRef : Type 0 where
  pub endpoint : String
  pub entity_type : EntityType
  pub native_key : String
  pub tenant_id : String
  pub secondary_keys : Dict String String

pub record FieldEnvelope : Type 0 where
  pub value : Json
  pub source_endpoint : String
  pub source_revision : Option String
  pub last_modified_at : Option ℕ
  pub last_synced_at : Option ℕ
  pub checksum : Option String

pub data FieldUpdateMode : Type 0 where
  patch replace : FieldUpdateMode

pub record FieldChange : Type 0 where
  pub field : String
  pub mode : FieldUpdateMode
  pub value : Json
  pub previous : Json
  pub envelope : Option FieldEnvelope

pub record FieldDiff : Type 0 where
  pub entity_type : EntityType
  pub changes : List FieldChange
  pub expected_revision : Option String

abbrev pub Envelopes : Type 0
Envelopes = Dict String FieldEnvelope

-- ===== src/Sync/Cycle.antt =====
-- The state of a running cycle, and computations on it that may raise. What a computation did
-- before it raised stays done.
use qlabs_catalog_sync.Prelude.{ℕ, Bool, List, [], String, Option, Result, ok, err}
use qlabs_catalog_sync.Prelude.Dict.{Dict}
use qlabs_catalog_sync.Models.{EntityType, IdentityRef, FieldEnvelope, Envelopes}
use qlabs_catalog_sync.Changes.{ConnectorError}
use qlabs_catalog_sync.Diff.{DiffError}
use qlabs_catalog_sync.SourceTree.{TreeError}
use qlabs_catalog_sync.State.Rows.{Db}
use qlabs_catalog_sync.State.UnitOfWork.{StoreError}
use qlabs_catalog_sync.Sync.Settings.{Call}

pub record PendingBinding : Type 0 where
  pub neutral_id : ℕ
  pub identity : IdentityRef
  pub confirmed : Bool

pub record PendingEnvelope : Type 0 where
  pub neutral_id : ℕ
  pub endpoint : String
  pub entity_type : EntityType
  pub field : String
  pub envelope : FieldEnvelope

pub record PendingOrphan : Type 0 where
  pub neutral_id : ℕ
  pub endpoint : String
  pub entity_type : EntityType
  pub native_key : Option String
  pub last_seen_at : Option ℕ
  pub observed_at : ℕ

pub record PendingOrphanResolution : Type 0 where
  pub neutral_id : ℕ
  pub endpoint : String
  pub entity_type : EntityType

pub record Mutations : Type 0 where
  pub bindings : List PendingBinding
  pub envelopes : List PendingEnvelope
  pub orphans : List PendingOrphan
  pub resolved_orphans : List PendingOrphanResolution
  pub source_ids : Dict String ℕ
  pub target_refs : Dict ℕ IdentityRef
  pub envelope_index : Dict ℕ Envelopes

abbrev pub no_mutations : Mutations
no_mutations = record {
  bindings = [];
  envelopes = [];
  orphans = [];
  resolved_orphans = [];
  source_ids = [];
  target_refs = [];
  envelope_index = [];
}

pub record ErrorReport : Type 0 where
  pub native_key : Option String
  pub fatal : Bool

-- `history` is every call of a connector so far, the last one first.
pub record Cycle : Type 0 where
  pub history : List Call
  pub db : Db
  pub mutations : Mutations
  pub errors : List ErrorReport
  pub open_orphans : List ℕ
  pub clock_readings : ℕ
  pub ids_drawn : ℕ

pub data Raised : Type 0 where
  connector_error : ConnectorError → Raised
  -- `_CycleAborted`, with the endpoint to quarantine.
  cycle_aborted : Option String → Raised
  store_error : StoreError → Raised
  diff_error : DiffError → Raised
  tree_error : TreeError → Raised

abbrev pub Sync : Type 0 → Type 0
Sync A = Cycle → Result Raised A × Cycle

module _ {A : Type 0} where
  abbrev pub pure : A → Sync A
  pure a c = (ok a, c)

  abbrev pub throw : Raised → Sync A
  throw e c = (err e, c)

  -- `try: m` with one handler of everything that `m` raises.
  abbrev pub handled : (Raised → Sync A) → Result Raised A × Cycle → Result Raised A × Cycle
  handled handler (ok a, c) = (ok a, c)
  handled handler (err e, c) = handler e c

  unfoldable pub catch : Sync A → (Raised → Sync A) → Sync A
  catch m handler c = handled handler (m c)

abbrev pub continue :
    {A B : Type 0} → (A → Sync B) → Result Raised A × Cycle → Result Raised B × Cycle
continue f (ok a, c) = f a c
continue f (err e, c) = (err e, c)

infixl 5 ◌>>=◌ ◌>>◌
abbrev pub ◌>>=◌ : {A B : Type 0} → Sync A → (A → Sync B) → Sync B
(m >>= f) c = continue f (m c)

abbrev pub ◌>>◌ : {A B : Type 0} → Sync A → Sync B → Sync B
m >> k = m >>= λ _. k

abbrev pub modify : (Cycle → Cycle) → Sync (Unit {0})
modify f c = (ok tt, f c)

abbrev pub gets : {A : Type 0} → (Cycle → A) → Sync A
gets f c = (ok (f c), c)

abbrev pub raise_store : {A : Type 0} → Result StoreError A → Sync A
raise_store (ok a) = pure a
raise_store (err e) = throw (store_error e)

abbrev pub raise_tree : {A : Type 0} → Result TreeError A → Sync A
raise_tree (ok a) = pure a
raise_tree (err e) = throw (tree_error e)

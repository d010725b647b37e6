-- ===== src/Sync/Replay.antt =====
-- A change that is listed again after it was written: nothing is left to write.
use qlabs_catalog_sync.Prelude.{
  ℕ, ◌≡◌, refl, sym, ap, subst, ◌∙◌, ◌⊎◌, inl, inr, Bool, true, false, ◌||◌, List, [], ◌∷◌, String,
  Option, none, some, All, contains, if◌then◌else◌, ◌==◌, string_eq, nat_eq, arith,
}
use qlabs_catalog_sync.Prelude.Dict
use qlabs_catalog_sync.Prelude.Dict.{Dict, NodupKeys, keys}
use qlabs_catalog_sync.Models.{EntityType, FieldEnvelope, Envelopes}
use qlabs_catalog_sync.Envelope.{stored_checksum}
use qlabs_catalog_sync.Diff.InSync.{IsKnown, InSync, idle_plan, compute_field_diff-InSync}
use qlabs_catalog_sync.Diff.{supports}
use qlabs_catalog_sync.State.Queries.{fetch_envelopes}
use qlabs_catalog_sync.Sync.Settings.{Settings, Endpoints}
use qlabs_catalog_sync.Sync.Writes.{raise_diff, plan_diff}
use qlabs_catalog_sync.Sync.Cycle.{Cycle, pure, Mutations}
use qlabs_catalog_sync.Sync.Pending.{
  set_mutations, stored_target_envelopes, or_empty, update_all, queue_one, queue_found,
  queue_envelopes,
}

abbrev pub index_of : ℕ → Mutations → Envelopes
index_of n m = or_empty (Dict.lookup n m.envelope_index)

-- What is persisted of a source envelope.
abbrev pub stamped : Option String → ℕ → FieldEnvelope → FieldEnvelope
stamped revision now e = record e { source_revision = revision; last_synced_at = some now }

abbrev either : Option FieldEnvelope → Option FieldEnvelope → Option FieldEnvelope
either none before = before
either (some e) before = some e

lookup-update_all :
    (f : String) (stored others : Envelopes)
    → NodupKeys others
    → Dict.lookup f (update_all stored others)
      ≡ either (Dict.lookup f others) (Dict.lookup f stored)
lookup-update_all f stored [] nodup = rw Dict.lookup-nil refl
lookup-update_all f stored ((name, e) ∷ others) (fresh, nodup) =
    lookup-update_all f (Dict.insert name e stored) others nodup
    ∙ ground (arith, Dict.lookup-insert f name e stored, Dict.lookup-cons f name e others, fresh)

module _ (n : ℕ) (endpoint : String) (t : EntityType) (revision : Option String) (now : ℕ) where
  queue_one-index :
      (name : String) (e : FieldEnvelope) (m : Mutations)
      → index_of n (queue_one n endpoint t revision now name e m)
        ≡ Dict.insert name (stamped revision now e) (index_of n m)
  unfolding queue_one
  queue_one-index name e m = ap or_empty (Dict.lookup-insert n n _ m.envelope_index) ∙ ground arith

  abbrev kept_or : Bool → Option FieldEnvelope → Option FieldEnvelope → Option FieldEnvelope
  kept_or wanted none before = before
  kept_or wanted (some e) before = if wanted then some (stamped revision now e) else before

  queue_found-index :
      (name f : String) (o : Option FieldEnvelope) (m : Mutations)
      → Dict.lookup f (index_of n (queue_found n endpoint t revision now name o m))
        ≡ kept_or (f == name) o (Dict.lookup f (index_of n m))
  queue_found-index name f none m = refl
  queue_found-index name f (some e) m =
      ap (Dict.lookup f) (queue_one-index name e m)
      ∙ Dict.lookup-insert f name (stamped revision now e) (index_of n m)

  kept_or-step :
      (source : Envelopes) (f name : String) (later : Bool) (before : Option FieldEnvelope)
      → kept_or later (Dict.lookup f source) (kept_or (f == name) (Dict.lookup name source) before)
        ≡ kept_or (f == name || later) (Dict.lookup f source) before
  kept_or-step source f name later before = go (Dict.lookup f source) refl
    where
      go :
          (o : Option FieldEnvelope)
          → Dict.lookup f source ≡ o
          → kept_or later o (kept_or (f == name) (Dict.lookup name source) before)
            ≡ kept_or (f == name || later) o before
      go none h = ground arith
      go (some e) h = ground arith

  -- After `_queue_envelopes`, the pending envelope of a field that was asked for is the source's
  -- with the new revision and instant; the others are as before.
  queue_envelopes-index :
      (names : List String) (source : Envelopes) (f : String) (m : Mutations)
      → Dict.lookup f (index_of n (queue_envelopes n endpoint t revision now names source m))
        ≡ kept_or (contains names f) (Dict.lookup f source) (Dict.lookup f (index_of n m))
  unfolding queue_envelopes
  queue_envelopes-index [] source f m = ground arith
  queue_envelopes-index (name ∷ names) source f m =
      queue_envelopes-index names source f
        (queue_found n endpoint t revision now name (Dict.lookup name source) m)
      ∙ ap (kept_or (contains names f) (Dict.lookup f source))
          (queue_found-index name f (Dict.lookup name source) m)
      ∙ kept_or-step source f name (contains names f) _

  queue_found-NodupKeys :
      (name : String) (o : Option FieldEnvelope) (m : Mutations)
      → NodupKeys (index_of n m)
      → NodupKeys (index_of n (queue_found n endpoint t revision now name o m))
  queue_found-NodupKeys name none m h = h
  queue_found-NodupKeys name (some e) m h =
      subst NodupKeys (sym (queue_one-index name e m))
        (Dict.insert-NodupKeys name _ (index_of n m) h)

  queue_envelopes-NodupKeys :
      (names : List String) (source : Envelopes) (m : Mutations)
      → NodupKeys (index_of n m)
      → NodupKeys (index_of n (queue_envelopes n endpoint t revision now names source m))
  unfolding queue_envelopes
  queue_envelopes-NodupKeys [] source m h = h
  queue_envelopes-NodupKeys (name ∷ names) source m h =
      queue_envelopes-NodupKeys names source _
        (queue_found-NodupKeys name (Dict.lookup name source) m h)

-- Every entry of a dict is what its key is looked up to.
Found : Envelopes → String × FieldEnvelope → Type 0
Found d (name, e) = Dict.lookup name d ≡ some e

Found-cons :
    (name : String) (e : FieldEnvelope) (d rest : Envelopes)
    → Dict.lookup name d ≡ none
    → All (Found d) rest
    → All (Found ((name, e) ∷ d)) rest
unfolding Found
Found-cons name e d [] fresh found = tt
Found-cons name e d ((k, x) ∷ rest) fresh (here, found) =
    (ground (arith, Dict.lookup-cons k name e d), Found-cons name e d rest fresh found)

NodupKeys-Found : (d : Envelopes) → NodupKeys d → All (Found d) d
unfolding Found
NodupKeys-Found [] nodup = tt
NodupKeys-Found ((name, e) ∷ d) (fresh, nodup) = (
  ground (arith, Dict.lookup-cons name name e d),
  Found-cons name e d d fresh (NodupKeys-Found d nodup),
)

-- The field has a checksum, and it is among `names` or the target has that checksum already.
pub record IsCovered (names : List String) (before : Envelopes) (field : String × FieldEnvelope)
    : Type 0 where
  pub sum : String
  pub computed : field.1.checksum ≡ some sum
  pub settled : (contains names field.0 ≡ true) ⊎ IsKnown before field

module _ (n : ℕ) (endpoint : String) (t : EntityType) (revision : Option String) (now : ℕ)
    (names : List String) (source base : Envelopes) (m : Mutations)
    (nodup : NodupKeys (index_of n m)) where
  abbrev before : Envelopes
  before = update_all base (index_of n m)

  abbrev stored : Envelopes
  stored = update_all base (index_of n (queue_envelopes n endpoint t revision now names source m))

  lookup-stored :
      (f : String)
      → Dict.lookup f stored
        ≡ kept_or n endpoint t revision now
            (contains names f)
            (Dict.lookup f source)
            (Dict.lookup f before)
  lookup-stored f =
      lookup-update_all f base _
        (queue_envelopes-NodupKeys n endpoint t revision now names source m nodup)
      ∙ ap (λ o. either o (Dict.lookup f base))
          (queue_envelopes-index n endpoint t revision now names source f m)
      ∙ either-kept (contains names f) (Dict.lookup f source) _ _
      ∙ ap (kept_or n endpoint t revision now (contains names f) (Dict.lookup f source))
          (sym (lookup-update_all f base (index_of n m) nodup))
    where
      either-kept :
          (b : Bool) (o a c : Option FieldEnvelope)
          → either (kept_or n endpoint t revision now b o a) c
            ≡ kept_or n endpoint t revision now b o (either a c)
      either-kept true none a c = refl
      either-kept false none a c = refl
      either-kept true (some e) a c = refl
      either-kept false (some e) a c = refl

  covered-IsKnown :
      (name : String) (e : FieldEnvelope)
      → Dict.lookup name source ≡ some e
      → IsCovered names before (name, e)
      → IsKnown stored (name, e)
  covered-IsKnown name e found k = record {
    sum = k.sum;
    computed = k.computed;
    same =
        ap stored_checksum (
          lookup-stored name
          ∙ ap
              (λ o.
                kept_or n endpoint t revision now (contains names name) o (Dict.lookup name before))
              found)
        ∙ sum-kept (contains names name) k.settled;
  }
    where
      sum-kept :
          (b : Bool)
          → (b ≡ true) ⊎ IsKnown before (name, e)
          → stored_checksum (kept_or n endpoint t revision now b (some e) (Dict.lookup name before))
            ≡ some k.sum
      sum-kept true s = k.computed
      sum-kept false (inl off) = absurd (cc (off))
      sum-kept false (inr known) = known.same ∙ sym known.computed ∙ k.computed

  All-InSync :
      (rest : Envelopes)
      → All (Found source) rest
      → All (IsCovered names before) rest
      → InSync rest stored
  unfolding Found
  All-InSync [] found settled = tt
  All-InSync ((name, e) ∷ rest) (here, found) (s, settled) =
      (covered-IsKnown name e here s, All-InSync rest found settled)

-- When `_queue_envelopes` has persisted the fields that were written, and every other field of the
-- source had the target's checksum before, the next plan for the same source envelopes, in the same
-- cycle, is computed without an error and is empty. The source's and the pending fields do not
-- repeat, every source field has a checksum, and the target supports the entity.
pub plan_diff-replay :
    (s : Settings) (e : Endpoints) (n : ℕ) (t : EntityType) (revision : Option String) (now : ℕ)
    (names : List String) (source : Envelopes) (c : Cycle)
    → supports s.target_manifest t ≡ true
    → NodupKeys source
    → NodupKeys (index_of n c.mutations)
    → All (IsCovered names (stored_target_envelopes s n c)) source
    → plan_diff s e t source (
        stored_target_envelopes s n (
          set_mutations
            (queue_envelopes n s.target_name t revision now names source c.mutations)
            c))
      ≡ pure (idle_plan s.target_manifest t)
unfolding plan_diff stored_target_envelopes
plan_diff-replay s e n t revision now names source c supported distinct nodup covered =
    ap raise_diff (
      compute_field_diff-InSync t source _ s.target_manifest _ supported (
        All-InSync n s.target_name t revision now names source
          (fetch_envelopes n s.target_name c.db) c.mutations nodup source
          (NodupKeys-Found source distinct) covered))

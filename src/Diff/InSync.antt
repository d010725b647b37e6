-- ===== src/Diff/InSync.antt =====
-- A source whose fields the target has already: the idempotent case.
use qlabs_catalog_sync.Prelude.{
  ◌≡◌, refl, true, false, [], ◌∷◌, String, Option, none, some, All, ok, string_eq, arith,
}
use qlabs_catalog_sync.Prelude.Dict.{Dict, lookup}
use qlabs_catalog_sync.Prelude.Distinct.{first_repeat}
use qlabs_catalog_sync.Prelude.Sort.{sort}
use qlabs_catalog_sync.Models.{EntityType, FieldEnvelope, Envelopes}
use qlabs_catalog_sync.Envelope.{
  has_changed, differs, stored_checksum, changed_names, changed_fields,
}
use qlabs_catalog_sync.Diff.{
  AnyManifest, DiffPlan, supports, constraints, plan_fields, make_diff, expected_revision,
  compute_field_diff,
}

-- The field has a checksum, and the target's last-known envelope has the same one.
pub record IsKnown (target : Envelopes) (field : String × FieldEnvelope) : Type 0 where
  pub sum : String
  pub computed : field.1.checksum ≡ some sum
  pub same : stored_checksum (lookup field.0 target) ≡ some sum

abbrev pub InSync : Envelopes → Envelopes → Type 0
InSync source target = All (IsKnown target) source

has_changed-IsKnown :
    (target : Envelopes) (name : String) (e : FieldEnvelope)
    → IsKnown target (name, e)
    → has_changed e (lookup name target) ≡ ok false
unfolding has_changed differs
has_changed-IsKnown target name e k = rw (has_changed, k.computed, k.same) (ground arith)

changed_names-InSync :
    (source target : Envelopes) → InSync source target → changed_names source target ≡ ok []
unfolding changed_names
changed_names-InSync [] target tt = refl
changed_names-InSync ((name, e) ∷ source) target (k, ks) =
    rw (has_changed-IsKnown target name e k, changed_names-InSync source target ks) refl

-- The plan that writes nothing.
abbrev pub idle_plan : AnyManifest → EntityType → DiffPlan
idle_plan manifest t = record {
  diff = record { entity_type = t; changes = []; expected_revision = none };
  dropped = [];
  max_update_operations = (constraints manifest t).max_update_operations;
  revision_ambiguous = false;
}

changed_fields-InSync :
    (source target : Envelopes) → InSync source target → changed_fields source target ≡ ok []
unfolding changed_fields sort
changed_fields-InSync source target known = rw (changed_names-InSync source target known) refl

-- Where every source field has the checksum of the target's last-known envelope, and the target
-- supports the entity, the diff is computed without an error and is empty: nothing is written and
-- nothing is dropped, whatever the manifest and the paths.
pub compute_field_diff-InSync :
    (t : EntityType) (source target : Envelopes) (manifest : AnyManifest)
    (paths : Option (Dict String String))
    → supports manifest t ≡ true
    → InSync source target
    → compute_field_diff t source target manifest paths ≡ ok (idle_plan manifest t)
unfolding compute_field_diff plan_fields make_diff first_repeat expected_revision
compute_field_diff-InSync t source target manifest paths supported known =
    rw (compute_field_diff, supported, changed_fields-InSync source target known) refl

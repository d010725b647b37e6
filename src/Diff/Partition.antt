-- ===== src/Diff/Partition.antt =====
-- Every changed field is planned or dropped, for a reason that the manifest gives.
use mathlib.Core.List.{Permᴰ}
use mathlib.Core.List.Permᴰ
use mathlib.Core.Path.{subst₂}
use qlabs_catalog_sync.Prelude.{
  ◌≡◌, refl, sym, ap, ◌∙◌, ◌≢◌, ◌⊎◌, inl, inr, subst, true, false, List, [], ◌∷◌, ◌++◌, map, String,
  Option, none, some, All, Bool-cases, Result, ok, err, >>=-eq-ok, ok-injective, string_eq,
}
use qlabs_catalog_sync.Prelude.Dict.{Dict, lookup}
use qlabs_catalog_sync.Prelude.Distinct.{DistinctBy, first_repeat, first_repeat-eq-none}
use qlabs_catalog_sync.Models.{EntityType, Json, FieldEnvelope, Envelopes, FieldChange, FieldDiff}
use qlabs_catalog_sync.Manifest.{FieldCapability}
use qlabs_catalog_sync.Envelope.{CanonicalizationError, to_json_value, changed_fields}
use qlabs_catalog_sync.Diff.{
  AnyManifest, is_writable, constraints, Planned, changed, dropped, PathCheck, allowed, refused,
  check_path, DroppedField, no_update_path, unwritable, DiffPlan, lift, limits, plan_field,
  plan_fields, add_planned, plan_envelope, plan_writable, changes_of, make_diff, compute_field_diff,
  supports, previous_value,
}

abbrev pub field_of : FieldChange → String
field_of c = c.field

abbrev pub dropped_name : DroppedField → String
dropped_name d = d.field

abbrev planned_name : Planned → String
planned_name (changed c) = c.field
planned_name (dropped d) = d.field

module _ (manifest : AnyManifest) (entity_type : EntityType) (source target : Envelopes)
    (native_update_paths : Option (Dict String String)) where
  abbrev path_check : String → PathCheck
  path_check =
      check_path (constraints manifest entity_type).allowed_update_paths native_update_paths

  -- A planned change is of a writable field with an allowed path, and carries the source's value.
  pub record MayWrite (c : FieldChange) : Type 0 where
    pub writable : is_writable manifest entity_type c.field ≡ true
    pub path : path_check c.field ≡ allowed
    pub from_source : c.envelope ≡ lookup c.field source
    pub known : c.envelope ≢ none

  -- A dropped field is one that the manifest forbids, or that has no path in the endpoint's enum.
  abbrev pub MustDrop : DroppedField → Type 0
  MustDrop d =
      (is_writable manifest entity_type d.field ≡ false)
      ⊎ ((d.reason ≡ no_update_path) × (path_check d.field ≡ refused d.native_path))

  abbrev Justified : Planned → Type 0
  Justified (changed c) = MayWrite c
  Justified (dropped d) = MustDrop d

  unwritable-name :
      (name : String) (v : Json) (c : Option FieldCapability) → (unwritable name v c).field ≡ name
  unwritable-name name v none = refl
  unwritable-name name v (some c) = refl

  plan_writable-Justified :
      (name : String) (e : FieldEnvelope) (v : Json) (check : PathCheck) (p : Planned)
      → is_writable manifest entity_type name ≡ true
      → path_check name ≡ check
      → lookup name source ≡ some e
      → plan_writable manifest entity_type source target native_update_paths name e v check ≡ ok p
      → (planned_name p ≡ name) × Justified p
  unfolding plan_writable
  plan_writable-Justified name e v (refused path) p w k l h =
      subst (λ (q : Planned). (planned_name q ≡ name) × Justified q) (ok-injective h)
        (refl, inr (refl, k))
  plan_writable-Justified name e v allowed p w k l h =
      let (previous, _, h') = >>=-eq-ok (lift (previous_value (lookup name target))) _ h in
      subst (λ (q : Planned). (planned_name q ≡ name) × Justified q) (ok-injective h')
        (refl, record { writable = w; path = k; from_source = sym l; known = λ e. cc })

  unwritable-Justified :
      (name : String) (v : Json) (c : Option FieldCapability)
      → is_writable manifest entity_type name ≡ false
      → Justified (dropped (unwritable name v c))
  unwritable-Justified name v none w = inl w
  unwritable-Justified name v (some c) w = inl w

  plan_envelope-Justified :
      (name : String) (e : FieldEnvelope) (p : Planned)
      → lookup name source ≡ some e
      → plan_envelope manifest entity_type source target native_update_paths name e ≡ ok p
      → (planned_name p ≡ name) × Justified p
  unfolding plan_envelope
  plan_envelope-Justified name e p l h =
      let (v, _, h') = >>=-eq-ok (lift (to_json_value e.value)) _ h in
      elim (Bool-cases (is_writable manifest entity_type name)) [
        | inl w ↦ plan_writable-Justified name e v (path_check name) p w refl l (rw w at h')
        | inr w ↦
            subst (λ (q : Planned). (planned_name q ≡ name) × Justified q)
              (ok-injective (rw w at h'))
              (
                unwritable-name name v (
                    lookup name
                      (limits manifest entity_type source target native_update_paths).fields),
                unwritable-Justified name v _ w,
              )
      ]

  plan_field-Justified :
      (name : String) (p : Planned)
      → plan_field manifest entity_type source target native_update_paths name ≡ ok p
      → (planned_name p ≡ name) × Justified p
  unfolding plan_field
  plan_field-Justified name p h = go (lookup name source) refl
    where
      go :
          (o : Option FieldEnvelope)
          → lookup name source ≡ o
          → (planned_name p ≡ name) × Justified p
      go none l = absurd (cc (rw (l, plan_field) at h))
      go (some e) l = plan_envelope-Justified name e p l (rw (l, plan_field) at h)

  -- The names of a plan's changes and of its drops are the names that it was given, each once.
  pub record SortedOut (names : List String) (plans : List FieldChange × List DroppedField)
      : Type 0 where
    pub names_kept : Permᴰ names (map field_of plans.0 ++ map dropped_name plans.1)
    pub changes_allowed : All MayWrite plans.0
    pub drops_justified : All MustDrop plans.1

  add-sorted :
      (name : String) (names : List String) (p : Planned)
      (plans : List FieldChange × List DroppedField)
      → (planned_name p ≡ name)
      → Justified p
      → SortedOut names plans
      → SortedOut
          (name ∷ names)
          (add_planned manifest entity_type source target native_update_paths p plans)
  add-sorted name names (changed c) (changes, drops) e j s = record {
    names_kept = Permᴰ.cons (sym e) s.names_kept;
    changes_allowed = (j, s.changes_allowed);
    drops_justified = s.drops_justified;
  }
  add-sorted name names (dropped d) (changes, drops) e j s = record {
    names_kept =
        Permᴰ.trans (Permᴰ.cons (sym e) s.names_kept)
          (Permᴰ.symm (Permᴰ.middle d.field (map field_of changes) (map dropped_name drops)));
    changes_allowed = s.changes_allowed;
    drops_justified = (j, s.drops_justified);
  }

  plan_fields-SortedOut :
      (names : List String) (plans : List FieldChange × List DroppedField)
      → plan_fields manifest entity_type source target native_update_paths names ≡ ok plans
      → SortedOut names plans
  unfolding plan_fields
  plan_fields-SortedOut [] plans h =
      subst (SortedOut []) (ok-injective h)
        (record { names_kept = Permᴰ.nil; changes_allowed = tt; drops_justified = tt })
  plan_fields-SortedOut (name ∷ names) plans h =
      let (p, e1, h1) =
        >>=-eq-ok (plan_field manifest entity_type source target native_update_paths name) _ h in
      let (rest, e2, h2) =
        >>=-eq-ok (plan_fields manifest entity_type source target native_update_paths names) _ h1 in
      let (named, justified) = plan_field-Justified name p e1 in
      subst (SortedOut (name ∷ names)) (ok-injective h2)
        (add-sorted name names p rest named justified (plan_fields-SortedOut names rest e2))

  make_diff-eq : (d d' : FieldDiff) → make_diff d ≡ ok d' → (d ≡ d') × DistinctBy field_of d.changes
  unfolding make_diff
  make_diff-eq d d' h = go (first_repeat field_of [] d.changes) refl
    where
      go :
          (o : Option String)
          → first_repeat field_of [] d.changes ≡ o
          → (d ≡ d') × DistinctBy field_of d.changes
      go none e =
          (ok-injective (rw (e, make_diff) at h), (first_repeat-eq-none field_of d.changes).0 e)
      go (some f) e = absurd (cc (rw (e, make_diff) at h))

  lift-eq-ok : {A : Type 0} (r : Result CanonicalizationError A) (a : A) → lift r ≡ ok a → r ≡ ok a
  lift-eq-ok (ok b) a h = cc
  lift-eq-ok (err e) a h = cc

  -- When a diff is computed, the fields whose checksums differ are exactly the planned changes and
  -- the dropped fields together, each once; every planned change is of a field that the target's
  -- manifest declares writable, on a path that the endpoint's enum allows, and carries the source's
  -- envelope; every dropped field is unwritable or has no allowed path; and no two changes share a
  -- field.
  pub compute_field_diff-SortedOut :
      (plan : DiffPlan)
      → compute_field_diff entity_type source target manifest native_update_paths ≡ ok plan
      → (names : List String) × (changed_fields source target ≡ ok names)
        × SortedOut names (changes_of plan, plan.dropped)
        × DistinctBy field_of (changes_of plan)
  unfolding compute_field_diff
  compute_field_diff-SortedOut plan h = elim (Bool-cases (supports manifest entity_type)) [
    | inr off ↦ absurd (cc (rw off at h))
    | inl on ↦
        let (names, e1, h1) = >>=-eq-ok (lift (changed_fields source target)) _ (rw on at h) in
        let (plans, e2, h2) =
          >>=-eq-ok (plan_fields manifest entity_type source target native_update_paths names) _
            h1 in
        let (d, e3, h3) = >>=-eq-ok (make_diff _) _ h2 in
        let (same, distinct) = make_diff-eq _ d e3 in
        let p3 = ok-injective h3 in
        let kept : plans.0 ≡ changes_of plan =
          ap (λ (t : FieldDiff). t.changes) same ∙ ap (λ (t : DiffPlan). t.diff.changes) p3 in
        (
          names,
          lift-eq-ok _ names e1,
          subst₂ (λ cs ds. SortedOut names (cs, ds)) kept (ap (λ (t : DiffPlan). t.dropped) p3)
              (plan_fields-SortedOut names plans e2),
          subst (DistinctBy field_of) kept distinct,
        )
  ]

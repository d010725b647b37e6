-- ===== src/SourceTree/Total.antt =====
-- A change whose key is not blank always gets a decision.
use Prim.Native.Char.{Char}
use Prim.Native.String.append
use qlabs_catalog_sync.Prelude.{
  ◌≡◌, refl, sym, ap, ◌∙◌, ◌⊎◌, inl, inr, Bool, true, false, not, List, [], ◌∷◌, String, ◌<>◌, none,
  some, Result, ok, err, Bool-cases, ◌==◌, arith, length, if◌then◌else◌, Option, subst, string_eq,
}
use qlabs_catalog_sync.Prelude.Text.{is_blank, is_empty, split}
use qlabs_catalog_sync.Prelude.Text.Join.{split-first, split-rest, split-join, is_blank-append}
use qlabs_catalog_sync.Prelude.Dict.{lookup}
use qlabs_catalog_sync.Models.{IdentityRef}
use qlabs_catalog_sync.Changes.{ChangeRef}
use qlabs_catalog_sync.Selection.Types.{
  RuleScope, RuleScope-discrete, object, dataset, scope_eq, override, Fact, Tag, Party,
}
use qlabs_catalog_sync.Selection.Candidate.{
  SelectionCandidate, is_shaped, make_candidate, name_error,
}
use qlabs_catalog_sync.Selection.RuleSet.{
  SelectionRuleSet, SelectionOverride, override_for, rules_for,
}
use qlabs_catalog_sync.Selection.Evaluate.{
  SelectionResult, evaluate, decide_by_rules, consult, Consulted,
}
use qlabs_catalog_sync.SourceTree.{
  wrong_scope, lift, shaped_or, parent_of, schema_candidate, DatasetSelection, candidate_for_change,
  qualified_name_from_ref, parent_schema_candidate, compose_dataset_selection, make_selection,
  select_dataset_change,
}

-- A name of a dataset has three parts, none of them empty.
three_parts :
    (name : String)
    → is_shaped name dataset ≡ true
    → (a b c : String) × (split b'.' name ≡ a ∷ b ∷ c ∷ [])
      × (is_empty a ≡ false)
      × (is_empty b ≡ false)
unfolding is_shaped
three_parts name h = go (split b'.' name) refl
  where
    go :
        (parts : List String)
        → split b'.' name ≡ parts
        → (a b c : String) × (split b'.' name ≡ a ∷ b ∷ c ∷ [])
          × (is_empty a ≡ false)
          × (is_empty b ≡ false)
    go [] e = absurd (let k = (rw e at h) in ground arith)
    go (a ∷ []) e = absurd (let k = (rw e at h) in ground arith)
    go (a ∷ b ∷ []) e = absurd (let k = (rw e at h) in ground arith)
    go (a ∷ b ∷ c ∷ []) e = let k = (rw e at h) in (a, b, c, e, ground arith, ground arith)
    go (a ∷ b ∷ c ∷ d ∷ rest) e = absurd (let k = (rw e at h) in ground arith)

abbrev period : Char
period = "."

dot : (b : String) → ("." <> b) ≡ String.◌∷◌ period b
dot b = append.cons period String.[] b ∙ ap (λ t. String.◌∷◌ period t) (append.nil b)

-- The name of the schema of a dataset's name is a name of a schema.
schema-shaped :
    (name a b c : String)
    → split b'.' name ≡ a ∷ b ∷ c ∷ []
    → split b'.' (a <> "." <> b) ≡ a ∷ b ∷ []
schema-shaped name a b c parts =
    let (rest, later) = split-rest b'.' name a b (c ∷ []) parts in
    let second = split-first b'.' rest b (c ∷ []) later in
    let first = split-first b'.' name a (b ∷ c ∷ []) parts in
    ap (λ t. split b'.' (a <> t)) (dot b)
    ∙ split-join b'.' a b period first refl
    ∙ ap (λ l. a ∷ l) second

abbrev NamedFor : RuleScope → Fact String → Type 0
NamedFor scope none = Unit
NamedFor scope (some name) = is_shaped name scope ≡ true

shaped_or-NamedFor :
    (name : String) (scope : RuleScope) (fallback : Fact String)
    → NamedFor scope fallback
    → NamedFor scope (shaped_or name scope fallback)
shaped_or-NamedFor name scope fallback h = go (is_shaped name scope) refl
  where
    go : (b : Bool) → is_shaped name scope ≡ b → NamedFor scope (if b then some name else fallback)
    go true e = e
    go false e = h

qualified_name-NamedFor :
    (ref : IdentityRef) (scope : RuleScope) → NamedFor scope (qualified_name_from_ref ref scope)
unfolding qualified_name_from_ref
qualified_name-NamedFor ref scope = go (lookup "full_name" ref.secondary_keys)
  where
    from_key : NamedFor scope (shaped_or ref.native_key scope none)
    from_key = shaped_or-NamedFor ref.native_key scope none tt

    go :
        (key : Option String)
        → NamedFor scope (elim key [
          | none ↦ shaped_or ref.native_key scope none
          | some full_name ↦
              if is_empty full_name
              then shaped_or ref.native_key scope none
              else shaped_or full_name scope (shaped_or ref.native_key scope none)
        ])
    go none = from_key
    go (some full_name) =
        elim (is_empty full_name)
          as (λ b. NamedFor scope (
            if b
            then shaped_or ref.native_key scope none
            else shaped_or full_name scope (shaped_or ref.native_key scope none))) [
              | true ↦ from_key
              | false ↦ shaped_or-NamedFor full_name scope _ from_key
            ]

named-ok :
    (c : SelectionCandidate)
    → is_blank c.object_id ≡ false
    → NamedFor c.scope c.qualified_name
    → make_candidate c ≡ ok c
unfolding make_candidate
named-ok c h named = rw h (go c.qualified_name refl named)
  where
    go : (q : Fact String) → c.qualified_name ≡ q → NamedFor c.scope q → name_error c q ≡ ok c
    go none e n = refl
    go (some name) e n = rw (subst (λ (x : Bool). x ≡ true) refl n) refl

schema_candidate-ok :
    (object_id : String) (q : Fact String)
    → is_blank object_id ≡ false
    → NamedFor object q
    → (p : SelectionCandidate) × (schema_candidate object_id q ≡ ok p) × (p.scope ≡ object)
schema_candidate-ok object_id q h n = (_, ap lift (named-ok _ h n), refl)

parent_of-ok :
    (object_id : String) (q : Fact String)
    → NamedFor dataset q
    → (p : SelectionCandidate) × (parent_of object_id q ≡ ok p) × (p.scope ≡ object)
unfolding is_shaped qlabs_catalog_sync.Prelude.Text.is_space
parent_of-ok object_id none n =
    schema_candidate-ok (object_id <> "::unresolved-parent") none
      (ap (λ t. is_blank (object_id <> t)) (append.cons ":" ":unresolved-parent" String.[])
        ∙ is_blank-append object_id ":unresolved-parent" ":" refl)
      tt
parent_of-ok object_id (some name) n =
    let (a, b, c, parts, full_a, full_b) = three_parts name n in
    let joined = schema-shaped name a b c parts in
    let blank : is_blank (a <> "." <> b) ≡ false =
      ap (λ t. is_blank (a <> t)) (dot b) ∙ is_blank-append a b period refl in
    let (p, e, same) =
      schema_candidate-ok (a <> "." <> b) (some (a <> "." <> b)) blank
        (rw (joined, full_a, full_b) refl) in
    (p, rw parts e, same)

make_selection-ok :
    (s : DatasetSelection)
    → s.parent.candidate.scope ≡ object
    → s.dataset.candidate.scope ≡ dataset
    → make_selection s ≡ ok s
unfolding make_selection RuleScope-discrete
make_selection-ok s a b =
    ap
      (λ (r : RuleScope).
        if not (r == object)
        then err wrong_scope
        else if s.dataset.candidate.scope == dataset
        then ok s
        else err wrong_scope)
      a
    ∙ ap (λ (r : RuleScope). if r == dataset then ok s else err wrong_scope) b

decided : (c : SelectionCandidate) (r : Consulted) → (decide_by_rules c r).candidate ≡ c
unfolding decide_by_rules
decided c (none, u) = refl
decided c (some r, u) = refl

module _ (casefold : String → String) (rules : SelectionRuleSet) where
  evaluate-candidate : (c : SelectionCandidate) → (evaluate casefold rules c).candidate ≡ c
  unfolding evaluate
  evaluate-candidate c = go (override_for rules c)
    where
      go :
          (o : Option SelectionOverride)
          → (elim o as (λ x. SelectionResult) [
            | some o ↦ record {
              candidate = c;
              decision = o.decision;
              source = override;
              rule = none;
              override = some o;
              undetermined = [];
            }
            | none ↦ decide_by_rules c (consult casefold (rules_for rules c.scope) c (none, []))
          ]).candidate
            ≡ c
      go none = decided c _
      go (some o) = refl

  compose-ok :
      (c parent : SelectionCandidate)
      → c.scope ≡ dataset
      → parent.scope ≡ object
      → (s : DatasetSelection) × (compose_dataset_selection casefold rules c
            (evaluate casefold rules parent)
          ≡ ok s)
  unfolding compose_dataset_selection RuleScope-discrete
  compose-ok c parent a b =
      let s : DatasetSelection = record {
        parent = evaluate casefold rules parent;
        dataset = evaluate casefold rules c;
      } in
      (
        s,
        ap (λ (r : RuleScope). if r == dataset then make_selection s else err wrong_scope) a
            ∙ make_selection-ok s
                (ap (λ (x : SelectionCandidate). x.scope) (evaluate-candidate parent) ∙ b)
                (ap (λ (x : SelectionCandidate). x.scope) (evaluate-candidate c) ∙ a),
      )

  -- For a change whose native key is not blank, whatever its names, tags and owners, a decision is
  -- reached without an error.
  pub select_dataset_change-total :
      (change : ChangeRef) (tags : Fact (List Tag)) (owners : Fact (List Party))
      → is_blank change.ref.native_key ≡ false
      → (s : DatasetSelection) × (select_dataset_change casefold rules change tags owners ≡ ok s)
  unfolding select_dataset_change candidate_for_change parent_schema_candidate RuleScope-discrete
  select_dataset_change-total change tags owners h =
      let named = qualified_name-NamedFor change.ref dataset in
      let c : SelectionCandidate = record {
        scope = dataset;
        object_id = change.ref.native_key;
        qualified_name = qualified_name_from_ref change.ref dataset;
        tags = tags;
        owners = owners;
        display_name = change.display_name;
      } in
      let made = named-ok c h named in
      let (parent, e, scope) = parent_of-ok change.ref.native_key _ named in
      let (s, composed) = compose-ok c parent refl scope in (s, rw (made, e) composed)

-- ===== src/SourceTree/Parent.antt =====
-- A dataset is never selected without its schema.
use qlabs_catalog_sync.Prelude.{
  ◌≡◌, refl, ap, ◌∙◌, ◌⊎◌, inl, inr, Bool, true, false, List, String, Result, ok, err, >>=-eq-ok,
  Bool-cases, ◌==◌, arith,
}
use qlabs_catalog_sync.Changes.{ChangeRef}
use qlabs_catalog_sync.Selection.Types.{
  dataset, scope_eq, Fact, Tag, Party, DecisionSource, override, rule, default,
}
use qlabs_catalog_sync.Selection.Candidate.{SelectionCandidate, CandidateError}
use qlabs_catalog_sync.Selection.RuleSet.{SelectionRuleSet}
use qlabs_catalog_sync.Selection.Evaluate.{SelectionResult, included, evaluate}
use qlabs_catalog_sync.SourceTree.{
  lift, DatasetSelection, dataset_included, make_selection, candidate_for_change,
  parent_schema_candidate, compose_dataset_selection, select_dataset_change,
}

lift-eq-ok :
    (r : Result CandidateError SelectionCandidate) (c : SelectionCandidate)
    → lift r ≡ ok c
    → r ≡ ok c
lift-eq-ok (ok b) c h = cc
lift-eq-ok (err e) c h = absurd (cc (h))

make_selection-same : (s s' : DatasetSelection) → make_selection s ≡ ok s' → s ≡ s'
unfolding make_selection
make_selection-same s s' h = ground arith

included-cases :
    (s : DatasetSelection)
    → dataset_included s ≡ true
    → (included s.parent ≡ true) × ((included s.dataset ≡ true) ⊎ (s.dataset.source ≡ default))
unfolding dataset_included
included-cases s h = go (included s.parent) refl s.dataset.source refl
  where
    go :
        (p : Bool)
        → included s.parent ≡ p
        → (d : DecisionSource) → s.dataset.source ≡ d
        → (included s.parent ≡ true) × ((included s.dataset ≡ true) ⊎ (s.dataset.source ≡ default))
    go false off d source = absurd (cc (rw off at h))
    go true on default source = (on, inr source)
    go true on override source = (on, inl (rw (on, source) at h))
    go true on rule source = (on, inl (rw (on, source) at h))

module _ (casefold : String → String) (rules : SelectionRuleSet) where
  composed :
      (c : SelectionCandidate) (parent : SelectionResult) (s : DatasetSelection)
      → compose_dataset_selection casefold rules c parent ≡ ok s
      → record { parent = parent; dataset = evaluate casefold rules c } ≡ s
  unfolding compose_dataset_selection
  composed c parent s h = elim (Bool-cases (c.scope == dataset)) [
    | inl on ↦ make_selection-same _ s (rw on at h)
    | inr off ↦ absurd (cc (rw off at h))
  ]

  -- A dataset that is selected has a parent schema candidate that the rules include, and is itself
  -- included by them or decided by no rule and no override of its own.
  pub dataset_included-parent :
      (change : ChangeRef) (tags : Fact (List Tag)) (owners : Fact (List Party))
      (s : DatasetSelection)
      → select_dataset_change casefold rules change tags owners ≡ ok s
      → dataset_included s ≡ true
      → (c : SelectionCandidate) × (parent : SelectionCandidate) × (candidate_for_change change
            dataset tags owners
          ≡ ok c)
        × (parent_schema_candidate c ≡ ok parent)
        × (included (evaluate casefold rules parent) ≡ true)
        × ((included (evaluate casefold rules c) ≡ true)
            ⊎ ((evaluate casefold rules c).source ≡ default))
  unfolding select_dataset_change
  dataset_included-parent change tags owners s h selected =
      let (c, e1, h1) = >>=-eq-ok (lift (candidate_for_change change dataset tags owners)) _ h in
      let (parent, e2, h2) = >>=-eq-ok (parent_schema_candidate c) _ h1 in
      let same = composed c (evaluate casefold rules parent) s h2 in
      let (on, own) = included-cases _ (ap dataset_included same ∙ selected) in
      (c, parent, lift-eq-ok _ c e1, e2, on, own)

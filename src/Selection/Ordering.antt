-- ===== src/Selection/Ordering.antt =====
-- What `SelectionRuleSet.build` guarantees of the order of its rules.
use mathlib.Core.List.{Permᴰ}
use qlabs_catalog_sync.Prelude.{
  ℕ, ◌≡◌, sym, ap, subst, ◌==◌, ◌∙◌, ◌↔◌, List, [], ◌∷◌, map, String, arith, string_eq, nat_eq, ok,
  >>=-eq-ok, ok-injective,
}
use qlabs_catalog_sync.Prelude.Distinct.{
  DistinctBy, DistinctBy-perm, first_repeat-eq-none, filter-perm,
}
use qlabs_catalog_sync.Prelude.Sort.{sort_by}
use qlabs_catalog_sync.Prelude.Sort.Ordinal.{
  sort_by-perm, sort_by_perm, sort_by-IsAscending, IsAscending,
}
use qlabs_catalog_sync.Selection.Types.{RuleScope, object, dataset, scope_eq}
use qlabs_catalog_sync.Selection.Matcher.{SelectionRule, compile_matcher}
use qlabs_catalog_sync.Selection.RuleSet.{
  SelectionRuleSet, SelectionOverride, CompiledRule, in_scope, check_ids, check_ordinals,
  compile_all, build_scope, build, collect_overrides, rules_for, as_bad_rule,
}

abbrev pub id_of : SelectionRule → String
id_of r = r.rule_id

abbrev pub ordinal_of : SelectionRule → ℕ
ordinal_of r = r.ordinal

abbrev pub rules_of : List CompiledRule → List SelectionRule
rules_of = map (λ x. x.rule)

check_ids-DistinctBy :
    (rules : List SelectionRule) → (check_ids rules ≡ ok tt) ↔ DistinctBy id_of rules
unfolding check_ids
check_ids-DistinctBy rules = (
  λ h. (first_repeat-eq-none id_of rules).0 (ground arith),
  λ d. rw ((first_repeat-eq-none id_of rules).1 d, check_ids),
)

check_ordinals-DistinctBy :
    (rules : List SelectionRule) → (check_ordinals rules ≡ ok tt) ↔ DistinctBy ordinal_of rules
unfolding check_ordinals
check_ordinals-DistinctBy rules = (
  λ h. (first_repeat-eq-none ordinal_of rules).0 (ground arith),
  λ d. rw ((first_repeat-eq-none ordinal_of rules).1 d, check_ordinals),
)

module _ (casefold : String → String) where
  rules_of-compile_all :
      (rules : List SelectionRule) {compiled : List CompiledRule}
      → compile_all casefold rules ≡ ok compiled
      → rules_of compiled ≡ rules
  unfolding compile_all
  rules_of-compile_all [] h = cc
  rules_of-compile_all (r ∷ rules) h =
      let (matcher, _, h') =
        >>=-eq-ok (as_bad_rule (compile_matcher casefold r.matcher_kind r.pattern r.scope)) _ h in
      let (rest, e, h'') = >>=-eq-ok (compile_all casefold rules) _ h' in
      sym (ap rules_of (ok-injective h''))
      ∙ ap (λ (l : List SelectionRule). r ∷ l) (rules_of-compile_all rules e)

  -- What a scope that builds has passed, and how its rules are arranged.
  pub record Arranged (rules : List SelectionRule) (compiled : List CompiledRule) : Type 0 where
    pub ordinals : DistinctBy ordinal_of rules
    pub compiled_from : compile_all casefold (sort_by ordinal_of rules) ≡ ok compiled

  build_scope-Arranged :
      {rules : List SelectionRule} {compiled : List CompiledRule}
      → build_scope casefold rules ≡ ok compiled
      → Arranged rules compiled
  unfolding build_scope
  build_scope-Arranged {rules} h =
      let (_, e, h') = >>=-eq-ok (check_ordinals rules) _ h in
      record { ordinals = (check_ordinals-DistinctBy rules).0 e; compiled_from = h' }

  pub Arranged-build_scope :
      {rules : List SelectionRule} {compiled : List CompiledRule}
      → Arranged rules compiled
      → build_scope casefold rules ≡ ok compiled
  unfolding build_scope
  Arranged-build_scope {rules} a =
      rw ((check_ordinals-DistinctBy rules).1 a.ordinals) a.compiled_from

  build_scope-perm :
      {rules rules' : List SelectionRule} {compiled : List CompiledRule}
      → Permᴰ rules rules'
      → build_scope casefold rules ≡ ok compiled
      → build_scope casefold rules' ≡ ok compiled
  build_scope-perm p h =
      let a = build_scope-Arranged h in
      Arranged-build_scope (record {
        ordinals = DistinctBy-perm ordinal_of p a.ordinals;
        compiled_from = rw (← sort_by-perm ordinal_of p a.ordinals) a.compiled_from;
      })

  pub record Built (rules : List SelectionRule) (overrides : List SelectionOverride)
      (s : SelectionRuleSet) : Type 0 where
    pub ids : DistinctBy id_of rules
    pub objects : build_scope casefold (in_scope object rules) ≡ ok s.object_rules
    pub datasets : build_scope casefold (in_scope dataset rules) ≡ ok s.dataset_rules
    pub scoped : collect_overrides [] [] overrides ≡ ok (s.object_overrides, s.dataset_overrides)

  build-Built :
      (rules : List SelectionRule) (overrides : List SelectionOverride) (s : SelectionRuleSet)
      → build casefold rules overrides ≡ ok s
      → Built rules overrides s
  unfolding build
  build-Built rules overrides s h =
      let (_, ids, h1) = >>=-eq-ok (check_ids rules) _ h in
      let (objects, e1, h2) = >>=-eq-ok (build_scope casefold (in_scope object rules)) _ h1 in
      let (datasets, e2, h3) = >>=-eq-ok (build_scope casefold (in_scope dataset rules)) _ h2 in
      let (scoped, e3, h4) = >>=-eq-ok (collect_overrides [] [] overrides) _ h3 in
      let p = ok-injective h4 in
      record {
        ids = (check_ids-DistinctBy rules).0 ids;
        objects = e1 ∙ ap (λ (t : SelectionRuleSet). ok t.object_rules) p;
        datasets = e2 ∙ ap (λ (t : SelectionRuleSet). ok t.dataset_rules) p;
        scoped = e3 ∙ ap (λ (t : SelectionRuleSet). ok (t.object_overrides, t.dataset_overrides)) p;
      }

  pub Built-build :
      (rules : List SelectionRule) (overrides : List SelectionOverride) (s : SelectionRuleSet)
      → Built rules overrides s
      → build casefold rules overrides ≡ ok s
  unfolding build
  Built-build rules overrides s b =
      rw ((check_ids-DistinctBy rules).1 b.ids, b.objects, b.datasets, b.scoped)

  -- The order in which rules are handed over, such as the order of the rows, has no effect: where
  -- they build a rule set, every rearrangement of them builds the same one.
  pub build-perm :
      (rules rules' : List SelectionRule) (overrides : List SelectionOverride)
      (s : SelectionRuleSet)
      → Permᴰ rules rules'
      → build casefold rules overrides ≡ ok s
      → build casefold rules' overrides ≡ ok s
  unfolding in_scope
  build-perm rules rules' overrides s p h =
      let b = build-Built rules overrides s h in
      Built-build rules' overrides s (record {
        ids = DistinctBy-perm id_of p b.ids;
        objects = build_scope-perm (filter-perm (λ r. r.scope == object) p) b.objects;
        datasets = build_scope-perm (filter-perm (λ r. r.scope == dataset) p) b.datasets;
        scoped = b.scoped;
      })

  build_scope-IsAscending :
      (rules : List SelectionRule) (compiled : List CompiledRule)
      → build_scope casefold rules ≡ ok compiled
      → IsAscending ordinal_of (rules_of compiled) × Permᴰ rules (rules_of compiled)
  build_scope-IsAscending rules compiled h =
      let a = build_scope-Arranged {rules = rules} h in
      let e = rules_of-compile_all (sort_by ordinal_of rules) a.compiled_from in
      (
        subst (IsAscending ordinal_of) (sym e) (sort_by-IsAscending ordinal_of rules a.ordinals),
        subst (Permᴰ rules) (sym e) (sort_by_perm ordinal_of rules),
      )

  -- A rule set that builds keeps, in each scope, exactly the given rules of that scope, each once
  -- and in strictly ascending order of their ordinals; and no two given rules share an id.
  pub build-IsAscending :
      (rules : List SelectionRule) (overrides : List SelectionOverride) (s : SelectionRuleSet)
      (scope : RuleScope)
      → build casefold rules overrides ≡ ok s
      → IsAscending ordinal_of (rules_of (rules_for s scope))
        × Permᴰ (in_scope scope rules) (rules_of (rules_for s scope))
        × DistinctBy id_of rules
  unfolding rules_for
  build-IsAscending rules overrides s object h =
      let b = build-Built rules overrides s h in
      let (up, same) = build_scope-IsAscending _ _ b.objects in (up, same, b.ids)
  build-IsAscending rules overrides s dataset h =
      let b = build-Built rules overrides s h in
      let (up, same) = build_scope-IsAscending _ _ b.datasets in (up, same, b.ids)

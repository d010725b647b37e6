-- ===== src/Diff/Revision.antt =====
-- The single revision that a write may be guarded by.
use qlabs_catalog_sync.Prelude.{
  ◌≡◌, refl, ◌≢◌, ◌⊎◌, inl, inr, ◌↔◌, true, false, List, [], ◌∷◌, String, none, some, arith,
  contains, string_eq,
}
use qlabs_catalog_sync.Models.{Envelopes, FieldChange}
use qlabs_catalog_sync.Diff.{expected_revision, revisions, revision_at}

-- Some changed field's last-known target envelope carries the revision.
abbrev pub Carried : String → List FieldChange → Envelopes → Type 0
Carried r [] target = ⊥
Carried r (c ∷ changes) target = (revision_at c target ≡ some r) ⊎ Carried r changes target

contains-revisions :
    (r : String) (changes : List FieldChange) (target : Envelopes)
    → (contains (revisions changes target) r ≡ true) ↔ Carried r changes target
unfolding revisions
contains-revisions r [] target = (λ h. cc, λ h. absurd h)
contains-revisions r (c ∷ changes) target = ground (arith, contains-revisions r changes target)

-- No revision is listed twice.
second_differs :
    (changes : List FieldChange) (target : Envelopes) (r s : String) (rest : List String)
    → revisions changes target ≡ r ∷ s ∷ rest
    → r ≢ s
unfolding revisions
second_differs [] target r s rest h = absurd (cc)
second_differs (c ∷ changes) target r s rest h =
    λ e. ground (arith, second_differs changes target r s rest)

module _ (changes : List FieldChange) (target : Envelopes) where
  pub record Unknown : Type 0 where
    pub result : expected_revision changes target ≡ (none, false)
    pub nothing : (r : String) → ¬ Carried r changes target

  pub record Agreed (r : String) : Type 0 where
    pub result : expected_revision changes target ≡ (some r, false)
    pub carried : Carried r changes target
    pub only : (s : String) → Carried s changes target → s ≡ r

  pub record Disputed (r s : String) : Type 0 where
    pub result : expected_revision changes target ≡ (none, true)
    pub differ : r ≢ s
    pub carried_first : Carried r changes target
    pub carried_second : Carried s changes target

  abbrev pub RevisionCases : Type 0
  RevisionCases = Unknown ⊎ ((r : String) × Agreed r) ⊎ ((r : String) × (s : String) × Disputed r s)

  listed :
      (r : String) (l : List String)
      → revisions changes target ≡ l
      → (contains l r ≡ true) ↔ Carried r changes target
  listed r l e = rw e at (contains-revisions r changes target)

  cases_of : (l : List String) → revisions changes target ≡ l → RevisionCases
  unfolding expected_revision
  cases_of [] e =
      inl (record { result = rw (e, expected_revision); nothing = λ r c. cc ((listed r [] e).1 c) })
  cases_of (r ∷ []) e = inr (
      inl (
        r,
        record {
          result = rw (e, expected_revision);
          carried = (listed r (r ∷ []) e).0 (ground arith);
          only = λ s c. ground (arith, (listed s (r ∷ []) e).1 c);
        },
      ))
  cases_of (r ∷ s ∷ rest) e = inr (
      inr (
        r,
        s,
        record {
          result = rw (e, expected_revision);
          differ = second_differs changes target r s rest e;
          carried_first = (listed r (r ∷ s ∷ rest) e).0 (ground arith);
          carried_second = (listed s (r ∷ s ∷ rest) e).0 (ground arith);
        },
      ))

  -- The claimed revision and the ambiguity flag, on every branch: nothing is claimed where no
  -- changed field's last-known target envelope carries a revision; a revision is claimed where some
  -- field carries it and all that carry one carry the same; and where two fields carry different
  -- ones nothing is claimed and the plan is flagged ambiguous.
  pub expected_revision_cases : RevisionCases
  expected_revision_cases = cases_of (revisions changes target) refl

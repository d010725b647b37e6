-- ===== src/Prelude/Distinct.antt =====
-- A loop that keeps the keys it has seen, and stops at the first that it sees again.
use mathlib.Core.Path.{◌≡◌, refl, sym, subst, ap, ◌∙◌}
use mathlib.Core.Logic.{◌≢◌, ◌↔◌, inl, inr}
use mathlib.Core.Bool.{Bool, false}
use mathlib.Core.Option.{Option, none, some}
use mathlib.Core.List.{List, [], ◌∷◌, map, Permᴰ}
use mathlib.Core.List.Permᴰ
use native.Mathlib.Omega.{arith}
use qlabs_catalog_sync.Prelude.Equality.{Eq, contains, if◌then◌else◌, Bool-cases}
use qlabs_catalog_sync.Prelude.Lists.{All, filter}

module _ {ℓ κ} {A : Type ℓ} (P : A → Type κ) where
  pub All-perm : {xs ys : List A} → Permᴰ xs ys → All P xs → All P ys
  All-perm Permᴰ.nil h = tt
  All-perm (Permᴰ.cons e p) (h, hs) = (subst P e h, All-perm p hs)
  All-perm (Permᴰ.swap e f) (h, (k, hs)) = (subst P f k, (subst P e h, hs))
  All-perm (Permᴰ.trans p q) h = All-perm q (All-perm p h)

module _ {ℓ} {A : Type ℓ} (p : A → Bool) where
  pub filter-perm : {xs ys : List A} → Permᴰ xs ys → Permᴰ (filter p xs) (filter p ys)
  filter-perm Permᴰ.nil = Permᴰ.nil
  filter-perm (Permᴰ.cons {a = a} {b = b} {l₁ = xs} {l₂ = ys} e q) =
      rw (← e) (keep a (filter-perm q))
    where
      keep :
          (a : A)
          → Permᴰ (filter p xs) (filter p ys)
          → Permᴰ (filter p (a ∷ xs)) (filter p (a ∷ ys))
      keep a r = elim (Bool-cases (p a)) [
        | inl kept ↦ rw kept (Permᴰ.cons refl r)
        | inr left ↦ rw left r
      ]
  filter-perm (Permᴰ.swap {a = a} {b = b} {l = l} e f) = rw (← e, ← f) (exchange a b)
    where
      exchange : (a b : A) → Permᴰ (filter p (a ∷ b ∷ l)) (filter p (b ∷ a ∷ l))
      exchange a b = elim (Bool-cases (p a)) [
        | inl kept ↦ elim (Bool-cases (p b)) [
          | inl kept' ↦ rw (kept, kept') (Permᴰ.swap refl refl)
          | inr left ↦ rw (kept, left) (Permᴰ.refl _)
        ]
        | inr left ↦ rw left (Permᴰ.refl _)
      ]
  filter-perm (Permᴰ.trans q r) = Permᴰ.trans (filter-perm q) (filter-perm r)

module _ {ℓ κ} {A : Type ℓ} {K : Type κ} (key : A → K) where
  -- No two items have the same key.
  abbrev pub DistinctBy : List A → Type (ℓ ⊔ κ)
  DistinctBy [] = Unit
  DistinctBy (x ∷ xs) = All (λ y. key x ≢ key y) xs × DistinctBy xs

  pub DistinctBy-perm : {xs ys : List A} → Permᴰ xs ys → DistinctBy xs → DistinctBy ys
  DistinctBy-perm Permᴰ.nil h = tt
  DistinctBy-perm (Permᴰ.cons {l₁ = l} e p) (h, hs) =
      (All-perm _ p (subst (λ (x : A). All (λ y. key x ≢ key y) l) e h), DistinctBy-perm p hs)
  DistinctBy-perm (Permᴰ.swap {a = a} {b = b} {l = l} e f) ((h, hs), (ks, rest)) = (
    (
      (λ q. h (ap key e ∙ sym q ∙ sym (ap key f))),
      subst (λ (x : A). All (λ y. key x ≢ key y) l) f ks,
    ),
    (subst (λ (x : A). All (λ y. key x ≢ key y) l) e hs, rest),
  )
  DistinctBy-perm (Permᴰ.trans p q) h = DistinctBy-perm q (DistinctBy-perm p h)

  module _ ⦃e : Eq K⦄ where
    unfoldable pub first_repeat : List K → List A → Option K
    first_repeat seen [] = none
    first_repeat seen (x ∷ xs) =
        let rest = first_repeat (key x ∷ seen) xs in
        if contains seen (key x) then some (key x) else rest

    -- The items whose keys are not among those seen.
    abbrev Fresh : List K → List A → Type (ℓ ⊔ κ)
    Fresh seen [] = Unit
    Fresh seen (x ∷ xs) = (contains seen (key x) ≡ false) × Fresh seen xs

    Fresh-split :
        (x : A) (seen : List K) (xs : List A)
        → Fresh (key x ∷ seen) xs
        → Fresh seen xs × All (λ y. key x ≢ key y) xs
    Fresh-split x seen [] h = (tt, tt)
    Fresh-split x seen (y ∷ xs) (h, hs) =
        let (fresh, differ) = Fresh-split x seen xs hs in
        ((ground arith, fresh), ((λ q. ground arith), differ))

    Fresh-join :
        (x : A) (seen : List K) (xs : List A)
        → Fresh seen xs
        → All (λ y. key x ≢ key y) xs
        → Fresh (key x ∷ seen) xs
    Fresh-join x seen [] h k = tt
    Fresh-join x seen (y ∷ xs) (h, hs) (k, ks) = (ground arith, Fresh-join x seen xs hs ks)

    first_repeat-none :
        (seen : List K) (xs : List A) → first_repeat seen xs ≡ none → Fresh seen xs × DistinctBy xs
    unfolding first_repeat
    first_repeat-none seen [] h = (tt, tt)
    first_repeat-none seen (x ∷ xs) h =
        let (fresh, distinct) = first_repeat-none (key x ∷ seen) xs (ground arith) in
        let (rest, differ) = Fresh-split x seen xs fresh in
        ((ground arith, rest), (differ, distinct))

    first_repeat-DistinctBy :
        (seen : List K) (xs : List A) → Fresh seen xs → DistinctBy xs → first_repeat seen xs ≡ none
    unfolding first_repeat
    first_repeat-DistinctBy seen [] h d = refl
    first_repeat-DistinctBy seen (x ∷ xs) (h, hs) (k, ks) =
        let rest = first_repeat-DistinctBy (key x ∷ seen) xs (Fresh-join x seen xs hs k) ks in
        rw h rest

    Fresh-nil : (xs : List A) → Fresh [] xs
    Fresh-nil [] = tt
    Fresh-nil (x ∷ xs) = (refl, Fresh-nil xs)

    -- The scan finds nothing exactly when the keys are distinct.
    pub first_repeat-eq-none : (xs : List A) → (first_repeat [] xs ≡ none) ↔ DistinctBy xs
    first_repeat-eq-none xs =
        (λ h. (first_repeat-none [] xs h).1, λ d. first_repeat-DistinctBy [] xs (Fresh-nil xs) d)

-- Keys taken through a function.
module _ {ℓ} {A : Type ℓ} {B : Type ℓ} (g : A → B) where
  pub All-map {κ} : (P : B → Type κ) (xs : List A) → All P (map g xs) → All (λ x. P (g x)) xs
  All-map P [] h = tt
  All-map P (x ∷ xs) (h, hs) = (h, All-map P xs hs)

  pub DistinctBy-map {κ} :
      {K : Type κ} (key : B → K) (xs : List A)
      → DistinctBy key (map g xs)
      → DistinctBy (λ x. key (g x)) xs
  DistinctBy-map key [] h = tt
  DistinctBy-map key (x ∷ xs) (h, hs) = (All-map _ xs h, DistinctBy-map key xs hs)

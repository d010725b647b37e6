-- ===== src/Prelude/Sort/Ordinal.antt =====
-- Sorting by a number: the result is sorted, holds the same items, and does not depend on the order
-- of the input where the keys are distinct.
use mathlib.Core.List.{Permᴰ}
use mathlib.Core.List.Permᴰ
use Prim.Native.Nat.{ℕ, ◌<◌}
use mathlib.Core.Path.{◌≡◌, refl, ◌∙◌}
use mathlib.Core.Logic.{◌≢◌, inl, inr}
use mathlib.Core.Bool.{Bool, true, false}
use mathlib.Core.List.{List, [], ◌∷◌}
use native.Mathlib.Omega.{arith}
use qlabs_catalog_sync.Prelude.Numbers.{ltb}
use qlabs_catalog_sync.Prelude.Lists.{All}
use qlabs_catalog_sync.Prelude.Distinct.{DistinctBy, DistinctBy-perm, All-perm}
use qlabs_catalog_sync.Prelude.Sort.{insert, sort, sort_by}
use qlabs_catalog_sync.Prelude.Equality.{if◌then◌else◌, Bool-cases}

module _ {ℓ} {A : Type ℓ} (key : A → ℕ) where
  abbrev before : A → A → Bool
  before a b = ltb (key a) (key b)

  insert_comm :
      (x y : A) (s : List A)
      → key x ≢ key y
      → insert before x (insert before y s) ≡ insert before y (insert before x s)
  unfolding insert
  insert_comm x y [] h = ground arith
  insert_comm x y (z ∷ s) h = ground (arith, insert_comm x y s h)

  pub sort_by-perm :
      {xs ys : List A} → Permᴰ xs ys → DistinctBy key xs → sort_by key xs ≡ sort_by key ys
  unfolding sort
  sort_by-perm Permᴰ.nil d = refl
  sort_by-perm (Permᴰ.cons e p) (_, d) = rw (e, sort_by-perm p d)
  sort_by-perm (Permᴰ.swap {a = a} {b = b} {l = l} e f) ((h, _), _) =
      rw (← e, ← f) (insert_comm a b (sort_by key l) h)
  sort_by-perm (Permᴰ.trans p q) d = sort_by-perm p d ∙ sort_by-perm q (DistinctBy-perm key p d)

  insert-perm : (x : A) (s : List A) → Permᴰ (x ∷ s) (insert before x s)
  unfolding insert
  insert-perm x [] = Permᴰ.refl _
  insert-perm x (y ∷ s) = place (before y x) (insert-perm x s)
    where
      place :
          (b : Bool)
          → Permᴰ (x ∷ s) (insert before x s)
          → Permᴰ (x ∷ y ∷ s) (if b then y ∷ insert before x s else x ∷ y ∷ s)
      place true p = Permᴰ.trans (Permᴰ.swap refl refl) (Permᴰ.cons refl p)
      place false p = Permᴰ.refl _

  pub sort_by_perm : (xs : List A) → Permᴰ xs (sort_by key xs)
  unfolding sort
  sort_by_perm [] = Permᴰ.nil
  sort_by_perm (x ∷ xs) =
      Permᴰ.trans (Permᴰ.cons refl (sort_by_perm xs)) (insert-perm x (sort_by key xs))

  -- Every key is below all later ones.
  abbrev pub IsAscending : List A → Type ℓ
  IsAscending [] = Unit
  IsAscending (x ∷ xs) = All (λ y. key x < key y) xs × IsAscending xs

  above-All :
      (x y : A) (s : List A)
      → key x < key y
      → All (λ z. key y < key z) s
      → All (λ z. key x < key z) s
  above-All x y [] h k = tt
  above-All x y (z ∷ s) h (k, ks) = (omega arith, above-All x y s h ks)

  insert-IsAscending :
      (x : A) (s : List A)
      → All (λ y. key x ≢ key y) s
      → IsAscending s
      → IsAscending (insert before x s)
  unfolding insert
  insert-IsAscending x [] d h = (tt, tt)
  insert-IsAscending x (y ∷ s) (d, ds) (h, hs) = elim (Bool-cases (before y x)) [
    | inl below ↦ rw below (
      All-perm (λ z. key y < key z) (insert-perm x s) ((ground arith), h),
      insert-IsAscending x s ds hs,
    )
    | inr not_below ↦
        rw not_below (let lt : key x < key y = ground arith in (lt, above-All x y s lt h), (h, hs))
  ]

  -- Distinct keys come out strictly ascending.
  pub sort_by-IsAscending : (xs : List A) → DistinctBy key xs → IsAscending (sort_by key xs)
  unfolding sort
  sort_by-IsAscending [] d = tt
  sort_by-IsAscending (x ∷ xs) (d, ds) =
      insert-IsAscending x (sort_by key xs) (All-perm (λ y. key x ≢ key y) (sort_by_perm xs) d)
        (sort_by-IsAscending xs ds)

  insert-below : (x : A) (s : List A) → All (λ y. key x < key y) s → insert before x s ≡ x ∷ s
  unfolding insert
  insert-below x [] h = refl
  insert-below x (y ∷ s) (h, hs) = ground arith

  pub sort_by_ascending : (xs : List A) → IsAscending xs → sort_by key xs ≡ xs
  unfolding sort
  sort_by_ascending [] h = refl
  sort_by_ascending (x ∷ xs) (h, hs) = rw (sort_by_ascending xs hs) (insert-below x xs h)

  differ_of_above : (x : A) (s : List A) → All (λ y. key x < key y) s → All (λ y. key x ≢ key y) s
  differ_of_above x [] h = tt
  differ_of_above x (y ∷ s) (h, hs) = (omega arith, differ_of_above x s hs)

  pub IsAscending-DistinctBy : (xs : List A) → IsAscending xs → DistinctBy key xs
  IsAscending-DistinctBy [] h = tt
  IsAscending-DistinctBy (x ∷ xs) (h, hs) = (differ_of_above x xs h, IsAscending-DistinctBy xs hs)

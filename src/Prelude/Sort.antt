-- ===== src/Prelude/Sort.antt =====
-- `sorted(items, key=...)`: a stable sort. The order of the keys is given as a test.
pub mod Ordinal
use mathlib.Core.Bool.{Bool}
use mathlib.Core.List.{List, [], ◌∷◌}
use Prim.Native.Nat.{ℕ}
use qlabs_catalog_sync.Prelude.Numbers.{ltb}
use qlabs_catalog_sync.Prelude.Equality.{if◌then◌else◌}

module _ {ℓ} {A : Type ℓ} (lt : A → A → Bool) where
  unfoldable pub insert : A → List A → List A
  insert x [] = x ∷ []
  insert x (y ∷ ys) = let rest = insert x ys in if lt y x then y ∷ rest else x ∷ y ∷ ys

  unfoldable pub sort : List A → List A
  unfolding insert
  sort [] = []
  sort (x ∷ xs) = insert x (sort xs)

abbrev pub sort_by {ℓ} : {A : Type ℓ} → (A → ℕ) → List A → List A
sort_by key = sort (λ a b. ltb (key a) (key b))

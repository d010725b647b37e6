-- ===== src/Prelude/Dict/Quantify.antt =====
-- Tests over all the entries of a dict, by what its lookups answer.
use mathlib.Core.Path.{◌≡◌, refl}
use mathlib.Core.Logic.{◌≢◌}
use mathlib.Core.Bool.{Bool, false}
use mathlib.Core.Option.{none, some}
use mathlib.Core.List.{[], ◌∷◌}
use native.Mathlib.Omega.{arith}
use qlabs_catalog_sync.Prelude.Equality.{Eq}
use qlabs_catalog_sync.Prelude.Lists.{any}
use qlabs_catalog_sync.Prelude.Dict.{Dict, lookup, NodupKeys}

module _ {ℓ κ} {K : Type ℓ} {V : Type κ} ⦃e : Eq K⦄ where
  pub any-lookup :
      (f : K × V → Bool) (d : Dict K V) (k : K) (v : V)
      → any f d ≡ false
      → lookup k d ≡ some v
      → f (k, v) ≡ false
  unfolding lookup
  any-lookup f [] k v h found = absurd (cc (found))
  any-lookup f ((j, w) ∷ d) k v h found = ground (arith, any-lookup f d k v)

  pub lookup-any :
      (f : K × V → Bool) (d : Dict K V)
      → NodupKeys d
      → ((k : K) (v : V) → lookup k d ≡ some v → f (k, v) ≡ false)
      → any f d ≡ false
  unfolding lookup
  lookup-any f [] u h = refl
  lookup-any f ((j, w) ∷ d) (fresh, u) h =
      let rest = lookup-any f d u (λ k v found. h k v (ground arith)) in
      let here = h j w (ground arith) in ground arith

  pub any-keys :
      (f : K → Bool) (d : Dict K V) (k : K)
      → any (λ (j, _). f j) d ≡ false
      → lookup k d ≢ none
      → f k ≡ false
  unfolding lookup
  any-keys f [] k h found = absurd (found refl)
  any-keys f ((j, w) ∷ d) k h found = ground (arith, any-keys f d k)

  pub keys-any :
      (f : K → Bool) (d : Dict K V)
      → ((k : K) → lookup k d ≢ none → f k ≡ false)
      → any (λ (j, _). f j) d ≡ false
  unfolding lookup
  keys-any f [] h = refl
  keys-any f ((j, w) ∷ d) h =
      let rest = keys-any f d (λ k found. h k (ground arith)) in
      let here = h j (ground arith) in ground arith

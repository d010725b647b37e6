-- ===== src/Prelude/Text/Join.antt =====
-- The parts of a `split`, joined again, and texts with a character that is no space.
use Prim.Native.Char.{Char, code}
use Prim.Native.String.{String, ◌++◌}
use Prim.Native.String.append
use Prim.Native.Nat.{ℕ}
use mathlib.Core.Path.{◌≡◌, refl}
use mathlib.Core.Bool.{Bool, true, false}
use mathlib.Core.Logic.{inl, inr}
use mathlib.Core.List.{List, [], ◌∷◌}
use native.Mathlib.Omega.{arith}
use qlabs_catalog_sync.Prelude.Numbers.{eqb}
use qlabs_catalog_sync.Prelude.Equality.{Bool-cases}
use qlabs_catalog_sync.Prelude.Text.Split.{length-onto_head, length-split_pos, split-one}
use qlabs_catalog_sync.Prelude.Text.{split, strip, lstrip, rstrip, is_space, is_blank, is_empty}

module _ (sep : ℕ) where
  -- The first part of a text has no separator.
  pub split-first :
      (s a : String) (rest : List String) → split sep s ≡ a ∷ rest → split sep a ≡ a ∷ []
  unfolding split
  split-first String.[] a rest h = cc
  split-first (String.◌∷◌ c s) a rest h =
      go (λ p ps e. split-first s p ps e) (eqb (code c) sep) refl (split sep s) refl
    where
      go :
          ((p : String) (ps : List String) → split sep s ≡ p ∷ ps → split sep p ≡ p ∷ [])
          → (b : Bool) → eqb (code c) sep ≡ b
          → (parts : List String) → split sep s ≡ parts
          → split sep a ≡ a ∷ []
      go hyp true is_sep parts e =
          let same = (rw is_sep at h) in let at_a : a ≡ String.[] = cc (same) in rw at_a refl
      go hyp false off [] e = absurd (omega (arith, rw e at (length-split_pos sep s)))
      go hyp false off (p ∷ ps) e =
          let ih = hyp p ps e in
          let same = (rw (off, e) at h) in
          let at_a : a ≡ String.◌∷◌ c p = cc (same) in rw (at_a, off, ih) refl

  pub split-rest :
      (s a b : String) (rest : List String)
      → split sep s ≡ a ∷ b ∷ rest
      → (t : String) × (split sep t ≡ b ∷ rest)
  unfolding split
  split-rest String.[] a b rest h = absurd (cc)
  split-rest (String.◌∷◌ c s) a b rest h =
      go (λ p e. split-rest s p b rest e) (eqb (code c) sep) refl (split sep s) refl
    where
      go :
          ((p : String) → split sep s ≡ p ∷ b ∷ rest → (t : String) × (split sep t ≡ b ∷ rest))
          → (d : Bool) → eqb (code c) sep ≡ d
          → (parts : List String) → split sep s ≡ parts
          → (t : String) × (split sep t ≡ b ∷ rest)
      go hyp true is_sep parts e = (s, (let same = (rw is_sep at h) in cc (same)))
      go hyp false off [] e = absurd (omega (arith, rw e at (length-split_pos sep s)))
      go hyp false off (p ∷ ps) e = let same = (rw (off, e) at h) in hyp p (cc (same, e))

  split-alone :
      (c : Char) (a : String)
      → split sep (String.◌∷◌ c a) ≡ String.◌∷◌ c a ∷ []
      → (eqb (code c) sep ≡ false) × (split sep a ≡ a ∷ [])
  unfolding split
  split-alone c a h =
      ground (arith, length-onto_head c (split sep a), length-split_pos sep a, split-one sep a)

  pub split-join :
      (a t : String) (d : Char)
      → split sep a ≡ a ∷ []
      → eqb (code d) sep ≡ true
      → split sep (a ++ String.◌∷◌ d t) ≡ a ∷ split sep t
  unfolding split
  split-join String.[] t d h is_sep = rw (append.nil, is_sep) refl
  split-join (String.◌∷◌ c a) t d h is_sep =
      let (off, alone) = split-alone c a h in
      rw (append.cons, off, split-join a t d alone is_sep) refl

-- A text with a character that is no space is not blank.

lstrip-append :
    (s t : String) (d : Char)
    → is_space (code d) ≡ false
    → (r : String) × (lstrip (s ++ String.◌∷◌ d t) ≡ r ++ String.◌∷◌ d t)
unfolding lstrip
lstrip-append String.[] t d h = (String.[], rw (append.nil, h) refl)
lstrip-append (String.◌∷◌ c s) t d h = elim (Bool-cases (is_space (code c))) [
  | inl on ↦ let (r, e) = lstrip-append s t d h in (r, rw (append.cons, on, e) refl)
  | inr off ↦ (String.◌∷◌ c s, rw (append.cons, off) refl)
]

rstrip-append :
    (s t : String) (d : Char)
    → is_space (code d) ≡ false
    → is_empty (rstrip (s ++ String.◌∷◌ d t)) ≡ false
unfolding rstrip
rstrip-append String.[] t d h = rw (append.nil, h) refl
rstrip-append (String.◌∷◌ c s) t d h = rw (append.cons, rstrip-append s t d h) (ground arith)

pub is_blank-append :
    (s t : String) (d : Char) → is_space (code d) ≡ false → is_blank (s ++ String.◌∷◌ d t) ≡ false
unfolding strip
is_blank-append s t d h = let (r, e) = lstrip-append s t d h in rw e (rstrip-append r t d h)

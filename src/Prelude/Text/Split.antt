-- ===== src/Prelude/Text/Split.antt =====
-- `split`, `count` and `partition` describe the same separators.
use Prim.Native.Char.{Char}
use Prim.Native.String.{String}
use Prim.Native.Nat.{ℕ, ◌<◌}
use mathlib.Core.Path.{◌≡◌, refl}
use mathlib.Core.List.{List, [], ◌∷◌}
use native.Mathlib.Omega.{arith}
use qlabs_catalog_sync.Prelude.Lists.{length}
use qlabs_catalog_sync.Prelude.Text.{split, before, after, onto_head}

-- A part that begins the list also begins what `onto_head` gives.
pub length-onto_head :
    (c : Char) (parts : List String) → 0 < length parts → length (onto_head c parts) ≡ length parts
length-onto_head c [] h = elim h [ ]
length-onto_head c (s ∷ parts) h = refl

module _ (sep : ℕ) where
  pub length-split_pos : (s : String) → 0 < length (split sep s)
  unfolding split
  length-split_pos String.[] = omega arith
  length-split_pos (String.◌∷◌ c s) =
      ground (arith, length-onto_head c (split sep s), length-split_pos s)

  -- A text with no separator is its only part.
  pub split-one : (s : String) → length (split sep s) ≡ 1 → split sep s ≡ s ∷ []
  unfolding split
  split-one String.[] h = refl
  split-one (String.◌∷◌ c s) h =
      ground (arith, length-onto_head c (split sep s), length-split_pos s, split-one s)

  -- A text with one separator splits into what stands before it and what stands after it.
  pub split-two :
      (s : String) → length (split sep s) ≡ 2 → split sep s ≡ before sep s ∷ after sep s ∷ []
  unfolding split before after
  split-two String.[] h = absurd (omega arith)
  split-two (String.◌∷◌ c s) h =
      ground (arith, length-onto_head c (split sep s), length-split_pos s, split-one s, split-two s)

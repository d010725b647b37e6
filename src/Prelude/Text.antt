-- ===== src/Prelude/Text.antt =====
-- Python's `str` methods that the engine uses, over the native `String`.
pub mod Split
pub mod Join
use Prim.Native.Nat.{ℕ, suc}
use Prim.Native.Char.{Char, code}
use Prim.Native.String.{String}
use mathlib.Core.Bool.{Bool, true, false, ◌&&◌, ◌||◌}
use mathlib.Core.List.{List, [], ◌∷◌}
use qlabs_catalog_sync.Prelude.Numbers.{ltb, leb, eqb}
use qlabs_catalog_sync.Prelude.Equality.{if◌then◌else◌}

abbrev pub is_empty : String → Bool
is_empty String.[] = true
is_empty (String.◌∷◌ c s) = false

-- `str.isspace` of one code point.
unfoldable pub is_space : ℕ → Bool
is_space c =
    (leb 9 c && leb c 13)
    || (leb 28 c && leb c 32)
    || eqb c 133
    || eqb c 160
    || eqb c 0x1680
    || (leb 0x2000 c && leb c 0x200a)
    || eqb c 0x2028
    || eqb c 0x2029
    || eqb c 0x202f
    || eqb c 0x205f
    || eqb c 0x3000

lstrip : String → String
lstrip String.[] = String.[]
lstrip (String.◌∷◌ c s) = let rest = lstrip s in if is_space (code c) then rest else String.◌∷◌ c s

rstrip : String → String
rstrip String.[] = String.[]
rstrip (String.◌∷◌ c s) =
    let rest = rstrip s in
    if is_space (code c) && is_empty rest then String.[] else String.◌∷◌ c rest

unfoldable pub strip : String → String
unfolding lstrip rstrip is_space
strip s = rstrip (lstrip s)

-- `not s.strip()`
abbrev pub is_blank : String → Bool
is_blank s = is_empty (strip s)

abbrev onto_head : Char → List String → List String
onto_head c [] = String.◌∷◌ c String.[] ∷ []
onto_head c (s ∷ parts) = String.◌∷◌ c s ∷ parts

-- `s.split(sep)` for a separator of one code point
unfoldable pub split : ℕ → String → List String
split sep String.[] = String.[] ∷ []
split sep (String.◌∷◌ c s) =
    let parts = split sep s in if eqb (code c) sep then String.[] ∷ parts else onto_head c parts

-- `s.count(ch)`
unfoldable pub count : ℕ → String → ℕ
count ch String.[] = 0
count ch (String.◌∷◌ c s) = let n = count ch s in if eqb (code c) ch then suc n else n

-- What stands before the first separator in `s.partition(sep)`, and what stands after it.
unfoldable pub before : ℕ → String → String
before sep String.[] = String.[]
before sep (String.◌∷◌ c s) =
    let rest = before sep s in if eqb (code c) sep then String.[] else String.◌∷◌ c rest

unfoldable pub after : ℕ → String → String
after sep String.[] = String.[]
after sep (String.◌∷◌ c s) = let rest = after sep s in if eqb (code c) sep then s else rest

-- `a < b` on texts: by code points, and a prefix comes first.
unfoldable pub str_lt : String → String → Bool
str_lt String.[] String.[] = false
str_lt String.[] (String.◌∷◌ d t) = true
str_lt (String.◌∷◌ c s) String.[] = false
str_lt (String.◌∷◌ c s) (String.◌∷◌ d t) =
    let rest = str_lt s t in ltb (code c) (code d) || (eqb (code c) (code d) && rest)

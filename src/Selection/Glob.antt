-- ===== src/Selection/Glob.antt =====
-- `fnmatch.translate` and the full match of the regular expression that it gives.
-- A class `[...]` holds single characters and ranges; `[!...]` is its complement.
use Prim.Native.Char.{Char, code}
use qlabs_catalog_sync.Prelude.{
  ℕ, zero, suc, ◌+◌, Bool, true, false, not, ◌&&◌, ◌||◌, List, [], ◌∷◌, String, Option, none, some,
  if◌then◌else◌, leb, eqb, any,
}
use qlabs_catalog_sync.Prelude.Text.{is_empty}

pub data Item : Type 0 where
  range : ℕ → ℕ → Item

pub data Single : Type 0 where
  anything : Single
  literal : ℕ → Single
  in_class : Bool → List Item → Single

pub data Token : Type 0 where
  star : Token
  one : Single → Token

abbrev in_range : ℕ → Item → Bool
in_range c (range lo hi) = leb lo c && leb c hi

unfoldable pub accepts : Single → ℕ → Bool
accepts anything c = true
accepts (literal d) c = eqb d c
accepts (in_class false items) c = any (in_range c) items
accepts (in_class true items) c = not (any (in_range c) items)

-- The inside of a class: `a-z` is a range, any other character stands for itself.
class_items : String → List Item
class_items String.[] = []
class_items (String.◌∷◌ a String.[]) = range (code a) (code a) ∷ []
class_items (String.◌∷◌ a (String.◌∷◌ b String.[])) =
    range (code a) (code a) ∷ range (code b) (code b) ∷ []
class_items (String.◌∷◌ a (String.◌∷◌ b (String.◌∷◌ c s))) =
    let single = range (code a) (code a) ∷ class_items (String.◌∷◌ b (String.◌∷◌ c s)) in
    let ranged = range (code a) (code c) ∷ class_items s in
    if eqb (code b) b'-' then ranged else single

class_of : String → Single
unfolding class_items
class_of String.[] = in_class false []
class_of (String.◌∷◌ c s) =
    if eqb (code c) b'!'
    then in_class true (class_items s)
    else in_class false (class_items (String.◌∷◌ c s))

-- What stands before the next `]`.
up_to_bracket : String → Option String
up_to_bracket String.[] = none
up_to_bracket (String.◌∷◌ c s) =
    let rest = up_to_bracket s in
    if eqb (code c) b']'
    then some String.[]
    else elim rest [ none ↦ none | some inside ↦ some (String.◌∷◌ c inside) ]

abbrev prepend : Char → Option String → Option String
prepend c none = none
prepend c (some s) = some (String.◌∷◌ c s)

-- A `]` that comes first, or first after the `!`, is a member and does not close the class.
after_bang : String → Option String
unfolding up_to_bracket
after_bang String.[] = none
after_bang (String.◌∷◌ c s) =
    if eqb (code c) b']' then prepend c (up_to_bracket s) else up_to_bracket (String.◌∷◌ c s)

class_inside : String → Option String
unfolding after_bang
class_inside String.[] = none
class_inside (String.◌∷◌ c s) =
    if eqb (code c) b'!' then prepend c (after_bang s) else after_bang (String.◌∷◌ c s)

chars : String → ℕ
chars String.[] = 0
chars (String.◌∷◌ c s) = suc (chars s)

-- `fnmatch.translate`; the number is how many characters an earlier class has used up.
translate_skipping : ℕ → String → List Token
unfolding class_of class_inside chars
translate_skipping n String.[] = []
translate_skipping (suc n) (String.◌∷◌ c s) = translate_skipping n s
translate_skipping zero (String.◌∷◌ c s) =
    let plain = translate_skipping 0 s in
    let bracket : List Token = elim (class_inside s) [
      | none ↦ one (literal b'[') ∷ plain
      | some inside ↦ one (class_of inside) ∷ translate_skipping (chars inside + 1) s
    ] in
    if eqb (code c) b'*'
    then star ∷ plain
    else if eqb (code c) b'?'
    then one anything ∷ plain
    else if eqb (code c) b'['
    then bracket
    else one (literal (code c)) ∷ plain

unfoldable pub translate : String → List Token
unfolding translate_skipping
translate s = translate_skipping 0 s

-- `re.compile(fnmatch.translate(p)).match(s) is not None`
unfoldable pub glob_match : List Token → String → Bool
glob_match [] s = is_empty s
glob_match (star ∷ ts) String.[] = glob_match ts String.[]
glob_match (star ∷ ts) (String.◌∷◌ c s) =
    let here = glob_match ts (String.◌∷◌ c s) in
    let further = glob_match (star ∷ ts) s in here || further
glob_match (one t ∷ ts) String.[] = false
glob_match (one t ∷ ts) (String.◌∷◌ c s) = let rest = glob_match ts s in accepts t (code c) && rest

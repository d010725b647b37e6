-- ===== src/Selection/Pattern.antt =====
-- `validate_pattern` of selection/rules.py and its three helpers.
use Prim.Native.Char.{code}
use qlabs_catalog_sync.Prelude.{
  ℕ, ◌+◌, Bool, true, false, ◌&&◌, ◌||◌, List, [], ◌∷◌, String, if◌then◌else◌, leb, ltb, eqb,
  length, Result, ok, err,
}
use qlabs_catalog_sync.Prelude.Text.{is_empty, is_blank, split, count, before, after}
use qlabs_catalog_sync.Selection.Types.{RuleScope, object, dataset, MatcherKind, glob, tag, owner}

-- What each `ValueError` complains of.
pub data PatternError : Type 0 where
  segment_count : PatternError
  empty_segment : ℕ → PatternError
  invalid_segment : String → PatternError
  blank_tag more_than_one_equals empty_tag_key empty_tag_value blank_owner : PatternError

abbrev pub segments_by_scope : RuleScope → ℕ
segments_by_scope object = 2
segments_by_scope dataset = 3

-- `[A-Za-z0-9_*?\[\]!]`
unfoldable pub is_segment_char : ℕ → Bool
is_segment_char c =
    (leb b'A' c && leb c b'Z')
    || (leb b'a' c && leb c b'z')
    || (leb b'0' c && leb c b'9')
    || eqb c b'_'
    || eqb c b'*'
    || eqb c b'?'
    || eqb c b'['
    || eqb c b']'
    || eqb c b'!'

-- `+$`: the dollar also matches before a newline that ends the text.
segment_tail : String → Bool
segment_tail String.[] = true
segment_tail (String.◌∷◌ c s) =
    let rest = segment_tail s in
    (is_segment_char (code c) && rest) || (eqb (code c) 10 && is_empty s)

unfoldable pub segment_pattern : String → Bool
unfolding segment_tail is_segment_char
segment_pattern String.[] = false
segment_pattern (String.◌∷◌ c s) = is_segment_char (code c) && segment_tail s

check_segments : ℕ → List String → Result PatternError Unit
unfolding segment_pattern
check_segments index [] = ok tt
check_segments index (segment ∷ rest) =
    let more = check_segments (index + 1) rest in
    if is_empty segment
    then err (empty_segment (index + 1))
    else if segment_pattern segment
    then more
    else err (invalid_segment segment)

unfoldable pub validate_glob : String → RuleScope → Result PatternError Unit
unfolding check_segments
validate_glob pattern scope =
    let segments = split b'.' pattern in
    if eqb (length segments) (segments_by_scope scope)
    then check_segments 0 segments
    else err segment_count

unfoldable pub validate_tag : String → Result PatternError Unit
validate_tag pattern =
    if is_blank pattern
    then err blank_tag
    else if ltb 1 (count b'=' pattern)
    then err more_than_one_equals
    else if is_empty (before b'=' pattern)
    then err empty_tag_key
    else if ltb 0 (count b'=' pattern) && is_empty (after b'=' pattern)
    then err empty_tag_value
    else ok tt

unfoldable pub validate_owner : String → Result PatternError Unit
validate_owner pattern = if is_blank pattern then err blank_owner else ok tt

unfoldable pub validate_pattern : String → MatcherKind → RuleScope → Result PatternError Unit
unfolding validate_glob validate_tag validate_owner
validate_pattern pattern glob scope = validate_glob pattern scope
validate_pattern pattern tag scope = validate_tag pattern
validate_pattern pattern owner scope = validate_owner pattern

-- ===== src/Selection/Candidate.antt =====
-- `SelectionCandidate` of selection/rules.py, `normalize_email` of party.py.
-- `str.casefold` is a parameter: its table is Unicode's.
use qlabs_catalog_sync.Prelude.{
  ◌&&◌, not, Bool, List, [], ◌∷◌, String, Option, none, some, if◌then◌else◌, ◌==◌, string_eq, eqb,
  length, all, Result, ok, err,
}
use qlabs_catalog_sync.Prelude.Text.{is_empty, is_blank, split, strip}
use qlabs_catalog_sync.Selection.Types.{
  RuleScope, Fact, Tag, Party, PartyRole, owner, steward, contact, other,
}
use qlabs_catalog_sync.Selection.Pattern.{segments_by_scope}

pub record SelectionCandidate : Type 0 where
  pub scope : RuleScope
  pub object_id : String
  pub qualified_name : Fact String
  pub tags : Fact (List Tag)
  pub owners : Fact (List Party)
  pub display_name : Option String

pub data CandidateError : Type 0 where
  blank_object_id : CandidateError
  misshapen_name : String → CandidateError

-- `_is_shaped` of source_tree.py, and the same test in `_parse_name`.
unfoldable pub is_shaped : String → RuleScope → Bool
is_shaped name scope =
    let parts = split b'.' name in
    eqb (length parts) (segments_by_scope scope) && all (λ part. not (is_empty part)) parts

abbrev pub name_error : SelectionCandidate → Fact String → Result CandidateError SelectionCandidate
name_error c none = ok c
name_error c (some name) = if is_shaped name c.scope then ok c else err (misshapen_name name)

-- The constructor with its `__post_init__`.
unfoldable pub make_candidate : SelectionCandidate → Result CandidateError SelectionCandidate
make_candidate c =
    if is_blank c.object_id then err blank_object_id else name_error c c.qualified_name

abbrev map_fact : {A B : Type 0} → (A → B) → Fact A → Fact B
map_fact f none = none
map_fact f (some a) = some (f a)

-- `_parse_name` computes this once, at construction.
unfoldable pub name_segments : SelectionCandidate → Option (List String)
name_segments c = map_fact (split b'.') c.qualified_name

keys_of : List Tag → List String
keys_of [] = []
keys_of (t ∷ ts) = t.key ∷ keys_of ts

abbrev with_pair : String → Option String → List (String × String) → List (String × String)
with_pair key none pairs = pairs
with_pair key (some value) pairs = (key, value) ∷ pairs

pairs_of : List Tag → List (String × String)
pairs_of [] = []
pairs_of (t ∷ ts) = with_pair t.key t.value (pairs_of ts)

unfoldable pub tag_keys : SelectionCandidate → Option (List String)
unfolding keys_of
tag_keys c = map_fact keys_of c.tags

unfoldable pub tag_pairs : SelectionCandidate → Option (List (String × String))
unfolding pairs_of
tag_pairs c = map_fact pairs_of c.tags

-- The object id first: the stable identity outranks the name.
unfoldable pub override_keys : SelectionCandidate → List String
override_keys c = elim c.qualified_name [
  | none ↦ c.object_id ∷ []
  | some name ↦ if name == c.object_id then c.object_id ∷ [] else c.object_id ∷ name ∷ []
]

module _ (casefold : String → String) where
  unfoldable pub normalize_email : Option String → Option String
  normalize_email none = none
  normalize_email (some email) =
      let normalized = casefold (strip email) in
      if is_empty normalized then none else some normalized

  abbrev with_email : PartyRole → Option String → List String → List String
  with_email owner (some email) emails = email ∷ emails
  with_email owner none emails = emails
  with_email steward _ emails = emails
  with_email contact _ emails = emails
  with_email other _ emails = emails

  emails_of : List Party → List String
  unfolding normalize_email
  emails_of [] = []
  emails_of (p ∷ ps) = with_email p.role (normalize_email p.email) (emails_of ps)

  unfoldable pub owner_emails : SelectionCandidate → Option (List String)
  unfolding emails_of
  owner_emails c = map_fact emails_of c.owners

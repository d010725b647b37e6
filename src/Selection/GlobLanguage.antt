-- ===== src/Selection/GlobLanguage.antt =====
-- What a compiled glob accepts, described without the matcher.
use Prim.Native.Char.{Char, code}
use Prim.Native.String.append
use qlabs_catalog_sync.Prelude.{
  ◌≡◌, refl, ◌⊎◌, inl, inr, ◌↔◌, Bool, true, false, ◌||◌, ◌&&◌, List, [], ◌∷◌, String, ◌<>◌, arith,
  sym, subst, Option, none, some, length,
}
use qlabs_catalog_sync.Prelude.Text.{is_empty}
use qlabs_catalog_sync.Selection.Types.{match, unavailable}
use qlabs_catalog_sync.Selection.Candidate.{SelectionCandidate, name_segments}
use qlabs_catalog_sync.Selection.Matcher.{
  glob_matcher, match_segments, evaluate_glob, evaluate_matcher,
}
use qlabs_catalog_sync.Selection.Glob.{Token, star, one, accepts, glob_match}

-- The texts of a token list: `*` stands for any text, every other token for one character.
abbrev pub InLanguage : List Token → String → Type 0
InLanguage [] s = s ≡ String.[]
InLanguage (star ∷ ts) s = (p q : String) × (s ≡ p <> q) × InLanguage ts q
InLanguage (one t ∷ ts) s =
    (c : Char) × (q : String) × (s ≡ String.◌∷◌ c q) × (accepts t (code c) ≡ true) × InLanguage ts q

is_empty-eq : (s : String) → is_empty s ≡ true → s ≡ String.[]
is_empty-eq String.[] h = refl
is_empty-eq (String.◌∷◌ c s) h = cc

or-cases : (a b : Bool) → (a || b) ≡ true → (a ≡ true) ⊎ (b ≡ true)
or-cases a b h = ground arith

and-cases : (a b : Bool) → (a && b) ≡ true → (a ≡ true) × (b ≡ true)
and-cases a b h = ground arith

grow :
    (c : Char) (ts : List Token) (s : String)
    → InLanguage (star ∷ ts) s
    → InLanguage (star ∷ ts) (String.◌∷◌ c s)
grow c ts s (p, q, split, rest) = (String.◌∷◌ c p, q, rw (append.cons, split), rest)

glob_match_sound : (ts : List Token) (s : String) → glob_match ts s ≡ true → InLanguage ts s
unfolding glob_match
glob_match_sound [] s h = is_empty-eq s h
glob_match_sound (star ∷ ts) String.[] h =
    (String.[], String.[], sym (append.nil String.[]), glob_match_sound ts String.[] h)
glob_match_sound (star ∷ ts) (String.◌∷◌ c s) h =
    elim (or-cases (glob_match ts (String.◌∷◌ c s)) (glob_match (star ∷ ts) s) h) [
      | inl here ↦ (
        String.[],
        String.◌∷◌ c s,
        sym (append.nil (String.◌∷◌ c s)),
        glob_match_sound ts (String.◌∷◌ c s) here,
      )
      | inr further ↦ grow c ts s (glob_match_sound (star ∷ ts) s further)
    ]
glob_match_sound (one t ∷ ts) String.[] h = cc
glob_match_sound (one t ∷ ts) (String.◌∷◌ c s) h =
    let (fits, rest) = and-cases (accepts t (code c)) (glob_match ts s) h in
    (c, s, refl, fits, glob_match_sound ts s rest)

or-right : (a : Bool) → (a || true) ≡ true
or-right true = refl
or-right false = refl

star-suffix :
    (ts : List Token) (p q : String)
    → glob_match ts q ≡ true
    → glob_match (star ∷ ts) (p <> q) ≡ true
unfolding glob_match
star-suffix ts String.[] String.[] h = h
star-suffix ts String.[] (String.◌∷◌ c q) h = rw (append.nil, h)
star-suffix ts (String.◌∷◌ c p) q h = rw (append.cons, star-suffix ts p q h) (or-right _)

glob_match_complete : (ts : List Token) (s : String) → InLanguage ts s → glob_match ts s ≡ true
unfolding glob_match
glob_match_complete [] s h = rw h
glob_match_complete (star ∷ ts) s (p, q, split, rest) =
    rw split (star-suffix ts p q (glob_match_complete ts q rest))
glob_match_complete (one t ∷ ts) s (c, q, split, fits, rest) =
    rw (split, fits, glob_match_complete ts q rest)

glob_match-InLanguage : (ts : List Token) (s : String) → (glob_match ts s ≡ true) ↔ InLanguage ts s
glob_match-InLanguage ts s = (glob_match_sound ts s, glob_match_complete ts s)

-- As many names as patterns, each in the language of its pattern.
abbrev pub AllIn : List (List Token) → List String → Type 0
AllIn [] [] = Unit {0}
AllIn [] (name ∷ names) = ⊥
AllIn (pattern ∷ patterns) [] = ⊥
AllIn (pattern ∷ patterns) (name ∷ names) = InLanguage pattern name × AllIn patterns names

match_segments_sound :
    (patterns : List (List Token)) (names : List String)
    → length names ≡ length patterns
    → match_segments patterns names ≡ true
    → AllIn patterns names
unfolding match_segments
match_segments_sound [] [] same h = tt
match_segments_sound [] (name ∷ names) same h = absurd (omega (arith, same))
match_segments_sound (pattern ∷ patterns) [] same h = absurd (omega (arith, same))
match_segments_sound (pattern ∷ patterns) (name ∷ names) same h =
    let (here, rest) = and-cases (glob_match pattern name) (match_segments patterns names) h in
    (
      glob_match_sound pattern name here,
      match_segments_sound patterns names (omega (arith, same)) rest,
    )

match_segments_complete :
    (patterns : List (List Token)) (names : List String)
    → AllIn patterns names
    → (length names ≡ length patterns) × (match_segments patterns names ≡ true)
unfolding match_segments
match_segments_complete [] [] h = (refl, refl)
match_segments_complete [] (name ∷ names) h = absurd h
match_segments_complete (pattern ∷ patterns) [] h = absurd h
match_segments_complete (pattern ∷ patterns) (name ∷ names) (here, rest) =
    let (same, later) = match_segments_complete patterns names rest in
    (omega (arith, same), rw (glob_match_complete pattern name here, later))

evaluate_glob_sound :
    (patterns : List (List Token)) (names : List String)
    → evaluate_glob patterns (some names) ≡ match
    → AllIn patterns names
unfolding evaluate_glob
evaluate_glob_sound patterns names h =
    match_segments_sound patterns names (ground (arith, h)) (ground (arith, h))

evaluate_glob_complete :
    (patterns : List (List Token)) (names : List String)
    → AllIn patterns names
    → evaluate_glob patterns (some names) ≡ match
unfolding evaluate_glob
evaluate_glob_complete patterns names h =
    let (same, all) = match_segments_complete patterns names h in ground (arith, same, all)

evaluate_glob-known :
    (patterns : List (List Token)) (names : List String)
    → evaluate_glob patterns (some names) ≡ unavailable
    → ⊥
unfolding evaluate_glob
evaluate_glob-known patterns names h = ground (arith, h)

-- A glob matcher's outcome for a candidate: it is unavailable exactly when the candidate has no
-- qualified name; and a match exactly when its name has as many segments as the pattern and each is
-- in the language of the pattern's segment there. So it is no match in every other case.
pub evaluate_matcher-InLanguage :
    (casefold : String → String) (patterns : List (List Token)) (c : SelectionCandidate)
    → (evaluate_matcher casefold (glob_matcher patterns) c ≡ unavailable ↔ name_segments c ≡ none)
      × (evaluate_matcher casefold (glob_matcher patterns) c ≡ match
          ↔ (names : List String) × (name_segments c ≡ some names) × AllIn patterns names)
unfolding evaluate_matcher evaluate_glob
evaluate_matcher-InLanguage casefold patterns c = go (name_segments c)
  where
    go :
        (o : Option (List String))
        → (evaluate_glob patterns o ≡ unavailable ↔ o ≡ none)
          × (evaluate_glob patterns o ≡ match
              ↔ (names : List String) × (o ≡ some names) × AllIn patterns names)
    go none =
        ((λ _. refl, λ _. refl), (λ h. absurd (cc (h)), λ (names, known, _). absurd (cc (known))))
    go (some names) = (
      (λ h. absurd (evaluate_glob-known patterns names h), λ known. absurd (cc (known))),
      (
        λ h. (names, refl, evaluate_glob_sound patterns names h),
        λ (others, same, all).
            subst (λ o. evaluate_glob patterns o ≡ match) (sym same)
              (evaluate_glob_complete patterns others all),
      ),
    )

-- ===== src/PairPatterns.antt =====
-- config.py: the flat list of `catalog.schema` patterns of a sync pair, which the selection rules
-- replace.
use qlabs_catalog_sync.Prelude.{Bool, ◌&&◌, List, String, any}
use qlabs_catalog_sync.Prelude.Text.{before, after}
use qlabs_catalog_sync.Selection.Glob.{translate, glob_match}

-- `fnmatch.fnmatchcase(text, pattern)`
abbrev pub fnmatchcase : String → String → Bool
fnmatchcase text pattern = glob_match (translate pattern) text

unfoldable pub matches_catalog_schema : String → String → String → Bool
matches_catalog_schema pattern catalog schema =
    fnmatchcase catalog (before b'.' pattern) && fnmatchcase schema (after b'.' pattern)

-- `SyncPairConfig.matches`, of the pair's patterns.
unfoldable pub matches : List String → String → String → Bool
matches patterns catalog schema =
    any (λ pattern. matches_catalog_schema pattern catalog schema) patterns

-- ===== src/Selection.antt =====
-- selection/rules.py, selection/evaluator.py, selection/source_tree.py: which source objects a
-- sync pair selects.
pub mod Types
pub mod Glob
pub mod Pattern
pub mod Candidate
pub mod Matcher
pub mod RuleSet
pub mod Evaluate
pub mod LastMatch
pub mod GlobLanguage
pub mod Ordering
pub mod FailClosed
pub mod PatternEquivalence

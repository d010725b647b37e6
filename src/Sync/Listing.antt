-- ===== src/Sync/Listing.antt =====
-- What a cycle lists and processes, page by page.
use qlabs_catalog_sync.Prelude.{
  ℕ, zero, suc, ◌≡◌, Bool, true, false, if◌then◌else◌, List, [], ◌∷◌, ◌++◌, any, String, ok,
}
use qlabs_catalog_sync.Models.{EntityType}
use qlabs_catalog_sync.Changes.{ChangeRef, Watermark, ListChangedResult}
use qlabs_catalog_sync.Sync.Settings.{Settings, Endpoints, RecordReport}
use qlabs_catalog_sync.Sync.Cycle.{Cycle}
use qlabs_catalog_sync.Sync.Calls.{call_list_changed}
use qlabs_catalog_sync.Sync.Process.{process}

-- One page of the listing, and what its changes were reported as.
pub record PageRead : Type 0 where
  pub listing : ListChangedResult
  pub reports : List RecordReport

abbrev pub holds : List RecordReport → Bool
holds reports = any (λ r. r.holds_watermark) reports

-- The mark of the last page before the first one with a record that holds the watermark.
abbrev pub prefix_mark : Watermark → List PageRead → Watermark
prefix_mark since [] = since
prefix_mark since (page ∷ pages) =
    if holds page.reports then since else prefix_mark page.listing.next_watermark pages

abbrev pub all_reports : List PageRead → List RecordReport
all_reports [] = []
all_reports (page ∷ pages) = page.reports ++ all_reports pages

module _ (casefold : String → String) (s : Settings) (e : Endpoints) (t : EntityType) where
  -- The changes were processed one by one, with these reports, from one cycle to another.
  pub data Processed : List ChangeRef → Cycle → List RecordReport → Cycle → Type 0 where
    no_change : (c : Cycle) → Processed [] c [] c
    one_change :
        (change : ChangeRef) (changes : List ChangeRef) (r : RecordReport)
        (reports : List RecordReport) (c c1 c2 : Cycle)
        → process casefold s e change t c ≡ (ok r, c1)
        → Processed changes c1 reports c2
        → Processed (change ∷ changes) c (r ∷ reports) c2

  -- At most so many pages were listed from this watermark on, each from the mark of the one before
  -- it as long as there is more, and the changes of each were processed.
  pub data Listed : ℕ → Watermark → Cycle → List PageRead → Cycle → Type 0 where
    at_limit : (cursor : Watermark) (c : Cycle) → Listed zero cursor c [] c
    last_page :
        (n : ℕ) (cursor : Watermark) (page : PageRead) (c c1 c2 : Cycle)
        → call_list_changed s e t cursor c ≡ (ok page.listing, c1)
        → Processed page.listing.changes c1 page.reports c2
        → page.listing.has_more ≡ false
        → Listed (suc n) cursor c (page ∷ []) c2
    next_page :
        (n : ℕ) (cursor : Watermark) (page : PageRead) (pages : List PageRead) (c c1 c2 c3 : Cycle)
        → call_list_changed s e t cursor c ≡ (ok page.listing, c1)
        → Processed page.listing.changes c1 page.reports c2
        → page.listing.has_more ≡ true
        → Listed n page.listing.next_watermark c2 pages c3
        → Listed (suc n) cursor c (page ∷ pages) c3

-- ===== src/Sync/Advance.antt =====
-- How far a cycle may move the watermark.
use mathlib.Core.List.{append_assoc}
use qlabs_catalog_sync.Prelude.{
  ℕ, zero, suc, ◌+◌, ◌≤◌, ◌≡◌, refl, sym, ap, ◌∙◌, subst, not, ◌&&◌, if◌then◌else◌, List, [], ◌∷◌,
  ◌++◌, true, false, Bool-cases, inl, inr, length, String, none, some, Result, ok, err, arith,
}
use qlabs_catalog_sync.Models.{EntityType}
use qlabs_catalog_sync.Changes.{ChangeRef, ListChangedResult}
use qlabs_catalog_sync.Sync.Settings.{Settings, Endpoints, RecordReport}
use qlabs_catalog_sync.Sync.Cycle.{Cycle, Raised}
use qlabs_catalog_sync.Sync.Calls.{call_list_changed}
use qlabs_catalog_sync.Sync.Process.{process}
use qlabs_catalog_sync.Sync.Listing.{
  PageRead, holds, prefix_mark, all_reports, Processed, no_change, one_change, Listed, at_limit,
  last_page, next_page,
}
use qlabs_catalog_sync.Sync.Run.{
  Progress, Turn, note_record, noted, start_page, finish_page, turned, listed, run_page, run_pages,
}

append_nil : {A : Type 0} (xs : List A) → xs ++ [] ≡ xs
append_nil [] = refl
append_nil (x ∷ xs) = ap (λ ys. x ∷ ys) (append_nil xs)

progress-eq :
    (p q : Progress) (c c' : Cycle)
    → ◌≡◌ {A = Turn} ((none, p), c) ((none, q), c')
    → (p ≡ q) × (c ≡ c')
progress-eq p q c c' h = (ap (λ (turn : Turn). turn.0.1) h, ap (λ (turn : Turn). turn.1) h)

finish_page-kept :
    (page : ListChangedResult) (q : Progress)
    → ((finish_page page q).pages ≡ q.pages)
      × ((finish_page page q).records ≡ q.records)
      × ((finish_page page q).cursor ≡ q.cursor)
unfolding finish_page
finish_page-kept page q = ground arith

module _ (casefold : String → String) (s : Settings) (e : Endpoints) (t : EntityType) where
  -- The changes of a page were worked through, from `p` and `c` to `q` and `c'`.
  record PageDone (changes : List ChangeRef) (p q : Progress) (c c' : Cycle) : Type 0 where
    reports : List RecordReport
    processed : Processed casefold s e t changes c reports c'
    records : q.records ≡ p.records ++ reports
    terminal : q.page_terminal ≡ (p.page_terminal && not (holds reports))
    cursor : q.cursor ≡ p.cursor
    committable : q.committable ≡ p.committable
    all_terminal : q.all_terminal ≡ p.all_terminal
    pages : q.pages ≡ p.pages

  -- The loop ended at `q` and `c'`, `n` pages at most after `p` and `c`.
  pub record PagesRead (n : ℕ) (p q : Progress) (c c' : Cycle) : Type 0 where
    pub trace : List PageRead
    pub listing : Listed casefold s e t n p.cursor c trace c'
    pub bound : length trace ≤ n
    pub pages : q.pages ≡ p.pages + length trace
    pub records : q.records ≡ p.records ++ all_reports trace
    pub committable :
        q.committable ≡ (if p.all_terminal then prefix_mark p.committable trace else p.committable)

  done-cons :
      (change : ChangeRef) (changes : List ChangeRef) (p q : Progress) (r : RecordReport)
      (c c1 c' : Cycle)
      → process casefold s e change t c ≡ (ok r, c1)
      → PageDone changes (note_record r p) q c1 c'
      → PageDone (change ∷ changes) p q c c'
  done-cons change changes p q r c c1 c' h d = record {
    reports = r ∷ d.reports;
    processed = one_change change changes r d.reports c c1 c' h d.processed;
    records = d.records ∙ append_assoc p.records (r ∷ []) d.reports;
    terminal = d.terminal ∙ ground arith;
    cursor = d.cursor;
    committable = d.committable;
    all_terminal = d.all_terminal;
    pages = d.pages;
  }

  -- Where the page ended without an exception, no record of it raised one.
  noted-PageDone :
      (change : ChangeRef) (changes : List ChangeRef) (p q : Progress) (c c' : Cycle)
      (out : Result Raised RecordReport × Cycle)
      → process casefold s e change t c ≡ out
      → ((r : RecordReport) (c1 : Cycle)
          → run_page casefold s e t changes (note_record r p) c1 ≡ ((none, q), c')
          → PageDone changes (note_record r p) q c1 c')
      → noted (run_page casefold s e t changes) p out ≡ ((none, q), c')
      → PageDone (change ∷ changes) p q c c'
  noted-PageDone change changes p q c c' (err x, c1) same k h = absurd (cc (h))
  noted-PageDone change changes p q c c' (ok r, c1) same k h =
      done-cons change changes p q r c c1 c' same (k r c1 h)

  done-nil : (p : Progress) (c : Cycle) → PageDone [] p p c c
  done-nil p c = record {
    reports = [];
    processed = no_change c;
    records = sym (append_nil p.records);
    terminal = ground arith;
    cursor = refl;
    committable = refl;
    all_terminal = refl;
    pages = refl;
  }

  -- One page more at the front of a trace.
  read-cons :
      (n : ℕ) (page : ListChangedResult) (p q q' : Progress) (c c1 c2 c3 : Cycle)
      (d : PageDone page.changes (start_page page p) q c1 c2) (trace : List PageRead)
      → Listed casefold s e t
          (suc n)
          p.cursor
          c
          (record { listing = page; reports = d.reports } ∷ trace)
          c3
      → length trace ≤ n
      → q'.pages ≡ (finish_page page q).pages + length trace
      → q'.records ≡ (finish_page page q).records ++ all_reports trace
      → q'.committable ≡ (
          if (finish_page page q).all_terminal
          then prefix_mark (finish_page page q).committable trace
          else (finish_page page q).committable)
      → PagesRead (suc n) p q' c c3
  unfolding finish_page
  read-cons n page p q q' c c1 c2 c3 d trace listing bound pages records committable = record {
    trace = record { listing = page; reports = d.reports } ∷ trace;
    listing = listing;
    bound = omega (arith, bound);
    pages = omega (arith, pages, (finish_page-kept page q).0, d.pages);
    records =
        records
        ∙ ap (λ rs. rs ++ all_reports trace) ((finish_page-kept page q).1 ∙ d.records)
        ∙ append_assoc p.records d.reports (all_reports trace);
    committable = ground (arith, committable, d.committable, d.all_terminal, d.terminal);
  }

  read-more :
      (n : ℕ) (page : ListChangedResult) (p q q' : Progress) (c c1 c2 c3 : Cycle)
      → call_list_changed s e t p.cursor c ≡ (ok page, c1)
      → PageDone page.changes (start_page page p) q c1 c2
      → page.has_more ≡ true
      → PagesRead n (finish_page page q) q' c2 c3
      → PagesRead (suc n) p q' c c3
  read-more n page p q q' c c1 c2 c3 called d more r =
      read-cons n page p q q' c c1 c2 c3 d r.trace
        (next_page n p.cursor _ r.trace c c1 c2 c3 called d.processed more (
          subst (λ cursor. Listed casefold s e t n cursor c2 r.trace c3)
            ((finish_page-kept page q).2 ∙ d.cursor) r.listing))
        r.bound r.pages r.records r.committable

  read-last :
      (n : ℕ) (page : ListChangedResult) (p q : Progress) (c c1 c2 : Cycle)
      → call_list_changed s e t p.cursor c ≡ (ok page, c1)
      → PageDone page.changes (start_page page p) q c1 c2
      → page.has_more ≡ false
      → PagesRead (suc n) p (finish_page page q) c c2
  read-last n page p q c c1 c2 called d last =
      read-cons n page p q (finish_page page q) c c1 c2 c2 d []
        (last_page n p.cursor _ c c1 c2 called d.processed last) (omega arith) (omega arith)
        (sym (append_nil (finish_page page q).records)) (ground arith)

  read-nil : (p : Progress) (c : Cycle) → PagesRead zero p p c c
  read-nil p c = record {
    trace = [];
    listing = at_limit p.cursor c;
    bound = omega arith;
    pages = omega arith;
    records = sym (append_nil p.records);
    committable = ground arith;
  }

  run_page-PageDone :
      (changes : List ChangeRef) (p q : Progress) (c c' : Cycle)
      → run_page casefold s e t changes p c ≡ ((none, q), c')
      → PageDone changes p q c c'
  unfolding run_page
  run_page-PageDone [] p q c c' h =
      let (same, ended) = progress-eq p q c c' h in
      subst (λ q. PageDone [] p q c c') same
        (subst (λ c'. PageDone [] p p c c') ended (done-nil p c))
  run_page-PageDone (change ∷ changes) p q c c' h =
      noted-PageDone change changes p q c c' (process casefold s e change t c) refl
        (λ r c1 h1. run_page-PageDone changes (note_record r p) q c1 c' h1) h

  turned-PagesRead :
      (n : ℕ) (again : Progress → Cycle → Turn) (page : ListChangedResult) (p q : Progress)
      (c c1 c' : Cycle) (turn : Turn)
      → call_list_changed s e t p.cursor c ≡ (ok page, c1)
      → ((p2 : Progress) (c2 : Cycle) → again p2 c2 ≡ ((none, q), c') → PagesRead n p2 q c2 c')
      → ((p2 : Progress) (c2 : Cycle)
          → turn ≡ ((none, p2), c2)
          → PageDone page.changes (start_page page p) p2 c1 c2)
      → turned again page turn ≡ ((none, q), c')
      → PagesRead (suc n) p q c c'
  unfolding finish_page
  turned-PagesRead n again page p q c c1 c' ((some x, p2), c2) called k d h = absurd (cc (h))
  turned-PagesRead n again page p q c c1 c' ((none, p2), c2) called k d h =
      elim (Bool-cases page.has_more) [
        | inl more ↦
            read-more n page p p2 q c c1 c2 c' called (d p2 c2 refl) more
              (k (finish_page page p2) c2 (rw more at h))
        | inr last ↦
            let (same, ended) = progress-eq (finish_page page p2) q c2 c' (rw last at h) in
            subst (λ q. PagesRead (suc n) p q c c') same
              (subst (λ c'. PagesRead (suc n) p (finish_page page p2) c c') ended
                (read-last n page p p2 c c1 c2 called (d p2 c2 refl) last))
      ]

  listed-PagesRead :
      (n : ℕ) (again : Progress → Cycle → Turn) (p q : Progress) (c c' : Cycle)
      (out : Result Raised ListChangedResult × Cycle)
      → call_list_changed s e t p.cursor c ≡ out
      → ((p2 : Progress) (c2 : Cycle) → again p2 c2 ≡ ((none, q), c') → PagesRead n p2 q c2 c')
      → listed casefold s e t again p out ≡ ((none, q), c')
      → PagesRead (suc n) p q c c'
  listed-PagesRead n again p q c c' (err x, c1) called k h = absurd (cc (h))
  listed-PagesRead n again p q c c' (ok page, c1) called k h =
      turned-PagesRead n again page p q c c1 c' _ called k
        (λ p2 c2 same. run_page-PageDone page.changes (start_page page p) p2 c1 c2 same) h

  -- When the loop over the pages ends without an exception, the watermark it may commit is the one
  -- of the last listed page before the first page with a record that holds the watermark, or the
  -- one it started from where there is none: a page after an unfinished record never moves it.
  pub run_pages-PagesRead :
      (n : ℕ) (p q : Progress) (c c' : Cycle)
      → run_pages casefold s e n t p c ≡ ((none, q), c')
      → PagesRead n p q c c'
  unfolding run_pages
  run_pages-PagesRead zero p q c c' h =
      let (same, ended) = progress-eq p q c c' h in
      subst (λ q. PagesRead zero p q c c') same
        (subst (λ c'. PagesRead zero p p c c') ended (read-nil p c))
  run_pages-PagesRead (suc n) p q c c' h =
      listed-PagesRead n (run_pages casefold s e n t) p q c c' (call_list_changed s e t p.cursor c)
        refl (λ p2 c2 h2. run_pages-PagesRead n p2 q c2 c' h2) h

-- ===== src/Sync/Resume.antt =====
-- Where the cycle after a committed one starts.
use qlabs_catalog_sync.Prelude.{
  ℕ, ◌≡◌, refl, sym, ap, ◌∙◌, subst, Bool, true, false, if◌then◌else◌, List, [], ◌∷◌, ◌++◌, String,
  Option, none, some, Result, ok, err, >>=-eq-ok, ok-injective, ◌==◌, arith,
}
use qlabs_catalog_sync.Prelude.Dict
use qlabs_catalog_sync.Models.{EntityType}
use qlabs_catalog_sync.Changes.{Watermark, initial_watermark, same_stream_as}
use qlabs_catalog_sync.State.Rows.{Db, WatermarkKey, watermark_key_eq, WatermarkRow}
use qlabs_catalog_sync.State.UnitOfWork.{
  StoreError, Write, advance, advance_watermark, perform, perform_all, unit_of_work,
}
use qlabs_catalog_sync.State.Queries.{get_watermark, list_orphans}
use qlabs_catalog_sync.Sync.Settings.{Settings, Endpoints, RunStatus}
use qlabs_catalog_sync.Sync.Cycle.{Cycle, Raised, raise_store}
use qlabs_catalog_sync.Sync.Calls.{now, preflight_check}
use qlabs_catalog_sync.Sync.Pending.{transact, commit_writes, planned_writes, status_value}
use qlabs_catalog_sync.Sync.Safety.{transact-state}
use qlabs_catalog_sync.Sync.Listing.{PageRead, prefix_mark, all_reports, Listed}
use qlabs_catalog_sync.Sync.Advance.{PagesRead, run_pages-PagesRead}
use qlabs_catalog_sync.Sync.Run.{
  Progress, Turn, SyncRunReport, start_progress, run_pages, conclude, commit, committed, checked,
  run_cycle, finished, status_of, fresh_cycle, not_scheduled, is_unsupported, load_watermark,
  open_ids,
}

perform_all-last :
    (ws : List Write) (w : Write) (d d' : Db)
    → perform_all (ws ++ (w ∷ [])) d ≡ ok d'
    → (d1 : Db) × (perform w d1 ≡ ok d')
unfolding perform_all
perform_all-last [] w d d' h =
    let (d1, first, last) = >>=-eq-ok (perform w d) _ h in (d, first ∙ last)
perform_all-last (v ∷ ws) w d d' h =
    let (d1, first, rest) = >>=-eq-ok (perform v d) _ h in perform_all-last ws w d1 d' rest

done-eq :
    (body : Db → Result StoreError Db) (d : Db) (u : Unit {0})
    → (unit_of_work body d).0 ≡ ok u
    → body d ≡ ok (unit_of_work body d).1
unfolding unit_of_work
done-eq body d u h = go (body d) refl
  where
    go : (r : Result StoreError Db) → body d ≡ r → body d ≡ ok (unit_of_work body d).1
    go (ok d') same = rw (unit_of_work, same) refl
    go (err x) same = absurd (cc (rw (unit_of_work, same) at h))

raise_store-done :
    (r : Result StoreError (Unit {0})) (c : Cycle) (u : Unit {0})
    → (raise_store r c).0 ≡ ok u
    → r ≡ ok tt
raise_store-done (ok a) c u h = refl
raise_store-done (err x) c u h = absurd (cc (h))

transact-outcome :
    (ws : List Write) (c : Cycle)
    → (raise_store
        (unit_of_work (perform_all ws) c.db).0
        (record c { db = (unit_of_work (perform_all ws) c.db).1 })).0
      ≡ (transact ws c).0
unfolding transact
transact-outcome ws c = refl

-- The cycle after its preflight, with the open orphans of the pair's source and entity type read.
abbrev pub opened_at : Settings → EntityType → Cycle → Cycle
opened_at s t c = record c {
  open_orphans = open_ids t (list_orphans (some s.source_name) true c.db);
}

module _ (casefold : String → String) (dump : Watermark → String)
    (parse : String → Option Watermark) (s : Settings) (e : Endpoints) where
  -- The stored watermark of the pair and entity type reads back as `w`.
  abbrev stream_key : EntityType → WatermarkKey
  stream_key t = record { sync_pair = s.pair_name; endpoint = s.source_name; entity_type = t }

  HasToken : EntityType → Watermark → Db → Type 0
  HasToken t w d =
      (row : WatermarkRow) × (get_watermark (stream_key t) d ≡ some row)
      × (row.watermark_token ≡ some (dump w))

  committed_token :
      (ws : List Write) (t : EntityType) (w : Watermark) (verdict : String) (at : ℕ) (d d' : Db)
      → perform_all (ws ++ (advance (stream_key t) (some (dump w)) verdict at ∷ [])) d ≡ ok d'
      → HasToken t w d'
  unfolding HasToken perform advance_watermark get_watermark
  committed_token ws t w verdict at d d' h =
      let (d1, last) = perform_all-last ws _ d d' h in
      subst (HasToken t w) (ok-injective last)
        (row, Dict.lookup-insert (stream_key t) (stream_key t) row d1.watermarks ∙ found _, refl)
    where
      row : WatermarkRow
      row = record {
        watermark_token = some (dump w);
        last_run_at = some at;
        last_status = some verdict;
        updated_at = at;
      }

      found :
          (o : Option WatermarkRow)
          → (if stream_key t == stream_key t then some row else o) ≡ some row
      found o = ground arith

  transact-done :
      (ws : List Write) (c : Cycle) (u : Unit {0})
      → (transact ws c).0 ≡ ok u
      → perform_all ws c.db ≡ ok (transact ws c).1.db
  transact-done ws c u h =
      done-eq (perform_all ws) c.db (tt) (raise_store-done _ _ u (transact-outcome ws c ∙ h))
      ∙ ap (λ (c1 : Cycle). ok c1.db) (sym (transact-state ws c))

  commit_token :
      (t : EntityType) (w : Watermark) (verdict : RunStatus) (c : Cycle) (u : Unit {0})
      → (commit casefold dump parse s e t w verdict c).0 ≡ ok u
      → HasToken t w (commit casefold dump parse s e t w verdict c).1.db
  unfolding commit now commit_writes
  commit_token t w verdict c u h =
      committed_token (planned_writes (s.clock c.clock_readings) c.mutations) t w
        (status_value verdict) (s.clock c.clock_readings) c.db _ (transact-done _ _ u h)

  -- A committed cycle: the pages that it listed and processed from `opened` to `ended`, and the
  -- watermark that it stored.
  record Committed (t : EntityType) (since : Watermark) (opened : Cycle) (report : SyncRunReport)
      (d : Db) : Type 0 where
    ended : Cycle
    read : PagesRead casefold s e t s.max_pages (start_progress since) report.progress opened ended
    after : report.watermark_after ≡ report.progress.committable
    stored : HasToken t report.watermark_after d

  committed-Committed :
      (t : EntityType) (since : Watermark) (opened ended : Cycle) (p : Progress)
      (out : Result Raised (Unit {0}) × Cycle)
      → PagesRead casefold s e t s.max_pages (start_progress since) p opened ended
      → ((u : Unit {0}) → out.0 ≡ ok u → HasToken t p.committable out.1.db)
      → (committed casefold dump parse s e since p out).0.committed ≡ true
      → Committed t since opened
          (committed casefold dump parse s e since p out).0
          (committed casefold dump parse s e since p out).1.db
  committed-Committed t since opened ended p (ok u, c) pages k h = record {
    ended = ended;
    read = pages;
    after = refl;
    stored = k u refl;
  }
  committed-Committed t since opened ended p (err x, c) pages k h = absurd (cc (h))

  conclude-Committed :
      (t : EntityType) (since : Watermark) (opened : Cycle) (turn : Turn)
      → ((p : Progress) (c : Cycle)
          → turn ≡ ((none, p), c)
          → PagesRead casefold s e t s.max_pages (start_progress since) p opened c)
      → (conclude casefold dump parse s e t since turn).0.committed ≡ true
      → Committed t since opened
          (conclude casefold dump parse s e t since turn).0
          (conclude casefold dump parse s e t since turn).1.db
  unfolding conclude
  conclude-Committed t since opened ((some x, p), c) k h = absurd (cc (h))
  conclude-Committed t since opened ((none, p), c) k h = go s.dry_run h
    where
      end : Bool → SyncRunReport × Cycle
      end dry =
          if dry
          then finished since p false c
          else committed casefold dump parse s e since p
              (commit casefold dump parse s e t p.committable (status_of p.records) c)

      go :
          (dry : Bool)
          → (end dry).0.committed ≡ true
          → Committed t since opened (end dry).0 (end dry).1.db
      go true h1 = absurd (cc (h1))
      go false h1 =
          committed-Committed t since opened c p
            (commit casefold dump parse s e t p.committable (status_of p.records) c) (k p c refl)
            (commit_token t p.committable (status_of p.records) c) h1

  -- The preflight passed, and the cycle committed from there.
  BegunCommitted :
      EntityType → Watermark → Result Raised (Unit {0}) × Cycle → SyncRunReport × Cycle → Type 0
  BegunCommitted t since out (report, c) =
      (begun : Cycle) × (out ≡ (ok tt, begun)) × Committed t since (opened_at s t begun) report c.db

  checked-Committed :
      (t : EntityType) (since : Watermark) (out : Result Raised (Unit {0}) × Cycle)
      → (checked casefold dump parse s e t since out).0.committed ≡ true
      → BegunCommitted t since out (checked casefold dump parse s e t since out)
  unfolding BegunCommitted
  checked-Committed t since (err x, c) h = absurd (cc (h))
  checked-Committed t since (ok u, c) h = (
    c,
    refl,
    conclude-Committed t since (opened_at s t c)
        (run_pages casefold s e s.max_pages t (start_progress since) (opened_at s t c))
        (λ p c1 same.
          run_pages-PagesRead casefold s e t s.max_pages (start_progress since) p (opened_at s t c)
            c1 same)
        h,
  )

  run_cycle-Committed :
      (t : EntityType) (c : Cycle)
      → (run_cycle casefold dump parse s e t c).0.committed ≡ true
      → BegunCommitted t
          (load_watermark parse s t c.db)
          (preflight_check s e (fresh_cycle c))
          (run_cycle casefold dump parse s e t c)
  unfolding run_cycle
  run_cycle-Committed t c h = go (is_unsupported casefold s e t) h
    where
      since : Watermark
      since = load_watermark parse s t c.db

      end : Bool → SyncRunReport × Cycle
      end b =
          if b
          then not_scheduled since (fresh_cycle c)
          else checked casefold dump parse s e t since (preflight_check s e (fresh_cycle c))

      go :
          (b : Bool)
          → (end b).0.committed ≡ true
          → BegunCommitted t since (preflight_check s e (fresh_cycle c)) (end b)
      go true h1 = absurd (cc (h1))
      go false h1 = checked-Committed t since (preflight_check s e (fresh_cycle c)) h1

  load-HasToken :
      (t : EntityType) (w : Watermark) (d : Db)
      → parse (dump w) ≡ some w
      → same_stream_as w (initial_watermark s.source_name t) ≡ true
      → HasToken t w d
      → load_watermark parse s t d ≡ w
  unfolding load_watermark HasToken
  load-HasToken t w d round_trip stream (row, found, token) =
      rw (load_watermark, found, token, round_trip, stream) refl

  -- A committed cycle passed its preflight, and from there listed pages of changes, at most
  -- `max_pages`: the first from the watermark that the cycle started with, each other one from the
  -- mark of the page before it, until a page had none after it or the limit was reached; and it
  -- processed the changes of each page in order. The records of its report are those of the pages, in order, and the next cycle starts
  -- from the watermark that it reports: the mark of the last page before the first page with a
  -- record that holds the watermark, or, where there is no page before that one, the watermark that
  -- the cycle itself started with. This holds where the reported watermark is of the pair's stream
  -- and reads back as it was written.
  pub run_cycle-resumes :
      (t : EntityType) (c : Cycle)
      → (run_cycle casefold dump parse s e t c).0.committed ≡ true
      → parse (dump (run_cycle casefold dump parse s e t c).0.watermark_after)
        ≡ some (run_cycle casefold dump parse s e t c).0.watermark_after
      → same_stream_as
          (run_cycle casefold dump parse s e t c).0.watermark_after
          (initial_watermark s.source_name t)
        ≡ true
      → let since = load_watermark parse s t c.db in
        (begun : Cycle) × (ended : Cycle) × (pages : List PageRead) × (preflight_check s e
            (fresh_cycle c)
          ≡ (ok tt, begun))
        × Listed casefold s e t s.max_pages since (opened_at s t begun) pages ended
        × ((run_cycle casefold dump parse s e t c).0.progress.records ≡ all_reports pages)
        × ((run_cycle casefold dump parse s e t c).0.watermark_after ≡ prefix_mark since pages)
        × (load_watermark parse s t (run_cycle casefold dump parse s e t c).1.db
            ≡ (run_cycle casefold dump parse s e t c).0.watermark_after)
  unfolding BegunCommitted
  run_cycle-resumes t c done round_trip stream =
      let (begun, passed, end) = run_cycle-Committed t c done in
      (
        begun,
        end.ended,
        end.read.trace,
        passed,
        end.read.listing,
        end.read.records,
        end.after ∙ end.read.committable,
        load-HasToken t _ _ round_trip stream end.stored,
      )

-- ===== src/Sync/Failure.antt =====
-- A cycle that fails commits nothing: only the bindings of what it created at the target stay.
use qlabs_catalog_sync.Prelude.{
  ℕ, ◌≡◌, ◌≢◌, refl, sym, ◌∙◌, subst, Bool, true, false, if◌then◌else◌, any, List, String, Option,
  none, some, Result, ok, err, >>=-eq-ok, ok-injective, ◌⊎◌, inl, inr, arith,
}
use qlabs_catalog_sync.Models.{EntityType, IdentityRef}
use qlabs_catalog_sync.Changes.{Watermark}
use qlabs_catalog_sync.State.Rows.{Db}
use qlabs_catalog_sync.State.UnitOfWork.{
  StoreError, Write, bind_identity, perform, perform_all, unit_of_work,
}
use qlabs_catalog_sync.State.Uniqueness.{unit_of_work-cases}
use qlabs_catalog_sync.Sync.Settings.{
  Settings, Endpoints, RecordReport, RunStatus, ok_status, partial_status, failed_status,
}
use qlabs_catalog_sync.Sync.Cycle.{Cycle, Raised, raise_store}
use qlabs_catalog_sync.Sync.Calls.{now, preflight_check}
use qlabs_catalog_sync.Sync.Pending.{transact}
use qlabs_catalog_sync.Sync.Process.{anchors}
use qlabs_catalog_sync.Sync.Safety.{transact-state}
use qlabs_catalog_sync.Sync.Run.{
  Progress, Turn, SyncRunReport, start_progress, run_pages, conclude, commit, committed, checked,
  run_cycle, finished, status_of, fresh_cycle, not_scheduled, is_unsupported, load_watermark,
}
use qlabs_catalog_sync.Sync.Effects.{Steps}
use qlabs_catalog_sync.Sync.Effects.Pages.{run_pages-Keeps, preflight_check-Keeps}

-- The three tables that only the transaction at the end of a cycle writes.
pub record SameTables (d d' : Db) : Type 0 where
  pub watermarks : d'.watermarks ≡ d.watermarks
  pub field_envelopes : d'.field_envelopes ≡ d.field_envelopes
  pub orphan_log : d'.orphan_log ≡ d.orphan_log

same-tables : (d d' : Db) → d ≡ d' → SameTables d d'
same-tables d d' h =
    subst (SameTables d) h (record { watermarks = refl; field_envelopes = refl; orphan_log = refl })

join-tables : (d d1 d2 : Db) → SameTables d d1 → SameTables d1 d2 → SameTables d d2
join-tables d d1 d2 a b = record {
  watermarks = b.watermarks ∙ a.watermarks;
  field_envelopes = b.field_envelopes ∙ a.field_envelopes;
  orphan_log = b.orphan_log ∙ a.orphan_log;
}

bind-tables :
    (n : ℕ) (i : IdentityRef) (confirmed : Bool) (now : ℕ) (d d' : Db)
    → bind_identity n i confirmed now d ≡ ok d'
    → SameTables d d'
unfolding bind_identity
bind-tables n i confirmed now d d' h = record {
  watermarks = ground arith;
  field_envelopes = ground arith;
  orphan_log = ground arith;
}

anchors-tables :
    (n : ℕ) (source_ref created_ref : IdentityRef) (at : ℕ) (d d' : Db)
    → perform_all (anchors n source_ref created_ref at) d ≡ ok d'
    → SameTables d d'
unfolding perform_all perform
anchors-tables n source_ref created_ref at d d' h =
    let (d1, first, rest) = >>=-eq-ok (bind_identity n source_ref true at d) _ h in
    let (d2, second, last) = >>=-eq-ok (bind_identity n created_ref true at d1) _ rest in
    join-tables d d1 d' (bind-tables n source_ref true at d d1 first)
      (subst (SameTables d1) (ok-injective last) (bind-tables n created_ref true at d1 d2 second))

transact-anchors :
    (n : ℕ) (source_ref created_ref : IdentityRef) (at : ℕ) (c : Cycle)
    → SameTables c.db (transact (anchors n source_ref created_ref at) c).1.db
transact-anchors n source_ref created_ref at c =
    subst (λ (c1 : Cycle). SameTables c.db c1.db) (sym (transact-state _ c))
      (elim (unit_of_work-cases (perform_all (anchors n source_ref created_ref at)) c.db) [
        | inl kept ↦ same-tables c.db _ (sym kept)
        | inr done ↦ anchors-tables n source_ref created_ref at c.db _ done
      ])

Unmoved : Cycle → Cycle → Type 0
Unmoved c c' = SameTables c.db c'.db

Unmoved-Steps : (s : Settings) (e : Endpoints) → Steps Unmoved s e
unfolding Unmoved
Unmoved-Steps s e = record {
  order = record {
    same = λ c. same-tables c.db c.db refl;
    join = λ a b c f g. join-tables a.db b.db c.db f g;
  };
  notes = λ c c' history db. same-tables c.db c'.db (sym db);
  reads = λ call is_read c. same-tables c.db c.db refl;
  writes = λ wet call c. same-tables c.db c.db refl;
  binds = λ wet n source_ref created_ref at. transact-anchors n source_ref created_ref at;
}

done-or-kept :
    (body : Db → Result StoreError Db) (d : Db)
    → ((unit_of_work body d).0 ≡ ok tt) ⊎ ((unit_of_work body d).1 ≡ d)
unfolding unit_of_work
done-or-kept body d = go (body d) refl
  where
    go :
        (r : Result StoreError Db)
        → body d ≡ r
        → ((unit_of_work body d).0 ≡ ok tt) ⊎ ((unit_of_work body d).1 ≡ d)
    go (ok d') h = inl (rw (unit_of_work, h) refl)
    go (err x) h = inr (rw (unit_of_work, h) refl)

raise_store-ok :
    (r : Result StoreError (Unit {0})) (c : Cycle) (x : Raised)
    → r ≡ ok tt
    → (raise_store r c).0 ≢ err x
raise_store-ok (ok a) c x same h = cc
raise_store-ok (err y) c x same h = cc

transact-ok :
    (ws : List Write) (c : Cycle) (x : Raised)
    → (unit_of_work (perform_all ws) c.db).0 ≡ ok tt
    → (transact ws c).0 ≢ err x
unfolding transact
transact-ok ws c x done h = raise_store-ok _ _ x done h

-- A transaction that raises is rolled back.
transact-err :
    (ws : List Write) (c : Cycle) (x : Raised)
    → (transact ws c).0 ≡ err x
    → SameTables c.db (transact ws c).1.db
transact-err ws c x h = elim (done-or-kept (perform_all ws) c.db) [
  | inl done ↦ absurd (transact-ok ws c x done h)
  | inr kept ↦
      subst (λ (c1 : Cycle). SameTables c.db c1.db) (sym (transact-state ws c))
        (same-tables c.db _ (sym kept))
]

status_of-ne : (rs : List RecordReport) → status_of rs ≢ failed_status
status_of-ne rs h = go (any (λ r. r.holds_watermark) rs) h
  where
    go : (b : Bool) → (if b then partial_status else ok_status) ≢ failed_status
    go true e = cc
    go false e = cc

module _ (casefold : String → String) (dump : Watermark → String)
    (parse : String → Option Watermark) (s : Settings) (e : Endpoints) where
  committed-tables :
      (since : Watermark) (p : Progress) (d : Db) (out : Result Raised (Unit {0}) × Cycle)
      → ((x : Raised) → out.0 ≡ err x → SameTables d out.1.db)
      → (committed casefold dump parse s e since p out).0.status ≡ failed_status
      → SameTables d (committed casefold dump parse s e since p out).1.db
  committed-tables since p d (ok _, c) k h = absurd (status_of-ne p.records h)
  committed-tables since p d (err x, c) k h = k x refl

  commit-err :
      (t : EntityType) (w : Watermark) (verdict : RunStatus) (c : Cycle) (x : Raised)
      → (commit casefold dump parse s e t w verdict c).0 ≡ err x
      → SameTables c.db (commit casefold dump parse s e t w verdict c).1.db
  unfolding commit now
  commit-err t w verdict c x h = transact-err _ _ x h

  conclude-tables :
      (t : EntityType) (since : Watermark) (d : Db) (turn : Turn)
      → SameTables d turn.1.db
      → (conclude casefold dump parse s e t since turn).0.status ≡ failed_status
      → SameTables d (conclude casefold dump parse s e t since turn).1.db
  unfolding conclude
  conclude-tables t since d ((some x, p), c) k h = k
  conclude-tables t since d ((none, p), c) k h = go s.dry_run h
    where
      end : Bool → SyncRunReport × Cycle
      end dry =
          if dry
          then finished since p false c
          else committed casefold dump parse s e since p
              (commit casefold dump parse s e t p.committable (status_of p.records) c)

      go : (dry : Bool) → (end dry).0.status ≡ failed_status → SameTables d (end dry).1.db
      go true h1 = absurd (status_of-ne p.records h1)
      go false h1 =
          committed-tables since p d
            (commit casefold dump parse s e t p.committable (status_of p.records) c)
            (λ x raised.
              join-tables d c.db _ k (commit-err t p.committable (status_of p.records) c x raised))
            h1

  checked-tables :
      (t : EntityType) (since : Watermark) (d : Db) (out : Result Raised (Unit {0}) × Cycle)
      → SameTables d out.1.db
      → (checked casefold dump parse s e t since out).0.status ≡ failed_status
      → SameTables d (checked casefold dump parse s e t since out).1.db
  unfolding Unmoved
  checked-tables t since d (err x, c) k h = k
  checked-tables t since d (ok _, c) k h =
      conclude-tables t since d (run_pages casefold s e s.max_pages t (start_progress since) _)
        (join-tables d c.db _ k (
          run_pages-Keeps Unmoved casefold s e (Unmoved-Steps s e) s.max_pages t
            (start_progress since) _))
        h

  -- A cycle that ends as failed, by an exception anywhere, an unhealthy endpoint or a commit that
  -- is refused, leaves the watermarks, the stored envelopes and the orphan log as they were.
  pub failed_cycle-SameTables :
      (t : EntityType) (c : Cycle)
      → (run_cycle casefold dump parse s e t c).0.status ≡ failed_status
      → SameTables c.db (run_cycle casefold dump parse s e t c).1.db
  unfolding run_cycle Unmoved
  failed_cycle-SameTables t c h = go (is_unsupported casefold s e t) h
    where
      since : Watermark
      since = load_watermark parse s t c.db

      end : Bool → SyncRunReport × Cycle
      end b =
          if b
          then not_scheduled since (fresh_cycle c)
          else checked casefold dump parse s e t since (preflight_check s e (fresh_cycle c))

      go : (b : Bool) → (end b).0.status ≡ failed_status → SameTables c.db (end b).1.db
      go true h1 = same-tables c.db c.db refl
      go false h1 =
          checked-tables t since c.db (preflight_check s e (fresh_cycle c))
            (preflight_check-Keeps Unmoved casefold s e (Unmoved-Steps s e) (fresh_cycle c)) h1

-- ===== src/Sync/Safety.antt =====
-- What a whole cycle leaves alone: a dry run everything, a failed cycle all but the bindings of
-- what it created, and every cycle the unique constraint.
use qlabs_catalog_sync.Prelude.{
  ◌≡◌, refl, sym, ◌∙◌, subst, Bool, true, false, if◌then◌else◌, List, All, String, Option, none,
  some, Result, ok, err,
}
use qlabs_catalog_sync.Models.{EntityType}
use qlabs_catalog_sync.Changes.{Watermark}
use qlabs_catalog_sync.State.Rows.{Db}
use qlabs_catalog_sync.State.UnitOfWork.{StoreError, Write, perform_all, unit_of_work}
use qlabs_catalog_sync.State.Uniqueness.{IsSound, unit_of_work-IsSound}
use qlabs_catalog_sync.Sync.Settings.{Settings, Endpoints, RunStatus}
use qlabs_catalog_sync.Sync.Cycle.{Cycle, Raised, raise_store}
use qlabs_catalog_sync.Sync.Calls.{now, preflight_check}
use qlabs_catalog_sync.Sync.Keeps.{IsPreorder, Keeps}
use qlabs_catalog_sync.Sync.Pending.{transact}
use qlabs_catalog_sync.Sync.Run.{
  Progress, Turn, start_progress, run_pages, conclude, commit, committed, checked, run_cycle,
  finished, status_of, fresh_cycle, not_scheduled, is_unsupported, load_watermark,
}
use qlabs_catalog_sync.Sync.Effects.{IsRead, Steps}
use qlabs_catalog_sync.Sync.Effects.Pages.{run_pages-Keeps, preflight_check-Keeps}

raise_store-state : {A : Type 0} (r : Result StoreError A) (c : Cycle) → (raise_store r c).1 ≡ c
raise_store-state (ok a) c = refl
raise_store-state (err x) c = refl

pub transact-state :
    (ws : List Write) (c : Cycle)
    → (transact ws c).1 ≡ record c { db = (unit_of_work (perform_all ws) c.db).1 }
unfolding transact
transact-state ws c = raise_store-state _ _

module _ (R : Cycle → Cycle → Type 0) (casefold : String → String) (dump : Watermark → String)
    (parse : String → Option Watermark) (s : Settings) (e : Endpoints) (steps : Steps R s e)
    (commits : s.dry_run ≡ false → (ws : List Write) → Keeps R (transact ws)) where
  commit-Keeps :
      s.dry_run ≡ false
      → (t : EntityType) (w : Watermark) (verdict : RunStatus)
      → Keeps R (commit casefold dump parse s e t w verdict)
  unfolding commit now
  commit-Keeps wet t w verdict c =
      steps.order.join c _ _ (steps.notes c _ refl refl) (commits wet _ _)

  committed-Keeps :
      (since : Watermark) (p : Progress) (c : Cycle) (out : Result Raised (Unit {0}) × Cycle)
      → R c out.1
      → R c (committed casefold dump parse s e since p out).1
  committed-Keeps since p c (ok _, c1) h = h
  committed-Keeps since p c (err x, c1) h = steps.order.join c c1 _ h (steps.notes c1 _ refl refl)

  conclude-Keeps :
      (t : EntityType) (since : Watermark) (c : Cycle) (turn : Turn)
      → R c turn.1
      → R c (conclude casefold dump parse s e t since turn).1
  unfolding conclude
  conclude-Keeps t since c ((some x, p), c1) h =
      steps.order.join c c1 _ h (steps.notes c1 _ refl refl)
  conclude-Keeps t since c ((none, p), c1) h = go s.dry_run refl
    where
      go :
          (dry : Bool)
          → s.dry_run ≡ dry
          → R c
              (if dry
                then finished since p false c1
                else committed casefold dump parse s e since p
                    (commit casefold dump parse s e t p.committable (status_of p.records) c1)).1
      go true same = h
      go false wet =
          committed-Keeps since p c
            (commit casefold dump parse s e t p.committable (status_of p.records) c1)
            (steps.order.join c c1 _ h (commit-Keeps wet t p.committable (status_of p.records) c1))

  checked-Keeps :
      (t : EntityType) (since : Watermark) (c : Cycle) (out : Result Raised (Unit {0}) × Cycle)
      → R c out.1
      → R c (checked casefold dump parse s e t since out).1
  checked-Keeps t since c (err x, c1) h = steps.order.join c c1 _ h (steps.notes c1 _ refl refl)
  checked-Keeps t since c (ok _, c1) h =
      conclude-Keeps t since c (run_pages casefold s e s.max_pages t (start_progress since) _) (
        steps.order.join c c1 _ h (
          steps.order.join c1 _ _ (steps.notes c1 _ refl refl)
            (run_pages-Keeps R casefold s e steps s.max_pages t (start_progress since) _)))

  run_cycle-Keeps : (t : EntityType) (c : Cycle) → R c (run_cycle casefold dump parse s e t c).1
  unfolding run_cycle
  run_cycle-Keeps t c = go (is_unsupported casefold s e t)
    where
      since : Watermark
      since = load_watermark parse s t c.db

      go :
          (b : Bool)
          → R c
              (if b
                then not_scheduled since (fresh_cycle c)
                else checked casefold dump parse s e t since
                    (preflight_check s e (fresh_cycle c))).1
      go true = steps.notes c _ refl refl
      go false = steps.order.join c (fresh_cycle c) _ (steps.notes c (fresh_cycle c) refl refl) (
          checked-Keeps t since (fresh_cycle c) _
            (preflight_check-Keeps R casefold s e steps (fresh_cycle c)))

-- The store as it was, and only reads added to the calls.
Untouched : Cycle → Cycle → Type 0
Untouched c c' = (c'.db ≡ c.db) × (All IsRead c.history → All IsRead c'.history)

Untouched-order : IsPreorder Untouched
unfolding Untouched
Untouched-order = record {
  same = λ c. (refl, λ h. h);
  join = λ a b c (p, f) (q, g). (q ∙ p, λ h. g (f h));
}

true-ne-false : {A : Type 0} (b : Bool) → b ≡ true → b ≡ false → A
true-ne-false b on off = absurd (cc (on, off))

dry-Steps : (s : Settings) (e : Endpoints) → s.dry_run ≡ true → Steps Untouched s e
unfolding Untouched
dry-Steps s e dry = record {
  order = Untouched-order;
  notes = λ c c' history db. (db, λ h. subst (All IsRead) (sym history) h);
  reads = λ call is_read c. (refl, λ h. (is_read, h));
  writes = λ wet call c. true-ne-false s.dry_run dry wet;
  binds = λ wet n source_ref created_ref at c. true-ne-false s.dry_run dry wet;
}

-- A dry run, however it ends, leaves the store as it was and calls neither `update` nor `create`:
-- if no call before it was one of these, none after it is.
pub dry_run-IsRead :
    (casefold : String → String) (dump : Watermark → String) (parse : String → Option Watermark)
    (s : Settings) (e : Endpoints) (t : EntityType) (c : Cycle)
    → s.dry_run ≡ true
    → All IsRead c.history
    → ((run_cycle casefold dump parse s e t c).1.db ≡ c.db)
      × All IsRead (run_cycle casefold dump parse s e t c).1.history
unfolding Untouched
dry_run-IsRead casefold dump parse s e t c dry before =
    let (db, calls) =
      run_cycle-Keeps Untouched casefold dump parse s e (dry-Steps s e dry)
        (λ wet ws c1. true-ne-false s.dry_run dry wet) t c in
    (db, calls before)

StaysSound : Cycle → Cycle → Type 0
StaysSound c c' = IsSound c.db.identity_map → IsSound c'.db.identity_map

transact-StaysSound : (ws : List Write) → Keeps StaysSound (transact ws)
unfolding StaysSound
transact-StaysSound ws c sound =
    subst (λ (c1 : Cycle). IsSound c1.db.identity_map) (sym (transact-state ws c))
      (unit_of_work-IsSound ws c.db sound)

sound-Steps : (s : Settings) (e : Endpoints) → Steps StaysSound s e
unfolding StaysSound
sound-Steps s e = record {
  order = record { same = λ c h. h; join = λ a b c f g h. g (f h) };
  notes = λ c c' history db h. subst (λ (d : Db). IsSound d.identity_map) (sym db) h;
  reads = λ call is_read c h. h;
  writes = λ wet call c h. h;
  binds = λ wet n source_ref created_ref at. transact-StaysSound _;
}

-- Whatever the endpoints answer, and whether it commits or fails, a cycle leaves no native object
-- bound to two neutral ids when none was before.
pub run_cycle-IsSound :
    (casefold : String → String) (dump : Watermark → String) (parse : String → Option Watermark)
    (s : Settings) (e : Endpoints) (t : EntityType) (c : Cycle)
    → IsSound c.db.identity_map
    → IsSound (run_cycle casefold dump parse s e t c).1.db.identity_map
unfolding StaysSound
run_cycle-IsSound casefold dump parse s e t c =
    run_cycle-Keeps StaysSound casefold dump parse s e (sound-Steps s e)
      (λ wet. transact-StaysSound) t c

-- ===== src/Scheduler/Keeps.antt =====
-- What every stage of a pass keeps until it applies the configuration, and what that makes of it.
use qlabs_catalog_sync.Prelude.{
  ℕ, ◌+◌, Bool, true, false, not, String, some, Result, ok, err, ◌==◌, nat_eq, option_eq,
  if◌then◌else◌,
}
use qlabs_catalog_sync.Scheduler.Types.{ConfigSnapshot, ReconcileResult, Scheduler, Options}
use qlabs_catalog_sync.Scheduler.Reconcile.{
  Outside, Await, probing, loading, apply, adopt, apply_unless_stopping, reconcile, diverged, wait,
  loaded, probed, untouched,
}

module _ (o : Options) (w : Outside) (P Q : Scheduler → Type 0)
    (ticks : (s : Scheduler) → P s → P (record s { ticks = s.ticks + 1 }))
    (waits : (a : Await) (s : Scheduler) → P s → P (wait o w a s))
    (adopts : (generation : ℕ) (snapshot : ConfigSnapshot) (s : Scheduler)
      → P s
      → P (adopt o w generation snapshot s))
    (applies : (generation : ℕ) (reloaded : Bool) (s : Scheduler)
      → P s
      → Q (apply o w generation reloaded s).1)
    (ends : (s : Scheduler) → P s → Q s) where
  abbrev Left : Result String ReconcileResult × Scheduler → Type 0
  Left out = Q out.1

  apply_unless_stopping-keeps :
      (generation : ℕ) (reloaded : Bool) (s : Scheduler)
      → P s
      → Q (apply_unless_stopping o w generation reloaded s).1
  unfolding apply_unless_stopping
  apply_unless_stopping-keeps generation reloaded s h = go s.stopping
    where
      go :
          (halted : Bool)
          → Left (
              if halted
              then (ok (untouched o w generation reloaded), s)
              else (ok (apply o w generation reloaded s).0, (apply o w generation reloaded s).1))
      go true = ends s h
      go false = applies generation reloaded s h

  loaded-keeps :
      (generation : ℕ) (answer : Result String ConfigSnapshot) (s : Scheduler)
      → P s
      → Q (loaded o w generation answer s).1
  loaded-keeps generation (err x) s h = ends s h
  loaded-keeps generation (ok snapshot) s h =
      apply_unless_stopping-keeps generation true _ (adopts generation snapshot s h)

  probed-keeps : (answer : Result String ℕ) (s : Scheduler) → P s → Q (probed o w answer s).1
  probed-keeps (err x) s h = ends s h
  probed-keeps (ok generation) s h = go (s.generation == some generation) (diverged s)
    where
      go :
          (same div : Bool)
          → Left (
              if not same
              then loaded o w generation (w.on_load s.ticks) (wait o w loading s)
              else if not div
              then (ok (untouched o w generation false), s)
              else apply_unless_stopping o w generation false s)
      go false div = loaded-keeps generation (w.on_load s.ticks) _ (waits loading s h)
      go true false = ends s h
      go true true = apply_unless_stopping-keeps generation false s h

  pub reconcile-keeps : (s : Scheduler) → P s → Q (reconcile o w s).1
  unfolding reconcile
  reconcile-keeps s h = probed-keeps _ _ (waits probing _ (ticks s h))

-- ===== src/Scheduler/Degraded.antt =====
-- A pair is degraded exactly while its last fires, as many as the threshold says, have all failed.
use qlabs_catalog_sync.Prelude.{
  ℕ, ◌+◌, ◌≤◌, ◌≡◌, refl, ◌∙◌, Bool, true, false, not, List, [], ◌∷◌, String, Option, none, some,
  arith, ◌==◌, string_eq, contains, is_none, if◌then◌else◌, leb,
}
use qlabs_catalog_sync.Prelude.Dict
use qlabs_catalog_sync.Prelude.Dict.{Dict, lookup-insert, lookup-erase}
use qlabs_catalog_sync.Health.{HealthRegistry, HealthStatus, mark_healthy, mark_degraded}
use qlabs_catalog_sync.Scheduler.Types.{Scheduler, Options}
use qlabs_catalog_sync.Scheduler.Fires.{
  Event, began, ended, stopped, cancelled, handle, handle_all, record_outcome, begin_fire,
  leave_fire, end_fire, forget, marked, outcome_of_known,
}
use qlabs_catalog_sync.Scheduler.Accounts.{contains-discard}

abbrev ill : Option HealthStatus → Bool
ill none = false
ill (some status) = not status.healthy

abbrev pub is_degraded : String → Option HealthRegistry → Bool
is_degraded name none = false
is_degraded name (some h) = ill (Dict.lookup name h)

-- The failed fires of a pair since its last one that did not fail, after `n` such before.
abbrev pub trailing : String → ℕ → List Event → ℕ
trailing name n [] = n
trailing name n (began r ∷ es) = trailing name n es
trailing name n (stopped ∷ es) = trailing name n es
trailing name n (cancelled other ∷ es) = trailing name n es
trailing name n (ended other failed ∷ es) =
    trailing name (if name == other then (if failed then n + 1 else 0) else n) es

-- A pair with a job whose mark agrees with its count of failures.
pub record Agrees (o : Options) (name : String) (n : ℕ) (s : Scheduler) : Type 0 where
  pub count : Dict.lookup name s.states ≡ some n
  pub kept : contains s.retired name ≡ false
  pub watched : is_none s.health ≡ false
  pub mark : is_degraded name s.health ≡ leb o.degraded_after n

healthy-mark :
    (name other : String) (h : Option HealthRegistry)
    → is_degraded name (marked (mark_healthy other) h)
      ≡ (if name == other then false else is_degraded name h)
unfolding mark_healthy
healthy-mark name other none = ground arith
healthy-mark name other (some h) =
    ground
      (arith, lookup-insert name other (record { name = other; healthy = true; detail = none }) h)

degraded-mark :
    (name other reason : String) (h : Option HealthRegistry)
    → is_none h ≡ false
    → is_degraded name (marked (mark_degraded other reason) h)
      ≡ (if name == other then true else is_degraded name h)
unfolding mark_degraded
degraded-mark name other reason none w = absurd (cc (w))
degraded-mark name other reason (some h) w = ground (
  arith,
  lookup-insert name other (record { name = other; healthy = false; detail = some reason }) h,
)

watched-mark :
    (f : HealthRegistry → HealthRegistry) (h : Option HealthRegistry)
    → is_none (marked f h) ≡ is_none h
watched-mark f none = refl
watched-mark f (some h) = refl

module _ (o : Options) (reason : ℕ → String) (name : String) (positive : 1 ≤ o.degraded_after) where
  -- The state of the fired pair decides; `count` is what is stored for it.
  known-Agrees :
      (other : String) (failed : Bool) (count : Option ℕ) (n : ℕ) (s : Scheduler)
      → Dict.lookup other s.states ≡ count
      → Agrees o name n s
      → Agrees o name
          (if name == other then (if failed then n + 1 else 0) else n)
          (outcome_of_known o reason other failed count s)
  known-Agrees other failed none n s e h = record {
    count = ground (arith, e, h.count);
    kept = h.kept;
    watched = h.watched;
    mark = ground (arith, e, h.count, h.mark);
  }
  known-Agrees other true (some c) n s e h = record {
    count = ground (arith, e, h.count, lookup-insert name other (c + 1) s.states);
    kept = h.kept;
    watched =
        ground (arith, h.watched, watched-mark (mark_degraded other (reason (c + 1))) s.health);
    mark =
        ground
          (arith, e, h.count, h.mark, degraded-mark name other (reason (c + 1)) s.health h.watched);
  }
  known-Agrees other false (some c) n s e h = record {
    count = ground (arith, e, h.count, lookup-insert name other 0 s.states);
    kept = h.kept;
    watched = watched-mark (mark_healthy other) s.health ∙ h.watched;
    mark = ground (arith, positive, e, h.count, h.mark, healthy-mark name other s.health);
  }

  leave-Agrees :
      (other : String) (n : ℕ) (s : Scheduler)
      → Agrees o name n s
      → Agrees o name n (leave_fire other s)
  unfolding leave_fire forget
  leave-Agrees other n s h = record {
    count = ground (arith, h.kept, h.count, lookup-erase name other s.states);
    kept = ground (arith, h.kept, contains-discard name other s.retired);
    watched = ground (arith, h.watched, watched-mark (mark_healthy other) s.health);
    mark = ground (arith, h.kept, h.mark, healthy-mark name other s.health);
  }

  -- From a state where this holds, whatever fires begin, end or are cancelled, and whenever the
  -- scheduler is told to stop: the stored count of a pair that has a job is the number of its failed
  -- fires since its last that ended otherwise, and the pair is degraded exactly when that number has
  -- reached the threshold.
  pub handle_all-Agrees :
      (es : List Event) (n : ℕ) (s : Scheduler)
      → Agrees o name n s
      → Agrees o name (trailing name n es) (handle_all o reason es s)
  unfolding handle_all handle begin_fire end_fire record_outcome
  handle_all-Agrees [] n s h = h
  handle_all-Agrees (began r ∷ es) n s h =
      handle_all-Agrees es n _
        (record { count = h.count; kept = h.kept; watched = h.watched; mark = h.mark })
  handle_all-Agrees (stopped ∷ es) n s h =
      handle_all-Agrees es n _
        (record { count = h.count; kept = h.kept; watched = h.watched; mark = h.mark })
  handle_all-Agrees (cancelled other ∷ es) n s h =
      handle_all-Agrees es n _ (leave-Agrees other n s h)
  handle_all-Agrees (ended other failed ∷ es) n s h =
      handle_all-Agrees es _ _
        (leave-Agrees other _ _ (known-Agrees other failed (Dict.lookup other s.states) n s refl h))

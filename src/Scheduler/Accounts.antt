-- ===== src/Scheduler/Accounts.antt =====
-- The pairs that the scheduler holds state for: those with a job, and those whose job was withdrawn
pub mod Pass
-- while a cycle ran.
use qlabs_catalog_sync.Prelude.{
  ℕ, ◌+◌, ◌-◌, ◌<◌, ◌≡◌, ◌≢◌, refl, sym, ap, ◌∙◌, subst, ◌⊎◌, inl, inr, Bool, true, false, not,
  ◌||◌, List, [], ◌∷◌, String, Option, none, some, Result, ok, err, arith, Bool-cases, ◌==◌,
  string_eq, contains, is_none, if◌then◌else◌, filter, ltb,
}
use qlabs_catalog_sync.Prelude.Dict
use qlabs_catalog_sync.Prelude.Dict.{Dict, lookup-insert, lookup-erase}
use qlabs_catalog_sync.Scheduler.Types.{
  PairRunner, PairPlan, PairLoadFailure, ConfigSnapshot, Scheduler, Options,
}
use qlabs_catalog_sync.Scheduler.Fires.{
  Event, began, ended, stopped, handle, handle_all, forget, discard, adjoin, is_running,
  record_outcome, begin_fire, leave_fire, end_fire, get_or_zero, running_or_one,
}
use qlabs_catalog_sync.Scheduler.Jobs.{schedule_job, drop_job}
use qlabs_catalog_sync.Scheduler.Reconcile.{install, withdraw}

pub contains-discard :
    (other name : String) (names : List String)
    → contains (discard name names) other ≡ (if other == name then false else contains names other)
unfolding discard
contains-discard other name [] = ground arith
contains-discard other name (x ∷ names) = ground (arith, contains-discard other name names)

pub contains-adjoin :
    (other name : String) (names : List String)
    → contains (adjoin name names) other ≡ (if other == name then true else contains names other)
unfolding adjoin
contains-adjoin other name names = ground arith

abbrev pub has_state : String → Scheduler → Bool
has_state name s = not (is_none (Dict.lookup name s.states))

abbrev pub has_job : String → Scheduler → Bool
has_job name s = not (is_none (Dict.lookup name s.runners_by_pair))

pub record IsAccounted (s : Scheduler) : Type 0 where
  pub known : (name : String) → has_state name s ≡ (has_job name s || contains s.retired name)
  pub apart : (name : String) → contains s.retired name ≡ true → has_job name s ≡ false
  pub busy : (name : String) → contains s.retired name ≡ true → is_running name s ≡ true

pub record_outcome-IsAccounted :
    (o : Options) (reason : ℕ → String) (name : String) (failed : Bool) (s : Scheduler)
    → IsAccounted s
    → IsAccounted (record_outcome o reason name failed s)
unfolding record_outcome
record_outcome-IsAccounted o reason name failed s h = record {
  known = λ other. ground (
    arith,
    h.known other,
    lookup-insert other name 0 s.states,
    lookup-insert other name (get_or_zero (Dict.lookup name s.states) + 1) s.states,
  );
  apart = λ other r. ground (arith, h.apart other);
  busy = λ other r. ground (arith, h.busy other);
}

pub begin_fire-IsAccounted :
    (r : PairRunner) (s : Scheduler) → IsAccounted s → IsAccounted (begin_fire r s)
unfolding begin_fire
begin_fire-IsAccounted r s h = record {
  known = λ other. h.known other;
  apart = λ other q. h.apart other q;
  busy = λ other q. ground (
    arith,
    h.busy other q,
    lookup-insert other r.pair.name (get_or_zero (Dict.lookup r.pair.name s.running) + 1) s.running,
  );
}

pub leave_fire-IsAccounted :
    (name : String) (s : Scheduler) → IsAccounted s → IsAccounted (leave_fire name s)
unfolding leave_fire forget
leave_fire-IsAccounted name s h = record {
  known = λ other. ground (
    arith,
    h.known other,
    h.apart name,
    lookup-erase other name s.states,
    contains-discard other name s.retired,
  );
  apart = λ other q. ground (arith, h.apart other, contains-discard other name s.retired);
  busy = λ other q. ground (
    arith,
    h.busy other,
    contains-discard other name s.retired,
    lookup-erase other name s.running,
    lookup-erase other name (Dict.erase name s.running),
    lookup-insert other name (running_or_one (Dict.lookup name s.running) - 1) s.running,
  );
}

pub install-IsAccounted :
    (o : Options) (name : String) (plan : PairPlan) (r : PairRunner) (s : Scheduler)
    → IsAccounted s
    → IsAccounted (install o name plan r s)
unfolding install schedule_job drop_job
install-IsAccounted o name plan r s h = record {
  known = λ other. ground (
    arith,
    h.known other,
    h.known name,
    lookup-insert other name r s.runners_by_pair,
    lookup-insert other name 0 s.states,
    contains-discard other name s.retired,
  );
  apart = λ other q. ground (
    arith,
    h.apart other,
    lookup-insert other name r s.runners_by_pair,
    contains-discard other name s.retired,
  );
  busy = λ other q. ground (arith, h.busy other, contains-discard other name s.retired);
}

pub withdraw-IsAccounted :
    (name : String) (s : Scheduler)
    → IsAccounted s
    → (is_running name s ≡ false) ⊎ (has_state name s ≡ true)
    → IsAccounted (withdraw name s)
unfolding withdraw forget drop_job
withdraw-IsAccounted name s h live = record {
  known = λ other. ground (
    arith,
    h.known other,
    h.known name,
    lookup-erase other name s.runners_by_pair,
    lookup-erase other name s.states,
    contains-discard other name s.retired,
    contains-adjoin other name s.retired,
  );
  apart = λ other q. ground (
    arith,
    h.apart other,
    lookup-erase other name s.runners_by_pair,
    contains-discard other name s.retired,
    contains-adjoin other name s.retired,
  );
  busy = λ other q. ground (
    arith,
    h.busy other,
    lookup-erase other name s.running,
    contains-discard other name s.retired,
    contains-adjoin other name s.retired,
  );
}

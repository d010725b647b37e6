-- ===== src/Scheduler/Passes.antt =====
-- What a pass does to one pair's runner and fingerprint.
use qlabs_catalog_sync.Prelude.{
  ◌≡◌, refl, not, ◌&&◌, [], ◌∷◌, String, Option, none, some, arith, ◌==◌, string_eq, contains,
  if◌then◌else◌,
}
use qlabs_catalog_sync.Prelude.Dict
use qlabs_catalog_sync.Prelude.Dict.{Dict, NodupKeys, lookup-insert, lookup-erase}
use qlabs_catalog_sync.Scheduler.Types.{PairRunner, PairPlan, Scheduler, Options}
use qlabs_catalog_sync.Scheduler.Fires.{forget}
use qlabs_catalog_sync.Scheduler.Jobs.{schedule_job, drop_job}
use qlabs_catalog_sync.Scheduler.Reconcile.{
  Built, install, install_all, withdraw, remove_each, is_wanted,
}

abbrev pub print_after : Option (PairPlan × PairRunner) → Option String → Option String
print_after none before = before
print_after (some (plan, runner)) before = some plan.fingerprint

abbrev pub runner_after : Option (PairPlan × PairRunner) → Option PairRunner → Option PairRunner
runner_after none before = before
runner_after (some (plan, runner)) before = some runner

module _ (o : Options) where
  -- Installing what was built decides the pairs that were built, and no other.
  pub install_all-prints :
      (name : String) (built : Built) (s : Scheduler)
      → NodupKeys built
      → Dict.lookup name (install_all o built s).1.fingerprints
        ≡ print_after (Dict.lookup name built) (Dict.lookup name s.fingerprints)
  unfolding install_all install schedule_job drop_job Dict.lookup
  install_all-prints name [] s u = refl
  install_all-prints name ((other, (plan, runner)) ∷ rest) s (fresh, u) = ground (
    arith,
    install_all-prints name rest (install o other plan runner s) u,
    lookup-insert name other plan.fingerprint s.fingerprints,
  )

  pub install_all-runners :
      (name : String) (built : Built) (s : Scheduler)
      → NodupKeys built
      → Dict.lookup name (install_all o built s).1.runners_by_pair
        ≡ runner_after (Dict.lookup name built) (Dict.lookup name s.runners_by_pair)
  unfolding install_all install schedule_job drop_job Dict.lookup
  install_all-runners name [] s u = refl
  install_all-runners name ((other, (plan, runner)) ∷ rest) s (fresh, u) = ground (
    arith,
    install_all-runners name rest (install o other plan runner s) u,
    lookup-insert name other runner s.runners_by_pair,
  )

-- Withdrawing what nobody wants decides the unwanted pairs, and no other.
pub withdraw-is_wanted :
    (other name : String) (s : Scheduler) → is_wanted other (withdraw name s) ≡ is_wanted other s
unfolding is_wanted withdraw forget drop_job
withdraw-is_wanted other name s = ground arith

withdraw-runners :
    (other name : String) (s : Scheduler)
    → Dict.lookup other (withdraw name s).runners_by_pair
      ≡ (if other == name then none else Dict.lookup other s.runners_by_pair)
unfolding withdraw forget drop_job
withdraw-runners other name s = ground (arith, lookup-erase other name s.runners_by_pair)

withdraw-prints :
    (other name : String) (s : Scheduler)
    → Dict.lookup other (withdraw name s).fingerprints
      ≡ (if other == name then none else Dict.lookup other s.fingerprints)
unfolding withdraw forget drop_job
withdraw-prints other name s = ground (arith, lookup-erase other name s.fingerprints)

pub remove_each-is_wanted :
    (name : String) (rs : Dict String PairRunner) (s : Scheduler)
    → is_wanted name (remove_each rs s).1 ≡ is_wanted name s
unfolding remove_each
remove_each-is_wanted name [] s = refl
remove_each-is_wanted name ((other, r) ∷ rest) s = ground (
  arith,
  remove_each-is_wanted name rest s,
  remove_each-is_wanted name rest (withdraw other s),
  withdraw-is_wanted name other s,
)

pub remove_each-runners :
    (name : String) (rs : Dict String PairRunner) (s : Scheduler)
    → Dict.lookup name (remove_each rs s).1.runners_by_pair ≡ (
        if contains (Dict.keys rs) name && not (is_wanted name s)
        then none
        else Dict.lookup name s.runners_by_pair)
unfolding remove_each Dict.keys
remove_each-runners name [] s = refl
remove_each-runners name ((other, r) ∷ rest) s = ground (
  arith,
  remove_each-runners name rest s,
  remove_each-runners name rest (withdraw other s),
  withdraw-is_wanted name other s,
  withdraw-runners name other s,
)

pub remove_each-prints :
    (name : String) (rs : Dict String PairRunner) (s : Scheduler)
    → Dict.lookup name (remove_each rs s).1.fingerprints ≡ (
        if contains (Dict.keys rs) name && not (is_wanted name s)
        then none
        else Dict.lookup name s.fingerprints)
unfolding remove_each Dict.keys
remove_each-prints name [] s = refl
remove_each-prints name ((other, r) ∷ rest) s = ground (
  arith,
  remove_each-prints name rest s,
  remove_each-prints name rest (withdraw other s),
  withdraw-is_wanted name other s,
  withdraw-prints name other s,
)

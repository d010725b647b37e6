-- ===== src/Sync/Retry.antt =====
-- How often `_call` calls, and what it lets through.
use qlabs_catalog_sync.Prelude.{
  ℕ, zero, suc, ◌≤◌, ◌≡◌, refl, List, ◌∷◌, String, Option, none, Result, ok, err, arith,
}
use qlabs_catalog_sync.Changes.{
  ConnectorError, auth_error, transient_error, not_found, conflict_error, capability_error,
  other_error,
}
use qlabs_catalog_sync.Sync.Settings.{Call}
use qlabs_catalog_sync.Sync.Cycle.{
  Cycle, Sync, Raised, connector_error, cycle_aborted, store_error, diff_error, tree_error,
}
use qlabs_catalog_sync.Sync.Calls.{after, call_with}

abbrev pub repeat : ℕ → Call → List Call → List Call
repeat zero call history = history
repeat (suc n) call history = repeat n call (call ∷ history)

-- Neither an authentication error nor a transient one reaches the caller as such.
abbrev pub IsSettled : {A : Type 0} → Result Raised A → Type 0
IsSettled (ok a) = Unit
IsSettled (err (connector_error auth_error)) = ⊥
IsSettled (err (connector_error (transient_error hint))) = ⊥
IsSettled (err (connector_error not_found)) = Unit
IsSettled (err (connector_error conflict_error)) = Unit
IsSettled (err (connector_error capability_error)) = Unit
IsSettled (err (connector_error other_error)) = Unit
IsSettled (err (cycle_aborted endpoint)) = Unit
IsSettled (err (store_error x)) = Unit
IsSettled (err (diff_error x)) = Unit
IsSettled (err (tree_error x)) = Unit

-- At most `n` calls were made, all the same one, and nothing else of the cycle changed.
pub record Attempted {A : Type 0} (call : Call) (n : ℕ) (c : Cycle) (out : Result Raised A × Cycle)
    : Type 0 where
  pub made : ℕ
  pub bound : made ≤ n
  pub state : out.1 ≡ record c { history = repeat made call c.history }
  pub settled : IsSettled out.0

module _ {A : Type 0} (endpoint : String) (call : Call)
    (answer : List Call → Result ConnectorError A) where
  once :
      (n : ℕ) (c : Cycle) (r : Result Raised A)
      → IsSettled r
      → Attempted call (suc n) c (r, record c { history = call ∷ c.history })
  once n c r settled = record { made = 1; bound = omega arith; state = refl; settled = settled }

  after-Attempted :
      (n : ℕ) (c : Cycle) (again : Sync A) (r : Result ConnectorError A)
      → Attempted call n
          (record c { history = call ∷ c.history })
          (again (record c { history = call ∷ c.history }))
      → Attempted call
          (suc n)
          c
          (after endpoint call answer again (r, record c { history = call ∷ c.history }))
  unfolding after
  after-Attempted n c again (ok a) rest = once n c (ok a) tt
  after-Attempted n c again (err auth_error) rest = once n c _ tt
  after-Attempted n c again (err (transient_error hint)) rest = record {
    made = suc rest.made;
    bound = omega (arith, rest.bound);
    state = rest.state;
    settled = rest.settled;
  }
  after-Attempted n c again (err not_found) rest = once n c _ tt
  after-Attempted n c again (err conflict_error) rest = once n c _ tt
  after-Attempted n c again (err capability_error) rest = once n c _ tt
  after-Attempted n c again (err other_error) rest = once n c _ tt

  -- With `left` retries, a connector is called at most `left` + 1 times, always with the same
  -- call; the cycle is otherwise as before; and what comes out is the answer, a settled connector
  -- error or the end of the cycle, never an authentication or transient error.
  pub call_with-Attempted :
      (left : ℕ) (c : Cycle) → Attempted call (suc left) c (call_with endpoint call answer left c)
  unfolding call_with
  call_with-Attempted zero c =
      after-Attempted zero c _ (answer c.history)
        (record { made = 0; bound = omega arith; state = refl; settled = tt })
  call_with-Attempted (suc left) c =
      after-Attempted (suc left) c _ (answer c.history) (call_with-Attempted left _)

  -- Against a connector that keeps answering with a transient error, exactly `left` + 1 calls are
  -- made, and the cycle ends without quarantining the endpoint.
  pub call_with-exhausted :
      (left : ℕ) (c : Cycle) (hint : List Call → Option ℕ)
      → ((h : List Call) → answer h ≡ err (transient_error (hint h)))
      → call_with endpoint call answer left c
        ≡ (err (cycle_aborted none), record c { history = repeat (suc left) call c.history })
  unfolding call_with after
  call_with-exhausted zero c hint failing = rw (failing c.history) refl
  call_with-exhausted (suc left) c hint failing =
      rw (failing c.history) (call_with-exhausted left _ hint failing)

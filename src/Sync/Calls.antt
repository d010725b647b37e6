-- ===== src/Sync/Calls.antt =====
-- `_call` and the calls that go through it, `_preflight_check`, and the readings of the clock.
-- The delay before a retry is not modelled.
use qlabs_catalog_sync.Prelude.{
  ℕ, zero, suc, Bool, true, false, if◌then◌else◌, List, ◌∷◌, String, none, some, Result, ok, err,
}
use qlabs_catalog_sync.Models.{EntityType, IdentityRef, FieldDiff}
use qlabs_catalog_sync.Changes.{
  ConnectorError, auth_error, transient_error, not_found, conflict_error, capability_error,
  other_error, NeutralEntity, WriteResult, ListChangedResult, Watermark,
}
use qlabs_catalog_sync.Sync.Settings.{
  Settings, Endpoints, Side, source, target, Call, healthcheck, list_changed, read, update, create,
}
use qlabs_catalog_sync.Sync.Cycle.{
  Cycle, Sync, Raised, connector_error, cycle_aborted, ◌>>=◌, ◌>>◌, pure, throw,
}

-- One attempt: the call is made, and the connector answers by the calls before it.
abbrev pub attempt :
    {A : Type 0}
    → Call
    → (List Call → Result ConnectorError A)
    → Cycle
    → Result ConnectorError A × Cycle
attempt call answer c = (answer c.history, record c { history = call ∷ c.history })

module _ {A : Type 0} (endpoint : String) (call : Call)
    (answer : List Call → Result ConnectorError A) where
  -- What follows an attempt; `again` is what a transient error leads to.
  unfoldable pub after : Sync A → Result ConnectorError A × Cycle → Result Raised A × Cycle
  after again (ok a, c) = (ok a, c)
  after again (err auth_error, c) = (err (cycle_aborted (some endpoint)), c)
  after again (err (transient_error hint), c) = again c
  after again (err not_found, c) = (err (connector_error not_found), c)
  after again (err conflict_error, c) = (err (connector_error conflict_error), c)
  after again (err capability_error, c) = (err (connector_error capability_error), c)
  after again (err other_error, c) = (err (connector_error other_error), c)

  -- The first argument is how many attempts are left after this one.
  unfoldable pub call_with : ℕ → Sync A
  unfolding after
  call_with zero c = after (throw (cycle_aborted none)) (attempt call answer c)
  call_with (suc left) c = after (call_with left) (attempt call answer c)

module _ (s : Settings) (e : Endpoints) where
  abbrev pub name_of : Side → String
  name_of source = s.source_name
  name_of target = s.target_name

  unfoldable pub now : Sync ℕ
  now c = (ok (s.clock c.clock_readings), record c { clock_readings = suc c.clock_readings })

  unfoldable pub new_id : Sync ℕ
  new_id c = (ok (s.uuid4 c.ids_drawn), record c { ids_drawn = suc c.ids_drawn })

  unfoldable pub call_read : Side → IdentityRef → Sync NeutralEntity
  call_read side ref =
      call_with (name_of side) (read side ref) (λ h. e.on_read h side ref) s.retry_attempts

  unfoldable pub call_update : IdentityRef → FieldDiff → Sync WriteResult
  call_update ref diff =
      call_with s.target_name (update ref diff) (λ h. e.on_update h ref diff) s.retry_attempts

  unfoldable pub call_create : NeutralEntity → Sync WriteResult
  call_create entity =
      call_with s.target_name (create entity) (λ h. e.on_create h entity) s.retry_attempts

  unfoldable pub call_list_changed : EntityType → Watermark → Sync ListChangedResult
  call_list_changed t since =
      call_with s.source_name (list_changed t since) (λ h. e.on_list_changed h t since)
        s.retry_attempts

  abbrev pub quarantine_if : Side → Bool → Sync (Unit {0})
  quarantine_if side true = throw (cycle_aborted (some (name_of side)))
  quarantine_if side false = pure tt

  unfoldable pub check_health : Side → Sync (Unit {0})
  check_health side = do
    sick ←
        call_with (name_of side) (healthcheck side) (λ h. e.on_healthcheck h side) s.retry_attempts
    quarantine_if side sick

  unfoldable pub preflight_check : Sync (Unit {0})
  preflight_check = if s.preflight then (do check_health source; check_health target) else pure tt

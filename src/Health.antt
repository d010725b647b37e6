-- ===== src/Health.antt =====
-- observability.py: the health registry, and what /healthz answers.
use qlabs_catalog_sync.Prelude.{
  ℕ, Bool, true, false, String, Option, none, some, if◌then◌else◌, string_eq, all,
}
use qlabs_catalog_sync.Prelude.Dict
use qlabs_catalog_sync.Prelude.Dict.{Dict}

pub record HealthStatus : Type 0 where
  pub name : String
  pub healthy : Bool
  pub detail : Option String

-- `_components`
abbrev pub HealthRegistry : Type 0
HealthRegistry = Dict String HealthStatus

unfoldable pub mark_healthy : String → HealthRegistry → HealthRegistry
mark_healthy name h = Dict.insert name (record { name = name; healthy = true; detail = none }) h

unfoldable pub mark_degraded : String → String → HealthRegistry → HealthRegistry
mark_degraded name reason h =
    Dict.insert name (record { name = name; healthy = false; detail = some reason }) h

-- `snapshot()["status"] == "ok"`
unfoldable pub overall_healthy : HealthRegistry → Bool
overall_healthy h = all (λ (_, status). status.healthy) h

unfoldable pub status_code : HealthRegistry → ℕ
status_code h = if overall_healthy h then 200 else 503

-- ===== src/Activation.antt =====
-- sync/status.py: whether an active data product is activated at the target, and the call.
pub mod Gates
use qlabs_catalog_sync.Prelude.{
  Bool, true, false, not, ◌||◌, List, [], ◌∷◌, String, Option, none, some, Result, ok, err,
  if◌then◌else◌,
}
use qlabs_catalog_sync.Prelude.Text.{is_empty}
use qlabs_catalog_sync.Models.{IdentityRef}
use qlabs_catalog_sync.Changes.{WriteResult, ConnectorError}

pub data DataProductStatus : Type 0 where
  draft active deprecated archived : DataProductStatus

pub data ActivationIntent : Type 0 where
  activate leave : ActivationIntent

pub data WithholdReason : Type 0 where
  status_not_active activation_not_opted_in activation_requires_managed_space : WithholdReason

pub record ActivationDecision : Type 0 where
  pub intent : ActivationIntent
  pub requested : Bool
  pub reason : Option WithholdReason

unfoldable pub activation_intent_for : Option DataProductStatus → ActivationIntent
activation_intent_for (some active) = activate
activation_intent_for (some draft) = leave
activation_intent_for (some deprecated) = leave
activation_intent_for (some archived) = leave
activation_intent_for none = leave

-- `not managed_space_id`
abbrev pub is_blank : Option String → Bool
is_blank none = true
is_blank (some id) = is_empty id

abbrev pub refused : ActivationIntent → WithholdReason → ActivationDecision
refused intent reason = record { intent = intent; requested = false; reason = some reason }

abbrev pub in_space : Bool → ActivationDecision
in_space true = refused activate activation_requires_managed_space
in_space false = record { intent = activate; requested = true; reason = none }

abbrev pub gated : ActivationIntent → Bool → Option String → ActivationDecision
gated leave opt_in managed_space_id = refused leave status_not_active
gated activate opt_in managed_space_id =
    if not opt_in
    then refused activate activation_not_opted_in
    else in_space (is_blank managed_space_id)

unfoldable pub decide_activation :
    Option DataProductStatus → Bool → Option String → ActivationDecision
decide_activation status opt_in managed_space_id =
    gated (activation_intent_for status) opt_in managed_space_id

pub record ActivationOutcome : Type 0 where
  pub decision : ActivationDecision
  pub attempted : Bool
  pub write_result : Option WriteResult
  pub unsupported : Bool

-- The arguments of a call of `activate`.
pub record ActivateCall : Type 0 where
  pub ref : IdentityRef
  pub name : String
  pub managed_space_id : String

-- A connector that is `ActivationCapable` answers a call; another one has no such method.
pub record Target : Type 0 where
  pub activation : Option (ActivateCall → Result ConnectorError WriteResult)

pub data ActivationError : Type 0 where
  connector_error : ConnectorError → ActivationError
  assertion_error : ActivationError

-- What it answers or raises, and the calls it made.
abbrev pub Outcome : Type 0
Outcome = Result ActivationError ActivationOutcome × List ActivateCall

abbrev pub answered :
    ActivationDecision → ActivateCall → Result ConnectorError WriteResult → Outcome
answered d call (err e) = (err (connector_error e), call ∷ [])
answered d call (ok result) = (
  ok (record { decision = d; attempted = true; write_result = some result; unsupported = false }),
  call ∷ [],
)

abbrev pub withheld : ActivationDecision → Bool → Outcome
withheld d unsupported = (
  ok (record { decision = d; attempted = false; write_result = none; unsupported = unsupported }),
  [],
)

abbrev pub request :
    ActivationDecision
    → Option (ActivateCall → Result ConnectorError WriteResult)
    → IdentityRef
    → String
    → Option String
    → Outcome
request d none ref name managed_space_id = withheld d true
request d (some on_activate) ref name none = (err assertion_error, [])
request d (some on_activate) ref name (some id) =
    let call : ActivateCall = record { ref = ref; name = name; managed_space_id = id } in
    answered d call (on_activate call)

abbrev pub act :
    ActivationDecision
    → Option (ActivateCall → Result ConnectorError WriteResult)
    → IdentityRef
    → String
    → Option String
    → Outcome
act d activation ref name managed_space_id =
    if not d.requested then withheld d false else request d activation ref name managed_space_id

unfoldable pub reconcile_activation :
    Target → IdentityRef → String → Option DataProductStatus → Bool → Option String → Outcome
reconcile_activation t ref name status opt_in managed_space_id =
    act (decide_activation status opt_in managed_space_id) t.activation ref name managed_space_id

-- ===== src/Activation/Gates.antt =====
-- When an activation is called for.
use qlabs_catalog_sync.Prelude.{
  Bool, true, false, [], String, Option, none, some, Result, ok, err, All, ◌≡◌, ◌≢◌, ◌↔◌, refl, ap,
}
use qlabs_catalog_sync.Prelude.Text.{is_empty}
use qlabs_catalog_sync.Models.{IdentityRef}
use qlabs_catalog_sync.Changes.{WriteResult, ConnectorError}
use qlabs_catalog_sync.Activation.{
  DataProductStatus, draft, active, deprecated, archived, assertion_error, ActivationOutcome,
  ActivateCall, Target, in_space, act, answered, Outcome, activation_intent_for, decide_activation,
  reconcile_activation,
}

-- Every gate: the status, the opt-in, a managed space, and a connector that can.
pub record IsOpen (t : Target) (status : Option DataProductStatus) (opt_in : Bool)
    (managed_space_id : Option String) : Type 0 where
  pub is_active : status ≡ some active
  pub opted_in : opt_in ≡ true
  pub space : (id : String) × (managed_space_id ≡ some id) × (is_empty id ≡ false)
  pub capable : t.activation ≢ none

abbrev pub Follows :
    Target → IdentityRef → Option DataProductStatus → Bool → Option String → Outcome → Type 0
Follows t ref status opt_in managed_space_id o =
    ((o.1 ≢ []) ↔ IsOpen t status opt_in managed_space_id)
    × All (λ call. (call.ref ≡ ref) × (some call.managed_space_id ≡ managed_space_id)) o.1
    × (o.0 ≢ err assertion_error)

-- Nothing is requested where a gate is shut.
shut-Follows :
    (t : Target) (ref : IdentityRef) (status : Option DataProductStatus) (opt_in : Bool)
    (managed_space_id : Option String) (o : ActivationOutcome)
    → ¬ IsOpen t status opt_in managed_space_id
    → Follows t ref status opt_in managed_space_id (ok o, [])
shut-Follows t ref status opt_in m o shut =
    (((λ called. absurd (called refl)), λ all _. shut all), tt, λ e. cc)

-- Activation is requested exactly when the status is active, the pair opted in, a managed space
-- with an id that is not empty is given, and the connector is capable; a request is for the given
-- object and space; and the assertion that a space is given never fails.
pub reconcile_activation-gates :
    (t : Target) (ref : IdentityRef) (name : String) (status : Option DataProductStatus)
    (opt_in : Bool) (managed_space_id : Option String)
    → Follows t ref status opt_in managed_space_id
        (reconcile_activation t ref name status opt_in managed_space_id)
unfolding reconcile_activation decide_activation activation_intent_for
reconcile_activation-gates t ref name none opt_in m =
    shut-Follows t ref none opt_in m _ (λ all. cc (all.is_active))
reconcile_activation-gates t ref name (some draft) opt_in m =
    shut-Follows t ref (some draft) opt_in m _ (λ all. cc (all.is_active))
reconcile_activation-gates t ref name (some deprecated) opt_in m =
    shut-Follows t ref (some deprecated) opt_in m _ (λ all. cc (all.is_active))
reconcile_activation-gates t ref name (some archived) opt_in m =
    shut-Follows t ref (some archived) opt_in m _ (λ all. cc (all.is_active))
reconcile_activation-gates t ref name (some active) false m =
    shut-Follows t ref (some active) false m _ (λ all. cc (all.opted_in))
reconcile_activation-gates t ref name (some active) true none =
    shut-Follows t ref (some active) true none _ (λ all. cc (all.space.1))
reconcile_activation-gates t ref name (some active) true (some id) =
    go (is_empty id) refl t.activation refl
  where
    called :
        IsOpen t (some active) true (some id)
        → (call : ActivateCall) (answer : Result ConnectorError WriteResult) → call.ref ≡ ref
        → some call.managed_space_id ≡ some id
        → Follows t ref (some active) true (some id) (answered (in_space false) call answer)
    called all call (ok result) own space =
        (((λ _. all), λ _ none_called. cc (none_called)), ((own, space), tt), λ e. cc)
    called all call (err x) own space =
        (((λ _. all), λ _ none_called. cc (none_called)), ((own, space), tt), λ e. cc)

    go :
        (blank : Bool)
        → is_empty id ≡ blank
        → (activation : Option (ActivateCall → Result ConnectorError WriteResult))
        → t.activation ≡ activation
        → Follows t ref
            (some active)
            true
            (some id)
            (act (in_space blank) activation ref name (some id))
    go true e activation f = shut-Follows t ref (some active) true (some id) _ (λ all.
        let (other, same, full) = all.space in
        let it : id ≡ other = cc in cc (e, full, ap is_empty it))
    go false e none f = shut-Follows t ref (some active) true (some id) _ (λ all. all.capable f)
    go false e (some on_activate) f =
        let all : IsOpen t (some active) true (some id) = record {
          is_active = refl;
          opted_in = refl;
          space = (id, refl, e);
          capable = (λ gone. cc (f, gone));
        } in
        let call : ActivateCall = record { ref = ref; name = name; managed_space_id = id } in
        called all call (on_activate call) refl refl

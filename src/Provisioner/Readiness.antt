-- ===== src/Provisioner/Readiness.antt =====
-- pkg/provisioners/readiness.go: the checks that a resource is ready.
pub mod Laws
use service_broker_k8s.Base.{
  String, Bool, true, false, Option, none, some, List, [], ◌∷◌, ◌==◌, not, if◌then◌else◌, sprintf,
  or_default,
}
use service_broker_k8s.Errors.{
  Error, Result, ok, err, panic, other, configuration_error, or_fail, fail_if, ◌>>=◌, ◌>>◌,
}
use service_broker_k8s.Json.{Json, null, str, obj}
use service_broker_k8s.Env.{Env, value, to_result}
use service_broker_k8s.Config.{ServiceBrokerConfig, ReadinessCheck, ReadinessCheckCondition}
use service_broker_k8s.Registry.{Entry, get_string}
use service_broker_k8s.Registry.Key
use service_broker_k8s.Provisioner.{ResourceType, get_template_binding, wait_for}
use service_broker_k8s.Provisioner.Template.{render_string}

-- `v.(string)`
abbrev pub as_string : Json → Error → Result String
as_string (str s) e = ok s
as_string _ e = err e

-- `v.(map[string]interface{})`
abbrev pub is_object : Json → Bool
is_object (obj _) = true
is_object _ = false

-- `for _, check := range checks { … return err }`
abbrev pub in_turn {ℓ} : {A : Type ℓ} → (A → Result (Unit {0})) → List A → Result (Unit {0})
in_turn f [] = ok tt
in_turn f (x ∷ xs) = f x >> in_turn f xs

-- Found values of `unstructured.NestedString`; its errors are passed over.
abbrev pub found_or : {A : Type 0} → Result (Option A) → Error → Result A
found_or (ok none) e = err e
found_or (ok (some a)) e = ok a
found_or (err _) e = err e
found_or panic e = panic

module _ (env : Env) where
  open env use {
    State, stack_depth, nested_string, nested_slice, kind_mapping, get_object, ticks, retry_period,
    format_argument,
  }

  abbrev no_string : (what : String) → Json → Error
  no_string what v =
      configuration_error
        (sprintf ("condition resource " ∷ what ∷ " not a string " ∷ format_argument (value v) ∷ []))

  -- A condition that is not ready, as an error of its own type.
  abbrev unready : ReadinessCheckCondition → String → List String → Error
  unready condition name rest =
      other
        (sprintf ("resource " ∷ condition.api_version ∷ "/" ∷ condition.kind ∷ " " ∷ name ∷ rest))

  -- The status of the condition of the right type.
  abbrev status_matches : ReadinessCheckCondition → String → Json → Result (Unit {0})
  status_matches condition name c = do
    status ←
        found_or (nested_string c ("status" ∷ []))
          (unready condition name (" conditions contains no status" ∷ []))
    fail_if (not (status == condition.status)) (
        unready condition name (
          " " ∷ condition.type ∷ " condition " ∷ status ∷ " is, expected " ∷ condition.status ∷ []))

  -- The loop over the conditions of a resource.
  unfoldable pub match_conditions : ReadinessCheckCondition → String → List Json → Result (Unit {0})
  match_conditions condition name [] =
      err (unready condition name (" doesn't contain the condition " ∷ condition.type ∷ []))
  match_conditions condition name (c ∷ cs) =
      let rest = match_conditions condition name cs in
      do
        fail_if (not (is_object c)) (unready condition name (" conditions are not objects" ∷ []))
        t ←
            found_or (nested_string c ("type" ∷ []))
              (unready condition name (" conditions contains no type" ∷ []))
        if t == condition.type then status_matches condition name c else rest

  module _ (config : ServiceBrokerConfig) where
    -- `conditionReady`
    unfoldable pub condition_ready : Entry → ReadinessCheckCondition → State → Result (Unit {0})
    unfolding match_conditions render_string
    condition_ready entry condition s = do
      namespace_raw ← render_string env config stack_depth entry condition.namespace null
      namespace ← as_string namespace_raw (no_string "namespace" namespace_raw)
      name_raw ← render_string env config stack_depth entry condition.name null
      name ← as_string name_raw (no_string "name" name_raw)
      mapping ← kind_mapping condition.api_version condition.kind
      object ←
          to_result
            (get_object mapping.resource (if mapping.is_root then none else some namespace) name s)
      conditions ←
          found_or (nested_slice object ("status" ∷ "conditions" ∷ []))
            (unready condition name (" contains no status conditions" ∷ []))
      match_conditions condition name conditions

    abbrev check_type_undefined : ReadinessCheck → Error
    check_type_undefined check = other (
        sprintf (
          "resource attibute missing: readiness check " ∷ check.name ∷ " check type undefined"
          ∷ []))

    abbrev condition_or_undefined :
        ReadinessCheck → Entry → Option ReadinessCheckCondition → State → Result (Unit {0})
    condition_or_undefined check entry none s = err (check_type_undefined check)
    condition_or_undefined check entry (some condition) s = condition_ready entry condition s

    -- `doCheck` of `barrier`, and the body of the loop in `Ready`.
    unfoldable pub do_check : Entry → ReadinessCheck → State → Result (Unit {0})
    unfolding condition_ready
    do_check entry check s = condition_or_undefined check entry check.condition s

    abbrev check_all :
        ResourceType → Entry → (service_id plan_id : String) → State → Result (Unit {0})
    check_all t entry service_id plan_id s = do
      templates ← get_template_binding config t service_id plan_id
      in_turn (λ check. do_check entry check s) templates.readiness_checks

    -- `Ready`
    unfoldable pub ready :
        ResourceType → Entry → (service_id plan_id : String) → State → Result (Unit {0})
    unfolding get_string do_check
    ready t entry service_id plan_id s = do
      found ← get_string Key.operation entry
      op ← or_fail found (other "registry entry missing: service instance missing operation")
      if op == "provision" then check_all t entry service_id plan_id s else ok tt

    -- `barrier`: the wait is a minute where the check gives no timeout.
    unfoldable pub barrier : Entry → ReadinessCheck → State → Result (Unit {0}) × State
    unfolding do_check wait_for
    barrier entry check s =
        wait_for retry_period (do_check entry check) (ticks (or_default check.timeout 60000) s) s

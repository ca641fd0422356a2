-- ===== src/Broker.antt =====
-- pkg/broker/util.go: the checks of a request against the configuration and the registry.
pub mod Directory
pub mod Auth
pub mod Handler
pub mod Steps
pub mod Record
pub mod Create
pub mod Instance
pub mod Binding
pub mod Server
pub mod Guards
pub mod Valid
pub mod Jobs
use service_broker_k8s.Base.{
  String, Bool, true, Option, none, some, List, [], ◌∷◌, ◌==◌, ◌&&◌, not, sprintf, or_default,
}
use service_broker_k8s.Base.Dict.{lookup}
use service_broker_k8s.Errors.{
  Error, configuration_error, query_error, parameter_error, validation_error, async_required_error,
  other, message, Result, ok, err, panic, fail_if, or_fail, ◌>>=◌, ◌>>◌,
}
use service_broker_k8s.Json.{Json, str, obj, end, Bytes, unmarshal, check_valid, text}
use service_broker_k8s.Http.{Request}
use service_broker_k8s.Config.{
  ServiceBrokerConfig, ServiceOffering, ServicePlan, Schemas, ServiceInstanceSchema,
  ServiceBindingSchema, InputParametersSchema, find_service, find_plan,
}
use service_broker_k8s.Env.{Env}

-- An error under a prefix: `fmt.Errorf("…: %v", err)` as a typed error.
abbrev relabel {ℓ} : {A : Type ℓ} → (String → Error) → String → Result A → Result A
relabel label prefix (ok a) = ok a
relabel label prefix (err e) = err (label (sprintf (prefix ∷ message e ∷ [])))
relabel label prefix panic = panic

-- The value of a parameter that has one value only.
abbrev single : String → List String → Result (Option String)
single name (value ∷ []) = ok (some value)
single name _ = err (query_error (sprintf ("query parameter " ∷ name ∷ " not unique" ∷ [])))

abbrev single_if_given : String → Option (List String) → Result (Option String)
single_if_given name none = ok none
single_if_given name (some values) = single name values

-- `maygetSingleParameter`; a parameter that does not exist is `none`.
unfoldable pub mayget_single_parameter : Request → String → Result (Option String)
unfolding message
mayget_single_parameter r name = do
  query ← relabel query_error "malformed query data: " r.query
  single_if_given name (lookup name query)

-- `getSingleParameter`
unfoldable pub get_single_parameter : Request → String → Result String
unfolding mayget_single_parameter
get_single_parameter r name = do
  value ← mayget_single_parameter r name
  or_fail value (query_error (sprintf ("query parameter " ∷ name ∷ " not found" ∷ [])))

-- `!ok || acceptsIncomplete[0] != "true"`
abbrev refuses_incomplete : Option (List String) → Bool
refuses_incomplete none = true
refuses_incomplete (some []) = true
refuses_incomplete (some (value ∷ _)) = not (value == "true")

-- `asyncRequired`
unfoldable pub async_required : Request → Result (Unit {0})
unfolding message
async_required r = do
  query ← relabel query_error "malformed query data: " r.query
  fail_if (refuses_incomplete (lookup "accepts_incomplete" query))
      (async_required_error "client must support asynchronous instance creation")

-- `getServiceOffering`
unfoldable pub get_service_offering : ServiceBrokerConfig → String → Result ServiceOffering
unfolding find_service
get_service_offering config service_id =
    or_fail (find_service service_id config.catalog)
      (parameter_error (sprintf ("service offering '" ∷ service_id ∷ "' not defined" ∷ [])))

-- `getServicePlan`
unfoldable pub get_service_plan :
    ServiceBrokerConfig → (service_id plan_id : String) → Result ServicePlan
unfolding get_service_offering find_plan
get_service_plan config service_id plan_id = do
  service ← get_service_offering config service_id
  or_fail (find_plan plan_id service.plans) (
      parameter_error (
        sprintf
          ("service plan " ∷ plan_id ∷ " not defined for service offering " ∷ service_id ∷ [])))

-- `validateServicePlan`
unfoldable pub validate_service_plan :
    ServiceBrokerConfig → (service_id plan_id : String) → Result (Unit {0})
unfolding get_service_plan
validate_service_plan config service_id plan_id = do
  _ ← get_service_plan config service_id plan_id
  ok tt

-- `schemaType` and `schemaOperation`, as far as the handlers use them.
pub data SchemaType : Type 0 where
  instance_schema binding_schema : SchemaType

pub data SchemaOperation : Type 0 where
  create_schema update_schema : SchemaOperation

abbrev of_instance :
    SchemaOperation → Option ServiceInstanceSchema → Result (Option InputParametersSchema)
of_instance o none = ok none
of_instance create_schema (some s) = ok s.create
of_instance update_schema (some s) = ok s.update

abbrev of_binding :
    SchemaOperation → Option ServiceBindingSchema → Result (Option InputParametersSchema)
of_binding o none = ok none
of_binding create_schema (some s) = ok s.create
of_binding update_schema (some s) =
    err (other "unexpected error: unexpected schema operation: update")

-- The two switches of `getSchema`.
unfoldable pub schema_of :
    SchemaType → SchemaOperation → Option Schemas → Result (Option InputParametersSchema)
schema_of t o none = ok none
schema_of instance_schema o (some s) = of_instance o s.service_instance
schema_of binding_schema o (some s) = of_binding o s.service_binding

-- `getSchema`
unfoldable pub get_schema :
    ServiceBrokerConfig
    → (service_id plan_id : String) → SchemaType
    → SchemaOperation
    → Result (Option InputParametersSchema)
unfolding get_service_plan schema_of
get_schema config service_id plan_id t o = do
  plan ← get_service_plan config service_id plan_id
  schema_of t o plan.schemas

-- `planUpdatable`
unfoldable pub plan_updatable :
    ServiceBrokerConfig → (service_id plan_id new_plan_id : String) → Result (Unit {0})
unfolding get_service_offering
plan_updatable config service_id plan_id new_plan_id = do
  service ← get_service_offering config service_id
  fail_if (not service.plan_updatable && not (plan_id == new_plan_id)) (
      parameter_error (
        sprintf
          ("service plan " ∷ plan_id ∷ " for service " ∷ service_id ∷ " cannot be updated" ∷ [])))

-- `verifyBindable`
unfoldable pub verify_bindable :
    ServiceBrokerConfig → (service_id plan_id : String) → Result (Unit {0})
unfolding get_service_offering get_service_plan
verify_bindable config service_id plan_id = do
  service ← get_service_offering config service_id
  plan ← get_service_plan config service_id plan_id
  fail_if (not (or_default plan.bindable service.bindable)) (
      configuration_error (
        sprintf
          ("service plan " ∷ plan_id ∷ " for service " ∷ service_id ∷ " is not bindable" ∷ [])))

-- The bytes of a raw extension for `json.Unmarshal`; nil bytes are no JSON.
abbrev raw_bytes : Option Bytes → Result Bytes
raw_bytes none = err (other "unexpected end of JSON input")
raw_bytes (some b) = ok b

-- `[]byte("{}")`
abbrev empty_object_bytes : Bytes
empty_object_bytes = text (obj end) 0 0

module _ (env : Env) where
  open env use {Schema, schema_unmarshal_json, against_schema, pointer_new, pointer_get}

  -- `schemaRaw.Parameters.Raw` reads through a pointer that may be nil.
  abbrev schema_bytes : Option (Option Bytes) → Result Bytes
  schema_bytes none = panic
  schema_bytes (some raw) = raw_bytes raw

  abbrev parameter_bytes : Option (Option Bytes) → Result Bytes
  parameter_bytes none = ok empty_object_bytes
  parameter_bytes (some raw) = raw_bytes raw

  -- The body of `validateParameters` for a schema that is there.
  unfoldable pub check_parameters :
      InputParametersSchema → Option (Option Bytes) → Result (Unit {0})
  unfolding message unmarshal check_valid
  check_parameters schema_raw parameters_raw = do
    schema ←
        relabel parameter_error "schema unmarshal failed: "
          (schema_bytes schema_raw.parameters >>= check_valid >>= schema_unmarshal_json)
    parameters ←
        relabel parameter_error "parameters unmarshal failed: "
          (parameter_bytes parameters_raw >>= unmarshal)
    relabel validation_error "schema validation failed: " (against_schema schema parameters)

  abbrev check_if_schema : Option InputParametersSchema → Option (Option Bytes) → Result (Unit {0})
  check_if_schema none parameters = ok tt
  check_if_schema (some schema) parameters = check_parameters schema parameters

  -- `validateParameters`
  unfoldable pub validate_parameters :
      ServiceBrokerConfig
      → (service_id plan_id : String) → SchemaType
      → SchemaOperation
      → Option (Option Bytes)
      → Result (Unit {0})
  unfolding get_schema check_parameters
  validate_parameters config service_id plan_id t o parameters = do
    schema ← get_schema config service_id plan_id t o
    check_if_schema schema parameters

  -- The namespace that the pointer finds in a context; where it finds nothing, the default stands.
  abbrev context_namespace : String → Result Json → Result String
  context_namespace namespace (err _) = ok namespace
  context_namespace namespace (ok (str s)) = ok s
  context_namespace namespace panic = panic
  context_namespace namespace (ok _) =
      err (parameter_error "request context namespace not a string")

  abbrev namespace_of : String → Option (Option Bytes) → Result String
  namespace_of namespace none = ok namespace
  namespace_of namespace (some raw) = do
    ctx ← raw_bytes raw >>= unmarshal
    pointer_new "/namespace"
    context_namespace namespace (pointer_get "/namespace" ctx)

  -- `getNamespace`
  unfoldable pub get_namespace : Option (Option Bytes) → String → Result String
  unfolding unmarshal
  get_namespace context namespace = namespace_of namespace context

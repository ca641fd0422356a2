-- ===== src/Config.antt =====
-- pkg/apis/servicebroker/v1alpha1/types.go: the broker's configuration, and helpers.go: the
-- lookups in it.
pub mod Validation
pub mod Controller
use service_broker_k8s.Base.{
  String, Bool, Option, none, some, List, [], ◌∷◌, ◌==◌, ◌&&◌, if◌then◌else◌, sprintf, ℕ,
}
use service_broker_k8s.Base.Dict.{Dict}
use service_broker_k8s.Errors.{Result, ok, err, other, ◌>>=◌, or_fail}
use service_broker_k8s.Json.{Bytes}

-- `InputParamtersSchema`; its parameters are a pointer to a `runtime.RawExtension`, whose bytes may
-- be nil.
pub record InputParametersSchema : Type 0 where
  pub parameters : Option (Option Bytes)

pub record ServiceInstanceSchema : Type 0 where
  pub create : Option InputParametersSchema
  pub update : Option InputParametersSchema

pub record ServiceBindingSchema : Type 0 where
  pub create : Option InputParametersSchema

pub record Schemas : Type 0 where
  pub service_instance : Option ServiceInstanceSchema
  pub service_binding : Option ServiceBindingSchema

pub record ServicePlan : Type 0 where
  pub id : String
  pub name : String
  pub description : String
  pub metadata : Option (Option Bytes)
  pub free : Bool
  pub bindable : Option Bool
  pub schemas : Option Schemas

pub record DashboardClient : Type 0 where
  pub id : String
  pub secret : String
  pub redirected_uri : String

pub record ServiceOffering : Type 0 where
  pub name : String
  pub id : String
  pub description : String
  pub tags : List String
  pub requires : List String
  pub bindable : Bool
  pub metadata : Option (Option Bytes)
  pub dashboard_client : Option DashboardClient
  pub plan_updatable : Bool
  pub plans : List ServicePlan

-- `ServiceCatalog`, a struct of the one list.
abbrev pub ServiceCatalog : Type 0
ServiceCatalog = List ServiceOffering

pub record ConfigurationTemplate : Type 0 where
  pub name : String
  pub template : Option (Option Bytes)
  pub singleton : Bool

pub record RegistryValue : Type 0 where
  pub name : String
  pub value : String

pub record ReadinessCheckCondition : Type 0 where
  pub api_version : String
  pub kind : String
  pub namespace : String
  pub name : String
  pub type : String
  pub status : String

-- The timeout is in milliseconds.
pub record ReadinessCheck : Type 0 where
  pub name : String
  pub condition : Option ReadinessCheckCondition
  pub timeout : Option ℕ

pub record TemplateListStep : Type 0 where
  pub name : String
  pub templates : List String
  pub readiness_checks : List ReadinessCheck

-- `ServiceBrokerTemplateList`; steps that are not given are nil.
pub record TemplateList : Type 0 where
  pub registry : List RegistryValue
  pub templates : List String
  pub readiness_checks : List ReadinessCheck
  pub steps : Option (List TemplateListStep)

pub record ConfigurationBinding : Type 0 where
  pub name : String
  pub registry_scope : String
  pub registry_namespace : String
  pub service : String
  pub plan : String
  pub service_instance : TemplateList
  pub service_binding : Option TemplateList

-- `ServiceBrokerConfigCondition`; times are numbers.
pub record ConfigCondition : Type 0 where
  pub type : String
  pub status : String
  pub last_transition_time : ℕ
  pub reason : String
  pub message : String

pub record ServiceBrokerConfig : Type 0 where
  pub name : String
  pub namespace : String
  pub catalog : ServiceCatalog
  pub templates : List ConfigurationTemplate
  pub bindings : List ConfigurationBinding
  pub conditions : List ConfigCondition

-- The first service of an ID.
unfoldable pub find_service : String → List ServiceOffering → Option ServiceOffering
find_service id [] = none
find_service id (service ∷ more) = if service.id == id then some service else find_service id more

-- The first plan of an ID.
unfoldable pub find_plan : String → List ServicePlan → Option ServicePlan
find_plan id [] = none
find_plan id (plan ∷ more) = if plan.id == id then some plan else find_plan id more

-- The first binding of the names of a service and a plan.
unfoldable pub find_binding :
    (service plan : String) → List ConfigurationBinding → Option ConfigurationBinding
find_binding service plan [] = none
find_binding service plan (b ∷ more) =
    if b.service == service && b.plan == plan then some b else find_binding service plan more

-- The first template of a name.
unfoldable pub find_template : String → List ConfigurationTemplate → Option ConfigurationTemplate
find_template name [] = none
find_template name (t ∷ more) = if t.name == name then some t else find_template name more

-- `GetServiceAndPlanNames`
unfoldable pub get_service_and_plan_names :
    ServiceBrokerConfig → (service_id plan_id : String) → Result (String × String)
unfolding find_service find_plan
get_service_and_plan_names config service_id plan_id = do
  service ← or_fail (find_service service_id config.catalog) (
      other (
        sprintf ("resource reference missing: unable to locate service for ID " ∷ service_id ∷ [])))
  plan ←
      or_fail (find_plan plan_id service.plans) (
        other
          (sprintf ("resource reference missing: unable to locate plan for ID " ∷ plan_id ∷ [])))
  ok (service.name, plan.name)

-- `GetTemplateBindings`
unfoldable pub get_template_bindings :
    ServiceBrokerConfig → (service_id plan_id : String) → Result ConfigurationBinding
unfolding get_service_and_plan_names find_binding
get_template_bindings config service_id plan_id = do
  (service, plan) ← get_service_and_plan_names config service_id plan_id
  or_fail (find_binding service plan config.bindings) (
      other (
        sprintf (
          "resource reference missing: unable to locate template bindings for service plan "
          ∷ service ∷ "/" ∷ plan ∷ [])))

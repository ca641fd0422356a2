-- ===== src/Provisioner.antt =====
-- pkg/provisioners/util.go: the lookups of bindings and templates; pkg/util/wait.go: the wait for
-- a condition; and the namespace of a resource.
pub mod Template
pub mod Readiness
pub mod Object
pub mod Creator
pub mod Prepare
pub mod Updater
pub mod Waiting
use service_broker_k8s.Base.{
  ℕ, zero, suc, String, Bool, true, false, Option, none, some, List, [], ◌∷◌, ◌==◌, if◌then◌else◌,
  sprintf,
}
use service_broker_k8s.Errors.{
  Error, Result, ok, err, panic, other, configuration_error, message, or_fail, ◌>>=◌,
}
use service_broker_k8s.Config.{
  ServiceBrokerConfig, TemplateList, ConfigurationBinding, ConfigurationTemplate, find_template,
  get_template_bindings,
}
use service_broker_k8s.Registry.{Entry, get_string}
use service_broker_k8s.Registry.Key

-- `ResourceType`
pub data ResourceType : Type 0 where
  instance_resource binding_resource : ResourceType

unfoldable pub resource_text : ResourceType → String
resource_text instance_resource = "service-instance"
resource_text binding_resource = "service-binding"

abbrev list_of : ResourceType → ConfigurationBinding → Option TemplateList
list_of instance_resource b = some b.service_instance
list_of binding_resource b = b.service_binding

-- `getTemplateBinding`
unfoldable pub get_template_binding :
    ServiceBrokerConfig → ResourceType → (service_id plan_id : String) → Result TemplateList
unfolding get_template_bindings resource_text
get_template_binding config t service_id plan_id = do
  bindings ← get_template_bindings config service_id plan_id
  or_fail (list_of t bindings)
      (configuration_error (sprintf ("missing bindings for type " ∷ resource_text t ∷ [])))

-- `getTemplate`
unfoldable pub get_template : ServiceBrokerConfig → String → Result ConfigurationTemplate
unfolding find_template
get_template config name =
    or_fail (find_template name config.templates)
      (configuration_error (sprintf ("unable to locate template for " ∷ name ∷ [])))

-- The namespace of the object, or that of the instance where the object has none.
unfoldable pub namespace_or_default : String → Entry → Result String
unfolding get_string
namespace_or_default namespace entry = if namespace == "" then from_entry else ok namespace
  where
    from_entry : Result String
    from_entry = do
      n ← get_string Key.namespace entry
      or_fail n (other "registry entry missing: unable to lookup namespace")

-- `WaitFor`: `f` is called until it succeeds, again after each tick, and a last time before the
-- `select` takes the deadline in place of a tick; the number is that of the ticks before.
unfoldable pub wait_for :
    {S : Type 0} → (S → S) → (S → Result (Unit {0})) → ℕ → S → Result (Unit {0}) × S
wait_for period f zero s = elim (f s) [
  | ok _ ↦ (ok tt, s)
  | err e ↦ (
    err (other (sprintf ("process timed out: failed to wait for condition: " ∷ message e ∷ []))),
    s,
  )
  | panic ↦ (panic, s)
]
wait_for period f (suc n) s = elim (f s) [
  | ok _ ↦ (ok tt, s)
  | err _ ↦ wait_for period f n (period s)
  | panic ↦ (panic, s)
]

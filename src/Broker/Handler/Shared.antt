-- ===== src/Broker/Handler/Shared.antt =====
-- What the steps that the handlers of pkg/broker/handlers.go share keep.
use service_broker_k8s.Base.{String, Option, none, some}
use service_broker_k8s.Errors.{Error}
use service_broker_k8s.Env.{Env}
use service_broker_k8s.Json.{Bytes}
use service_broker_k8s.Http.{CreateServiceInstanceRequest, CreateServiceBindingRequest}
use service_broker_k8s.Registry.{Entry}
use service_broker_k8s.Broker.Auth.{ServerConfiguration}
use service_broker_k8s.Broker.Create.{existing_instance}
use service_broker_k8s.Broker.Binding.{existing_binding}
use service_broker_k8s.Broker.Instance.{not_in_progress}
use service_broker_k8s.Broker.Steps.{
  same_request, provisioning_id, operation_id_if, same_if_given, or_empty,
}
use service_broker_k8s.Broker.Handler.{Ctx}
use service_broker_k8s.Broker.Handler.Rules.{IsKept}
use service_broker_k8s.Broker.Handler.Keeps.{Keeps, keeps_rules}

module _ (env : Env) (R : Ctx env.State → Ctx env.State → Type 0) (kept : IsKept R) where
  pub same_if_given-Keeps :
      (o : Option String) (wanted : String) (e : String → Error)
      → Keeps R (same_if_given o wanted e)
  same_if_given-Keeps none wanted e = search (kept, keeps_rules)
  same_if_given-Keeps (some v) wanted e = search (kept, keeps_rules)

  pub or_empty-Keeps : (e : Error) (o : Option String) → Keeps R (or_empty env e o)
  or_empty-Keeps e none = search (kept, keeps_rules)
  or_empty-Keeps e (some v) = search (kept, keeps_rules)

  pub not_in_progress-Keeps :
      (configuration : ServerConfiguration) (o : Option String)
      → Keeps R (not_in_progress env configuration o)
  not_in_progress-Keeps configuration none = search (kept, keeps_rules)
  not_in_progress-Keeps configuration (some op) = search (kept, keeps_rules)

  pub same_request-Keeps :
      (e : Entry) (service plan : String) (context parameters : Option (Option Bytes))
      → Keeps R (same_request env e service plan context parameters)
  unfolding same_request
  same_request-Keeps e service plan context parameters = search (kept, keeps_rules) depth 40

  operation_id_if-Keeps : (e : Entry) (kind : Option String) → Keeps R (operation_id_if env e kind)
  operation_id_if-Keeps e none = search (kept, keeps_rules)
  operation_id_if-Keeps e (some k) = search (kept, keeps_rules) depth 20

  pub provisioning_id-Keeps : (e : Entry) → Keeps R (provisioning_id env e)
  unfolding provisioning_id
  provisioning_id-Keeps e = search (kept, operation_id_if-Keeps, keeps_rules)

  pub existing_instance-Keeps :
      (request : CreateServiceInstanceRequest) (e : Entry)
      → Keeps R (existing_instance env request e)
  unfolding existing_instance
  existing_instance-Keeps request e =
      search (kept, same_request-Keeps, provisioning_id-Keeps, keeps_rules) depth 20

  pub existing_binding-Keeps :
      (request : CreateServiceBindingRequest) (e : Entry) → Keeps R (existing_binding env request e)
  unfolding existing_binding
  existing_binding-Keeps request e =
      search (kept, same_request-Keeps, provisioning_id-Keeps, keeps_rules) depth 20

pub ruleset shared_rules = (
  keeps_rules, same_if_given-Keeps, or_empty-Keeps, not_in_progress-Keeps, existing_instance-Keeps,
  existing_binding-Keeps,
)

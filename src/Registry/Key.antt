-- ===== src/Registry/Key.antt =====
-- pkg/registry/registry.go: the names of the managed keys, and the types of registry.
use service_broker_k8s.Base.{String}

abbrev pub namespace : String
namespace = "namespace"

abbrev pub instance_id : String
instance_id = "instance-id"

abbrev pub binding_id : String
binding_id = "binding-id"

abbrev pub service_id : String
service_id = "service-id"

abbrev pub plan_id : String
plan_id = "plan-id"

abbrev pub context : String
context = "context"

abbrev pub parameters : String
parameters = "parameters"

abbrev pub operation : String
operation = "operation"

abbrev pub operation_id : String
operation_id = "operation-id"

abbrev pub operation_status : String
operation_status = "operation-status"

abbrev pub dashboard_url : String
dashboard_url = "dashboard-url"

abbrev pub credentials : String
credentials = "credentials"

-- `registry.ServiceInstance` and `registry.ServiceBinding`.
abbrev pub service_instance : String
service_instance = "service-instance"

abbrev pub service_binding : String
service_binding = "service-binding"

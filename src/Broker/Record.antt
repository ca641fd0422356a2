-- ===== src/Broker/Record.antt =====
-- pkg/broker/handlers.go: what is recorded of a request in a new registry entry.
pub mod Laws
use service_broker_k8s.Base.{String, Option, none, or_default}
use service_broker_k8s.Errors.{Result, ◌>>=◌}
use service_broker_k8s.Json.{Bytes}
use service_broker_k8s.Env.{Env}
use service_broker_k8s.Registry.{Entry, set_string, set_raw, inherit}
use service_broker_k8s.Registry.Key

module _ (env : Env) where
  -- The `Set` calls for a new service instance.
  unfoldable pub instance_record :
      (namespace instance_id service_id plan_id : String)
      → (context parameters : Option (Option Bytes)) → Entry
      → Result Entry
  unfolding set_string set_raw
  instance_record namespace instance_id service_id plan_id context parameters entry = do
    e1 ← set_string Key.namespace namespace entry
    e2 ← set_string Key.instance_id instance_id e1
    e3 ← set_string Key.service_id service_id e2
    e4 ← set_string Key.plan_id plan_id e3
    e5 ← set_raw env Key.context (or_default context none) e4
    set_raw env Key.parameters (or_default parameters none) e5

  -- The `Inherit` and `Set` calls for a new service binding.
  unfoldable pub binding_record :
      (binding_id : String)
      → (context parameters : Option (Option Bytes)) → (instance_entry entry : Entry) → Result Entry
  unfolding set_string set_raw inherit
  binding_record binding_id context parameters instance_entry entry = do
    e1 ← set_string Key.binding_id binding_id (inherit entry instance_entry)
    e2 ← set_raw env Key.context (or_default context none) e1
    set_raw env Key.parameters (or_default parameters none) e2
